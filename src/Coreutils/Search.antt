-- ===== src/Coreutils/Search.antt =====
-- coreutils/search.go: `Grep`. Regular expressions and Unicode case tables are parameters.
pub mod Exact
use go_core_mcp.Prelude.{
  ℕ, zero, suc, ◌+◌, Bool, true, false, ◌||◌, Option, none, some, List, [], ◌∷◌, ◌++◌, Bytes, lit,
  ltb, leb, if◌then◌else◌, length,
}
use go_core_mcp.Prelude.Int.{ℤ, pos, negsuc}
use go_core_mcp.Outcome.{Outcome, ok, err, reject_if, ◌>>=◌, ◌>>◌}
use go_core_mcp.Strings.{contains}
use go_core_mcp.Coreutils.Lines.{split_lines, clamp_line}

pub record Match : Type 0 where
  pub line : ℕ
  pub text : Bytes

pub record GrepOptions : Type 0 where
  pub pattern : Bytes
  pub ignore_case : Bool
  pub fixed_text : Bool
  pub max_matches : ℤ

pub data GrepError : Type 0 where
  empty_pattern long_pattern invalid_pattern : GrepError

-- strings.ToLower, and regexp.Compile with the `MatchString` of what it returns.
pub record Matching : Type 0 where
  pub to_lower : Bytes → Bytes
  pub compile : Bytes → Option (Bytes → Bool)

or_invalid : Option (Bytes → Bool) → Outcome GrepError (Bytes → Bool)
or_invalid none = err invalid_pattern
or_invalid (some m) = ok m

-- `options.MaxMatches <= 0` stands for 20.
unfoldable pub match_limit : ℤ → ℕ
match_limit (negsuc n) = 20
match_limit (pos zero) = 20
match_limit (pos (suc n)) = suc n

unfoldable pub matcher : Matching → GrepOptions → Outcome GrepError (Bytes → Bool)
unfolding or_invalid
matcher m o =
    if o.fixed_text
    then (if o.ignore_case
        then ok (λ line. contains (m.to_lower line) (m.to_lower o.pattern))
        else ok (λ line. contains line o.pattern))
    else or_invalid (m.compile (if o.ignore_case then lit "(?i)" ++ o.pattern else o.pattern))

-- The loop over the lines left, the first of which has the number `index + 1`.
collect : (Bytes → Bool) → ℕ → ℕ → List Match → Bool → List Bytes → List Match × Bool
collect test limit index out truncated [] = (out, truncated)
collect test limit index out truncated (line ∷ lines) = elim (test line) [
  | false ↦ collect test limit (index + 1) out truncated lines
  | true ↦ elim (leb limit (length out)) [
    | true ↦ (out, true)
    | false ↦
        let (clamped, cut) = clamp_line line in
        collect test limit (index + 1) (out ++ record { line = index + 1; text = clamped } ∷ [])
          (truncated || cut) lines
  ]
]

unfoldable pub grep : Matching → Bytes → GrepOptions → Outcome GrepError (List Match × Bool)
unfolding collect
grep m text o = do
  reject_if (leb (length o.pattern) 0) empty_pattern
  reject_if (ltb 256 (length o.pattern)) long_pattern
  test ← matcher m o
  ok (collect test (match_limit o.max_matches) 0 [] false (split_lines text))
