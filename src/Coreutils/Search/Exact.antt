-- ===== src/Coreutils/Search/Exact.antt =====
-- `Grep` returns the first matching lines, as many as it may.
use go_core_mcp.Prelude.{
  ℕ, zero, suc, ◌+◌, ◌≤◌, ◌<◌, ◌≡◌, ◌∙◌, ap, Bool, true, false, ◌||◌, inl, inr, List, [], ◌∷◌, ◌++◌,
  append_assoc, append-nil, Bytes, arith, ltb, leb, if◌then◌else◌, length, length-append, take,
  Bool-cases,
}
use go_core_mcp.Outcome.{ok}
use go_core_mcp.Coreutils.Lines.{split_lines, max_line_length}
use go_core_mcp.Coreutils.Lines.Laws.{clipped, clamp_line_lem, or_assoc}
use go_core_mcp.Coreutils.Search.{Match, GrepOptions, Matching, match_limit, matcher, collect, grep}

-- Every matching line with its number, from the line with the number `index + 1` on.
abbrev pub all_matches : (Bytes → Bool) → ℕ → List Bytes → List Match
all_matches test index [] = []
all_matches test index (line ∷ lines) =
    let rest = all_matches test (index + 1) lines in
    if test line then record { line = index + 1; text = clipped line } ∷ rest else rest

-- One of the first `n` matching lines is longer than a line may be, or there are more than `n`.
abbrev pub cut_short : (Bytes → Bool) → ℕ → List Bytes → Bool
cut_short test n [] = false
cut_short test n (line ∷ lines) =
    if test line
    then elim n [
      | zero ↦ true
      | suc k ↦ ltb max_line_length (length line) || cut_short test k lines
    ]
    else cut_short test n lines

module _ (test : Bytes → Bool) (limit index : ℕ) (out : List Match) (cut : Bool) where
  collect-skip :
      (line : Bytes) (lines : List Bytes)
      → test line ≡ false
      → collect test limit index out cut (line ∷ lines)
        ≡ collect test limit (index + 1) out cut lines
  unfolding collect
  collect-skip line lines h = ground arith

  collect-full :
      (line : Bytes) (lines : List Bytes)
      → test line ≡ true
      → limit ≤ length out
      → collect test limit index out cut (line ∷ lines) ≡ (out, true)
  unfolding collect
  collect-full line lines h full = ground arith

  collect-keep :
      (line : Bytes) (lines : List Bytes)
      → test line ≡ true
      → length out < limit
      → collect test limit index out cut (line ∷ lines)
        ≡ collect test limit
            (index + 1)
            (out ++ record { line = index + 1; text = clipped line } ∷ [])
            (cut || ltb max_line_length (length line))
            lines
  unfolding collect
  collect-keep line lines h room = ground (arith, clamp_line_lem line)

or_true : (a : Bool) → (a || true) ≡ true
or_true a = ground arith

collect_lem :
    (test : Bytes → Bool) (limit n index : ℕ) (out : List Match) (cut : Bool) (lines : List Bytes)
    → length out + n ≡ limit
    → collect test limit index out cut lines
      ≡ (out ++ take n (all_matches test index lines), cut || cut_short test n lines)
collect_lem test limit zero index out cut [] h = unfold collect in ground (arith, append-nil out)
collect_lem test limit (suc n) index out cut [] h = unfold collect in ground (arith, append-nil out)
collect_lem test limit zero index out cut (line ∷ lines) h = elim (Bool-cases (test line)) [
  | inl e ↦
      collect-full test limit index out cut line lines e (omega arith)
      ∙ rw (e, append-nil out, or_true cut)
  | inr e ↦
      collect-skip test limit index out cut line lines e
      ∙ rw e (collect_lem test limit zero (index + 1) out cut lines h)
]
collect_lem test limit (suc n) index out cut (line ∷ lines) h = elim (Bool-cases (test line)) [
  | inl e ↦
      let found : Match = record { line = index + 1; text = clipped line } in
      let longer = ltb max_line_length (length line) in
      let count : length (out ++ found ∷ []) + n ≡ limit =
        omega (arith, length-append {0} out (found ∷ [])) in
      let rest =
        collect_lem test limit n (index + 1) (out ++ found ∷ []) (cut || longer) lines count in
      collect-keep test limit index out cut line lines e (omega arith)
      ∙ rest
      ∙ rw (e, append_assoc, or_assoc cut)
  | inr e ↦
      collect-skip test limit index out cut line lines e
      ∙ rw e (collect_lem test limit (suc n) (index + 1) out cut lines h)
]

-- What `Grep` returns when its pattern is accepted: the first matching lines with their numbers, as
-- many as it may return, each cut at the line limit; and whether one was cut or left out.
pub grep_exact :
    (m : Matching) (text : Bytes) (o : GrepOptions) {test : Bytes → Bool}
    → 0 < length o.pattern
    → length o.pattern ≤ 256
    → matcher m o ≡ ok test
    → let limit = match_limit o.max_matches in
      grep m text o
      ≡ ok (
        take limit (all_matches test 0 (split_lines text)),
        cut_short test limit (split_lines text),
      )
unfolding grep
grep_exact m text o {test} some_pattern short e =
    let limit = match_limit o.max_matches in
    let nonempty : leb (length o.pattern) 0 ≡ false = ground arith in
    let fits : ltb 256 (length o.pattern) ≡ false = ground arith in
    rw (nonempty, fits, e)
      (ap ok (collect_lem test limit limit 0 [] false (split_lines text) (omega arith)))
