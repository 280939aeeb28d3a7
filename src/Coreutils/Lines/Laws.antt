-- ===== src/Coreutils/Lines/Laws.antt =====
-- Splitting and joining lines, and the clamps.
use go_core_mcp.Prelude.{
  ℕ, ◌≡◌, ◌≢◌, refl, sym, ◌∙◌, ap, Bool, true, false, ◌||◌, inl, inr, List, [], ◌∷◌, ◌++◌, map,
  append_assoc, append-nil, Bytes, bytes_eq, arith, ltb, leb, if◌then◌else◌, length, take, All,
  Bool-cases, take_all,
}
use go_core_mcp.Strings.{split, join, trim_suffix, has_suffix}
use go_core_mcp.Strings.Laws.{
  Lacks, split-Lacks, join-split, split-join, trim_suffix-append, trim_suffix-cases, split-ne-nil,
}
use go_core_mcp.Coreutils.Lines.{
  max_line_length, newline, split_lines, join_lines, clamp_line, clamp_each, clamp_lines,
}

-- Lines that hold no newline.
abbrev pub AreLines : List Bytes → Type 0
AreLines = All (Lacks 10)

pub split_lines-AreLines : (text : Bytes) → AreLines (split_lines text)
unfolding split_lines bytes_eq
split_lines-AreLines [] = tt
split_lines-AreLines (c ∷ s) = split-Lacks 10 (trim_suffix (c ∷ s) newline)

split_lines-newline : (s : Bytes) → split_lines (s ++ newline) ≡ split s newline
unfolding split_lines bytes_eq
split_lines-newline [] = ap (λ t. split t newline) (trim_suffix-append [] newline)
split_lines-newline (c ∷ s) = ap (λ t. split t newline) (trim_suffix-append (c ∷ s) newline)

-- Lines that are joined to a text are the lines of the text.
pub split_lines-join_lines :
    (lines : List Bytes) → AreLines lines → split_lines (join_lines lines) ≡ lines
split_lines-join_lines [] h = unfold split_lines join_lines bytes_eq in refl
split_lines-join_lines (l ∷ ls) h =
    unfold join_lines in
    (split_lines-newline (join (l ∷ ls) newline) ∙ split-join 10 (l ∷ ls) (λ e. cc) h)

join_lines-cons :
    (lines : List Bytes) → lines ≢ [] → join_lines lines ≡ join lines newline ++ newline
unfolding join_lines
join_lines-cons [] h = absurd (h refl)
join_lines-cons (l ∷ ls) h = refl

join_lines-split : (s : Bytes) → join_lines (split s newline) ≡ s ++ newline
join_lines-split s =
    join_lines-cons (split s newline) (split-ne-nil 10 s)
    ∙ ap (λ t. t ++ newline) (join-split s newline (λ e. cc))

-- A text with the newline at its end that a last line without one lacks.
abbrev pub terminated : Bytes → Bytes
terminated text =
    if bytes_eq text [] then [] else if has_suffix text newline then text else text ++ newline

-- Joining the lines of a text gives the text back, with a newline at the end of its last line.
pub join_lines-split_lines : (text : Bytes) → join_lines (split_lines text) ≡ terminated text
join_lines-split_lines [] = unfold split_lines join_lines bytes_eq in refl
join_lines-split_lines (c ∷ s) =
    unfold split_lines bytes_eq in
    (join_lines-split (trim_suffix (c ∷ s) newline) ∙ elim (trim_suffix-cases (c ∷ s) newline) [
      | inl (ends, e) ↦ rw ends (sym e)
      | inr (ends, e) ↦ rw (ends, e)
    ])

-- Some line is longer than a line may be.
abbrev pub any_long : List Bytes → Bool
any_long [] = false
any_long (l ∷ ls) = ltb max_line_length (length l) || any_long ls

unfoldable pub clipped : Bytes → Bytes
clipped = take max_line_length

clamp_at :
    (n : ℕ) (l : Bytes)
    → ◌≡◌ {A = Bytes × Bool}
        (if leb (length l) n then (l, false) else (take n l, true))
        (take n l, ltb n (length l))
clamp_at n l = elim (Bool-cases (leb (length l) n)) [
  | inl e ↦ ground (arith, take_all n l)
  | inr e ↦ ground arith
]

pub clamp_line_lem : (l : Bytes) → clamp_line l ≡ (clipped l, ltb max_line_length (length l))
unfolding clamp_line clipped
clamp_line_lem l = clamp_at max_line_length l

pub or_assoc : (a b c : Bool) → ((a || b) || c) ≡ (a || (b || c))
or_assoc a b c = ground arith

clamp_each_lem :
    (out : List Bytes) (cut : Bool) (lines : List Bytes)
    → clamp_each out cut lines ≡ (out ++ map clipped lines, cut || any_long lines)
unfolding clamp_each
clamp_each_lem out cut [] = ground (arith, append-nil out)
clamp_each_lem out cut (l ∷ ls) =
    let rest = clamp_each_lem (out ++ clipped l ∷ []) (cut || ltb max_line_length (length l)) ls in
    rw clamp_line_lem (rw rest (rw (append_assoc, or_assoc cut)))

-- `ClampLines` cuts each line at the limit, and reports exactly that a line was longer.
pub clamp_lines_lem : (lines : List Bytes) → clamp_lines lines ≡ (map clipped lines, any_long lines)
unfolding clamp_lines
clamp_lines_lem lines = clamp_each_lem [] false lines
