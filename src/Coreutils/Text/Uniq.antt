-- ===== src/Coreutils/Text/Uniq.antt =====
-- The two ways in which the package removes adjacent duplicates agree, and what they return.
use mathlib.Core.Path.{subst}
use go_core_mcp.Prelude.{
  ℕ, zero, suc, ◌≤◌, ◌≡◌, ◌≢◌, refl, sym, ◌∙◌, ap, false, inl, inr, List, [], ◌∷◌, some, none,
  Bytes, bytes_eq, bytes_eq_iff, arith, length, drop, Bool-cases, length-drop,
}
use go_core_mcp.Coreutils.Lines.{split_lines, join_lines}
use go_core_mcp.Coreutils.Text.{unique_from, unique_adjacent, leading_equal, uniq_lines, uniq}

-- Passing over the lines that equal the last one changes nothing for `uniqueAdjacent`.
unique_from-drop :
    (l : Bytes) (ls : List Bytes)
    → unique_from (some l) ls ≡ unique_from none (drop (leading_equal l ls) ls)
unfolding unique_from leading_equal
unique_from-drop l [] = refl
unique_from-drop l (x ∷ ls) = elim (Bool-cases (bytes_eq x l)) [
  | inl e ↦
      rw e (ap (λ t. unique_from (some t) ls) ((bytes_eq_iff x l).0 e) ∙ unique_from-drop l ls)
  | inr e ↦ rw e
]

leading_equal-le : (l : Bytes) (ls : List Bytes) → leading_equal l ls ≤ length ls
unfolding leading_equal
leading_equal-le l [] = omega arith
leading_equal-le l (x ∷ ls) = ground (arith, leading_equal-le l ls)

uniq_lines_unique :
    (fuel : ℕ) (ls : List Bytes) → length ls ≤ fuel → uniq_lines fuel false ls ≡ unique_from none ls
unfolding uniq_lines unique_from
uniq_lines_unique zero [] h = refl
uniq_lines_unique zero (l ∷ ls) h = absurd (omega arith)
uniq_lines_unique (suc f) [] h = refl
uniq_lines_unique (suc f) (l ∷ ls) h =
    let more = leading_equal l ls in
    let shorter : length (drop more ls) ≤ f = omega (arith, length-drop more ls) in
    ap (λ t. l ∷ t) (uniq_lines_unique f (drop more ls) shorter ∙ sym (unique_from-drop l ls))

-- `Uniq` without counts is `uniqueAdjacent` on the lines: the run-length loop, which is given as
-- many rounds as there are lines, misses none and keeps one line of each run.
pub uniq-unique_adjacent :
    (text : Bytes) → uniq text false ≡ join_lines (unique_adjacent (split_lines text))
unfolding uniq unique_adjacent
uniq-unique_adjacent text =
    ap join_lines (uniq_lines_unique (length (split_lines text)) (split_lines text) (omega arith))

-- No two neighbours are equal.
abbrev pub NoRepeat : Bytes → List Bytes → Type 0
NoRepeat last [] = Unit
NoRepeat last (l ∷ ls) = (l ≢ last) × NoRepeat l ls

abbrev pub IsDistinct : List Bytes → Type 0
IsDistinct [] = Unit
IsDistinct (l ∷ ls) = NoRepeat l ls

unique_from-NoRepeat : (last : Bytes) (ls : List Bytes) → NoRepeat last (unique_from (some last) ls)
unfolding unique_from
unique_from-NoRepeat last [] = tt
unique_from-NoRepeat last (l ∷ ls) = elim (Bool-cases (bytes_eq l last)) [
  | inl e ↦
      rw (e, NoRepeat)
        (subst (λ t. NoRepeat t (unique_from (some l) ls)) ((bytes_eq_iff l last).0 e)
          (unique_from-NoRepeat l ls))
  | inr e ↦ rw (e, NoRepeat) ((λ q. ground (arith, bytes_eq_iff l last)), unique_from-NoRepeat l ls)
]

-- No line that `uniqueAdjacent` keeps equals the one that it keeps in front of it.
pub unique_adjacent-IsDistinct : (ls : List Bytes) → IsDistinct (unique_adjacent ls)
unfolding unique_adjacent unique_from
unique_adjacent-IsDistinct [] = tt
unique_adjacent-IsDistinct (l ∷ ls) = unique_from-NoRepeat l ls
