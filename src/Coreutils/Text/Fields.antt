-- ===== src/Coreutils/Text/Fields.antt =====
-- `Cut` with the fields from the first on.
use go_core_mcp.Prelude.{
  ℕ, zero, suc, ◌+◌, ◌≤◌, ◌<◌, ◌≡◌, ◌≢◌, refl, sym, ◌∙◌, ap, leb→le, leb-false, ltb-false, false,
  true, or-false, inl, inr, List, [], ◌∷◌, Bytes, arith, length, take, drop, All, Bool-cases,
  take_all,
}
use go_core_mcp.Prelude.Int.{ℤ, pos, negsuc, ltb_ℤ, leb_ℤ}
use go_core_mcp.Outcome.{ok, panic, ok-ne-panic, >>=-ne-panic}
use go_core_mcp.Strings.{split, join}
use go_core_mcp.Strings.Laws.{join-split}
use go_core_mcp.Coreutils.Lines.{split_lines}
use go_core_mcp.Coreutils.Lines.Laws.{terminated, join_lines-split_lines}
use go_core_mcp.Coreutils.Text.{
  part_at, field_at, select_fields, any_below_one, cut_line, cut_lines, cut,
}

-- The fields `i`, `i + 1`, …, `n` of them.
abbrev pub fields_from : ℕ → ℕ → List ℤ
fields_from i zero = []
fields_from i (suc n) = pos i ∷ fields_from (i + 1) n

take-drop_in :
    (i n : ℕ) (ps : List Bytes)
    → i < length ps
    → (p : Bytes) × (part_at ps i ≡ ok p)
      × (take (suc n) (drop i ps) ≡ p ∷ take n (drop (suc i) ps))
unfolding part_at
take-drop_in i n [] h = absurd (omega arith)
take-drop_in zero n (p ∷ ps) h = (p, refl, refl)
take-drop_in (suc i) n (p ∷ ps) h = take-drop_in i n ps (omega arith)

take-drop_out : (i n : ℕ) (ps : List Bytes) → length ps ≤ i → take n (drop i ps) ≡ []
take-drop_out zero zero ps h = refl
take-drop_out zero (suc n) [] h = refl
take-drop_out zero (suc n) (p ∷ ps) h = absurd (omega arith)
take-drop_out (suc i) zero ps h = refl
take-drop_out (suc i) (suc n) [] h = refl
take-drop_out (suc i) (suc n) (p ∷ ps) h = take-drop_out i (suc n) ps (omega arith)

select_fields_lem :
    (ps : List Bytes) (i n : ℕ) → select_fields ps (fields_from (suc i) n) ≡ ok (take n (drop i ps))
unfolding select_fields field_at
select_fields_lem ps i zero = refl
select_fields_lem ps i (suc n) =
    let next : suc i + 1 ≡ suc (suc i) = omega arith in
    let rest = select_fields_lem ps (suc i) n in
    elim (Bool-cases (leb_ℤ (pos (suc i)) (pos (length ps)))) [
      | inl e ↦
          let (p, here, front) = take-drop_in i n ps (omega (arith, leb→le _ _ e)) in
          rw (next, rest, e, here) (ap ok (sym front))
      | inr e ↦
          rw (next, rest, e)
            (ap ok (
              take-drop_out (suc i) n ps (omega (arith, leb-false _ _ e))
              ∙ sym (take-drop_out i (suc n) ps (omega (arith, leb-false _ _ e)))))
    ]

cut_line_lem :
    (d : Bytes) (k : ℕ) (line : Bytes)
    → d ≢ []
    → length (split line d) ≤ k
    → cut_line d (fields_from 1 k) line ≡ ok line
unfolding cut_line
cut_line_lem d k line h fits =
    rw (select_fields_lem (split line d) 0 k)
      (ap ok (ap (λ t. join t d) (take_all k (split line d) fits) ∙ join-split line d h))

cut_lines_lem :
    (d : Bytes) (k : ℕ) (lines : List Bytes)
    → d ≢ []
    → All (λ line. length (split line d) ≤ k) lines
    → cut_lines d (fields_from 1 k) lines ≡ ok lines
unfolding cut_lines
cut_lines_lem d k [] h fits = refl
cut_lines_lem d k (l ∷ ls) h fits =
    rw (cut_line_lem d k l h fits.0, cut_lines_lem d k ls h fits.1) refl

all_positive : (i n : ℕ) → any_below_one (fields_from (suc i) n) ≡ false
unfolding any_below_one
all_positive i zero = refl
all_positive i (suc n) =
    let next : suc i + 1 ≡ suc (suc i) = omega arith in
    rw (next, all_positive (suc i) n) (ground arith)

part_at-ne-panic : (ps : List Bytes) (i : ℕ) → i < length ps → part_at ps i ≢ panic
unfolding part_at
part_at-ne-panic [] i h = absurd (omega arith)
part_at-ne-panic (p ∷ ps) zero h = ok-ne-panic p
part_at-ne-panic (p ∷ ps) (suc i) h = part_at-ne-panic ps i (omega arith)

-- A field that is positive, and at most the number of the parts, is in range.
field_at-ne-panic :
    (ps : List Bytes) (f : ℤ)
    → ltb_ℤ f (pos 1) ≡ false
    → leb_ℤ f (pos (length ps)) ≡ true
    → field_at ps f ≢ panic
unfolding field_at
field_at-ne-panic ps (pos zero) h k = absurd (cc h)
field_at-ne-panic ps (pos (suc i)) h k = part_at-ne-panic ps i (omega (arith, leb→le _ _ k))
field_at-ne-panic ps (negsuc n) h k = absurd (omega (arith, ltb-false _ _ h))

select_fields-ne-panic :
    (ps : List Bytes) (fields : List ℤ)
    → any_below_one fields ≡ false
    → select_fields ps fields ≢ panic
unfolding select_fields any_below_one
select_fields-ne-panic ps [] h = ok-ne-panic []
select_fields-ne-panic ps (f ∷ fs) h =
    let (positive, others) = or-false (ltb_ℤ f (pos 1)) (any_below_one fs) h in
    let rest = select_fields-ne-panic ps fs others in
    elim (Bool-cases (leb_ℤ f (pos (length ps)))) [
      | inl e ↦ rw e (
          >>=-ne-panic (field_at ps f) _ (field_at-ne-panic ps f positive e)
            λ p. >>=-ne-panic (select_fields ps fs) _ rest λ more. ok-ne-panic _)
      | inr e ↦ rw e rest
    ]

cut_lines-ne-panic :
    (d : Bytes) (fields : List ℤ) (lines : List Bytes)
    → any_below_one fields ≡ false
    → cut_lines d fields lines ≢ panic
unfolding cut_lines cut_line
cut_lines-ne-panic d fields [] h = ok-ne-panic []
cut_lines-ne-panic d fields (l ∷ ls) h =
    >>=-ne-panic (cut_line d fields l) _
      (>>=-ne-panic (select_fields (split l d) fields) _
        (select_fields-ne-panic (split l d) fields h) λ s. ok-ne-panic _)
      λ one.
        >>=-ne-panic (cut_lines d fields ls) _ (cut_lines-ne-panic d fields ls h)
          λ rest. ok-ne-panic _

-- `Cut` takes no part out of range, since it refuses a field that is not positive.
pub cut-ne-panic : (text d : Bytes) (fields : List ℤ) → cut text d fields ≢ panic
unfolding cut
cut-ne-panic text [] fields = λ h. cc
cut-ne-panic text (c ∷ d) [] = λ h. cc
cut-ne-panic text (c ∷ d) (f ∷ fs) = elim (Bool-cases (any_below_one (f ∷ fs))) [
  | inl e ↦ rw e (λ h. cc)
  | inr e ↦ rw e (
      >>=-ne-panic (cut_lines (c ∷ d) (f ∷ fs) (split_lines text)) _
        (cut_lines-ne-panic (c ∷ d) (f ∷ fs) (split_lines text) e) λ out. ok-ne-panic _)
]

-- `Cut` with the fields 1 to `k` gives the text back, with a newline at its end, if no line has
-- more than `k` fields. The delimiter is not empty, and there is a field.
pub cut-fields_from :
    (text d : Bytes) (k : ℕ)
    → d ≢ []
    → 0 < k
    → All (λ line. length (split line d) ≤ k) (split_lines text)
    → cut text d (fields_from 1 k) ≡ ok (terminated text)
unfolding cut
cut-fields_from text [] k h p fits = absurd (h refl)
cut-fields_from text (c ∷ d) zero h p fits = absurd (omega arith)
cut-fields_from text (c ∷ d) (suc k) h p fits =
    rw (all_positive 0 (suc k), cut_lines_lem (c ∷ d) (suc k) (split_lines text) h fits)
      (ap ok (join_lines-split_lines text))
