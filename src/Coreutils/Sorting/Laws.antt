-- ===== src/Coreutils/Sorting/Laws.antt =====
-- The lines of a sorted text.
use mathlib.Core.HLevel.{×_prop, Unit-prop, ¬_prop}
use mathlib.Core.Path.{subst}
use mathlib.Core.Logic.{∥∥₁_elim}
use mathlib.Core.List.{reverse, Perm, Permᴰ, reverse_perm, reverse-cons}
use mathlib.Core.List.Perm
use go_core_mcp.Prelude.{
  ◌≡◌, ◌≢◌, ◌⊎◌, inl, inr, refl, Bool, true, false, List, [], ◌∷◌, ◌++◌, Bytes, bytes_lt, arith,
  if◌then◌else◌, All, All-append,
}
use go_core_mcp.Floats.{Floats}
use go_core_mcp.Strings.Laws.{Lacks}
use go_core_mcp.Coreutils.Lines.{split_lines}
use go_core_mcp.Coreutils.Lines.Laws.{AreLines, split_lines-AreLines, split_lines-join_lines}
use go_core_mcp.Coreutils.Sorting.{Less, IsStrictWeak, IsSorted, StableSort, line_less, sort}

All-prop :
    {A : Type 0} (P : A → Type 0) → ((x : A) → IsProp (P x)) → (xs : List A) → IsProp (All P xs)
All-prop P p [] = Unit-prop
All-prop P p (x ∷ xs) = ×_prop (p x) (All-prop P p xs)

module _ (P : Bytes → Type 0) where
  All-permᴰ : {xs ys : List Bytes} → Permᴰ xs ys → All P xs → All P ys
  All-permᴰ Permᴰ.nil h = tt
  All-permᴰ (Permᴰ.cons e d) h = (subst P e h.0, All-permᴰ d h.1)
  All-permᴰ (Permᴰ.swap e f) h = (subst P f h.1.0, (subst P e h.0, h.1.1))
  All-permᴰ (Permᴰ.trans d e) h = All-permᴰ e (All-permᴰ d h)

  All-perm : ((x : Bytes) → IsProp (P x)) → {xs ys : List Bytes} → Perm xs ys → All P xs → All P ys
  All-perm p {ys = ys} d h = ∥∥₁_elim d (All-prop P p ys) (λ e. All-permᴰ e h)

pub AreLines-perm : {xs ys : List Bytes} → Perm xs ys → AreLines xs → AreLines ys
AreLines-perm = All-perm (Lacks 10) (All-prop (λ c. c ≢ 10) (λ c. ¬_prop))

-- The lines in the order in which `Sort` writes them when nothing is dropped.
unfoldable pub arranged : StableSort → Floats → Bytes → Bool → Bool → List Bytes
arranged sorter fl text reversed numeric =
    let sorted = sorter.run (line_less fl numeric) (split_lines text) in
    if reversed then reverse sorted else sorted

pub arranged_perm :
    (sorter : StableSort) (fl : Floats) (text : Bytes) (reversed numeric : Bool)
    → Perm (arranged sorter fl text reversed numeric) (split_lines text)
unfolding arranged
arranged_perm sorter fl text true numeric =
    Perm.trans (reverse_perm _) (sorter.run-perm (line_less fl numeric) (split_lines text))
arranged_perm sorter fl text false numeric =
    sorter.run-perm (line_less fl numeric) (split_lines text)

lines-sort :
    (sorter : StableSort) (fl : Floats) (text : Bytes) (reversed numeric : Bool)
    → split_lines (sort sorter fl text reversed numeric false)
      ≡ arranged sorter fl text reversed numeric
unfolding sort arranged
lines-sort sorter fl text reversed numeric =
    split_lines-join_lines (arranged sorter fl text reversed numeric) (
      AreLines-perm (Perm.symm (arranged_perm sorter fl text reversed numeric))
        (split_lines-AreLines text))

-- `Sort` without the unique flag loses and invents no line, whatever the other flags are.
pub sort-perm :
    (sorter : StableSort) (fl : Floats) (text : Bytes) (reversed numeric : Bool)
    → Perm (split_lines (sort sorter fl text reversed numeric false)) (split_lines text)
sort-perm sorter fl text reversed numeric =
    rw lines-sort (arranged_perm sorter fl text reversed numeric)

bytes_lt-asym : (x y : Bytes) → bytes_lt x y ≡ true → bytes_lt y x ≡ false
unfolding bytes_lt
bytes_lt-asym [] [] h = cc
bytes_lt-asym [] (b ∷ y) h = refl
bytes_lt-asym (a ∷ x) [] h = cc
bytes_lt-asym (a ∷ x) (b ∷ y) h = ground (arith, bytes_lt-asym x y)

bytes_lt-cotrans :
    (x y z : Bytes) → bytes_lt x z ≡ true → (bytes_lt x y ≡ true) ⊎ (bytes_lt y z ≡ true)
unfolding bytes_lt
bytes_lt-cotrans [] [] z h = inr h
bytes_lt-cotrans [] (b ∷ y) z h = inl refl
bytes_lt-cotrans (a ∷ x) y [] h = cc
bytes_lt-cotrans (a ∷ x) [] (c ∷ z) h = inr refl
bytes_lt-cotrans (a ∷ x) (b ∷ y) (c ∷ z) h = ground (arith, bytes_lt-cotrans x y z)

-- The order of Go's strings is one that a sort can use.
bytes_lt-IsStrictWeak : IsStrictWeak bytes_lt
bytes_lt-IsStrictWeak = record { asym = bytes_lt-asym; cotrans = bytes_lt-cotrans }

abbrev pub flipped : Less → Less
flipped less x y = less y x

IsSorted-snoc :
    (less : Less) (x : Bytes) (xs : List Bytes)
    → IsSorted less xs
    → All (λ y. less x y ≡ false) xs
    → IsSorted less (xs ++ x ∷ [])
IsSorted-snoc less x [] s h = (tt, tt)
IsSorted-snoc less x (y ∷ ys) s h =
    (All-append (λ z. less z y ≡ false) ys (x ∷ []) s.0 (h.0, tt), IsSorted-snoc less x ys s.1 h.1)

reverse-IsSorted :
    (less : Less) (xs : List Bytes) → IsSorted less xs → IsSorted (flipped less) (reverse xs)
reverse-IsSorted less [] s = tt
reverse-IsSorted less (x ∷ xs) s = rw (reverse-cons x xs) (
    IsSorted-snoc (flipped less) x (reverse xs) (reverse-IsSorted less xs s.1)
      (All-perm (λ y. less y x ≡ false) (λ y. hlevel) (Perm.symm (reverse_perm xs)) s.0))

-- The lines of a text that is sorted as texts ascend byte by byte, and descend with `reverse`.
pub sort-IsSorted :
    (sorter : StableSort) (fl : Floats) (text : Bytes)
    → IsSorted bytes_lt (split_lines (sort sorter fl text false false false))
      × IsSorted (flipped bytes_lt) (split_lines (sort sorter fl text true false false))
sort-IsSorted sorter fl text =
    let lines = split_lines text in
    let sorted = sorter.run-IsSorted bytes_lt bytes_lt-IsStrictWeak lines in
    (
      rw lines-sort (unfold arranged line_less in sorted),
      rw lines-sort (
          unfold arranged line_less in
          reverse-IsSorted bytes_lt (sorter.run bytes_lt lines) sorted),
    )
