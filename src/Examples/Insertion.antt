-- ===== src/Examples/Insertion.antt =====
-- Insertion sort: a sort that keeps what is asked of sort.SliceStable.
use mathlib.Core.List.{Perm}
use mathlib.Core.List.Perm
use go_core_mcp.Prelude.{
  ◌≡◌, false, inl, inr, List, [], ◌∷◌, Bytes, if◌then◌else◌, All, Bool-cases, arith,
}
use go_core_mcp.Coreutils.Sorting.{Less, IsStrictWeak, IsSorted, StableSort}

insert : Less → Bytes → List Bytes → List Bytes
insert less x [] = x ∷ []
insert less x (y ∷ ys) = let rest = insert less x ys in if less y x then y ∷ rest else x ∷ y ∷ ys

pub insertion_sort : Less → List Bytes → List Bytes
unfolding insert
insertion_sort less [] = []
insertion_sort less (x ∷ xs) = insert less x (insertion_sort less xs)

module _ (less : Less) where
  insert-perm : (x : Bytes) (ys : List Bytes) → Perm (insert less x ys) (x ∷ ys)
  unfolding insert
  insert-perm x [] = Perm.refl (x ∷ [])
  insert-perm x (y ∷ ys) = elim (Bool-cases (less y x)) [
    | inl e ↦ rw e (Perm.trans (Perm.cons y (insert-perm x ys)) (Perm.swap x y ys))
    | inr e ↦ rw e (Perm.refl (x ∷ y ∷ ys))
  ]

  pub insertion_sort-perm : (xs : List Bytes) → Perm (insertion_sort less xs) xs
  unfolding insertion_sort
  insertion_sort-perm [] = Perm.nil
  insertion_sort-perm (x ∷ xs) =
      Perm.trans (insert-perm x (insertion_sort less xs)) (Perm.cons x (insertion_sort-perm xs))

  insert-All :
      (P : Bytes → Type 0) (x : Bytes) (ys : List Bytes) → P x → All P ys → All P (insert less x ys)
  unfolding insert
  insert-All P x [] h hs = (h, tt)
  insert-All P x (y ∷ ys) h hs = elim (Bool-cases (less y x)) [
    | inl e ↦ rw e (hs.0, insert-All P x ys h hs.1)
    | inr e ↦ rw e (h, hs)
  ]

  module _ (order : IsStrictWeak less) where
    lower : (x y z : Bytes) → less y x ≡ false → less z y ≡ false → less z x ≡ false
    lower x y z a b = elim (Bool-cases (less z x)) [
      | inl e ↦ elim (order.cotrans z y x e) [
        | inl f ↦ absurd (ground arith)
        | inr f ↦ absurd (ground arith)
      ]
      | inr e ↦ e
    ]

    front_lowest :
        (x y : Bytes) (ys : List Bytes)
        → less y x ≡ false
        → All (λ z. less z y ≡ false) ys
        → All (λ z. less z x ≡ false) ys
    front_lowest x y [] e h = tt
    front_lowest x y (z ∷ ys) e h = (lower x y z e h.0, front_lowest x y ys e h.1)

    insert-IsSorted :
        (x : Bytes) (ys : List Bytes) → IsSorted less ys → IsSorted less (insert less x ys)
    unfolding insert
    insert-IsSorted x [] h = (tt, tt)
    insert-IsSorted x (y ∷ ys) h = elim (Bool-cases (less y x)) [
      | inl e ↦
          rw e (
            insert-All (λ z. less z y ≡ false) x ys (order.asym y x e) h.0,
            insert-IsSorted x ys h.1,
          )
      | inr e ↦ rw e ((e, front_lowest x y ys e h.0), h)
    ]

    pub insertion_sort-IsSorted : (xs : List Bytes) → IsSorted less (insertion_sort less xs)
    unfolding insertion_sort
    insertion_sort-IsSorted [] = tt
    insertion_sort-IsSorted (x ∷ xs) =
        insert-IsSorted x (insertion_sort less xs) (insertion_sort-IsSorted xs)

abbrev pub insertion : StableSort
insertion = record {
  run = insertion_sort;
  run-perm = insertion_sort-perm;
  run-IsSorted = insertion_sort-IsSorted;
}
