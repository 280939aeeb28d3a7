-- ===== src/Coreutils/Sorting.antt =====
-- coreutils/text.go's `Sort`. Go's sort.SliceStable is a parameter.
pub mod Laws
pub mod Kept
use mathlib.Core.List.{reverse, Perm}
use go_core_mcp.Prelude.{
  ℕ, ◌≡◌, ◌⊎◌, Bool, true, false, Option, some, List, [], ◌∷◌, Bytes, bytes_lt, if◌then◌else◌, All,
}
use go_core_mcp.Floats.{Floats}
use go_core_mcp.Strings.{trim_space}
use go_core_mcp.Coreutils.Lines.{split_lines, join_lines}
use go_core_mcp.Coreutils.Text.{unique_adjacent}

abbrev pub Less : Type 0
Less = Bytes → Bytes → Bool

-- A strict weak order: what a comparison must be for a sort to have a meaning.
pub record IsStrictWeak (less : Less) : Type 0 where
  pub asym : (x y : Bytes) → less x y ≡ true → less y x ≡ false
  pub cotrans : (x y z : Bytes) → less x z ≡ true → (less x y ≡ true) ⊎ (less y z ≡ true)

-- No line is less than one in front of it.
abbrev pub IsSorted : Less → List Bytes → Type 0
IsSorted less [] = Unit
IsSorted less (x ∷ xs) = All (λ y. less y x ≡ false) xs × IsSorted less xs

-- sort.SliceStable: its result holds the same lines, and is sorted if the comparison is an order.
pub record StableSort : Type 0 where
  pub run : Less → List Bytes → List Bytes
  pub run-perm : (less : Less) (lines : List Bytes) → Perm (run less lines) lines
  pub run-IsSorted :
      (less : Less) → IsStrictWeak less → (lines : List Bytes) → IsSorted less (run less lines)

-- The comparison of `sort -n`: as numbers if both lines are numbers, as texts if not.
numbers_less : Floats → Option ℕ → Option ℕ → Bytes → Bytes → Bool
numbers_less fl (some l) (some r) x y = fl.lt l r
numbers_less fl _ _ x y = bytes_lt x y

unfoldable pub numeric_less : Floats → Less
unfolding numbers_less
numeric_less fl x y = numbers_less fl (fl.parse (trim_space x)) (fl.parse (trim_space y)) x y

unfoldable pub line_less : Floats → Bool → Less
line_less fl numeric = if numeric then numeric_less fl else bytes_lt

-- The loop that swaps the ends of the slice until they meet reverses it.
unfoldable pub sort : StableSort → Floats → Bytes → Bool → Bool → Bool → Bytes
sort sorter fl text reversed numeric unique =
    let sorted = sorter.run (line_less fl numeric) (split_lines text) in
    let turned = if reversed then reverse sorted else sorted in
    join_lines (if unique then unique_adjacent turned else turned)
