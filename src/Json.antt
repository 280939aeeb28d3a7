-- ===== src/Json.antt =====
-- Decoded JSON values, as Go's `any` holds them: encoding/json's float64, or json.Number where the
-- decoder keeps the text of numbers, and the `int` of the schemas that the program writes itself.
-- A map is the list of its entries in the order in which a `range` loop meets them.
use go_core_mcp.Prelude.{
  ℕ, zero, suc, Bool, true, false, Option, none, some, Bytes, bytes_eq, if◌then◌else◌,
}
use go_core_mcp.Prelude.Int.{ℤ}

mutual
  pub data Value : Type 0 where
    null : Value
    bool : Bool → Value
    float : ℕ → Value
    int : ℤ → Value
    number : Bytes → Value
    str : Bytes → Value
    obj : Fields → Value
    arr : Items → Value

  pub data Fields : Type 0 where
    end : Fields
    field : Bytes → Value → Fields → Fields

  pub data Items : Type 0 where
    nil : Items
    cons : Value → Items → Items

-- m[key]
unfoldable pub get : Bytes → Fields → Option Value
get key end = none
get key (field k v fs) = if bytes_eq k key then some v else get key fs

unfoldable pub has : Bytes → Fields → Bool
has key end = false
has key (field k v fs) = if bytes_eq k key then true else has key fs

-- The type assertions `v.(string)`, `v.(bool)`, `v.([]any)` and `v.(map[string]any)` on an entry.
unfoldable pub as_string : Option Value → Option Bytes
as_string (some (str s)) = some s
as_string _ = none

unfoldable pub as_bool : Option Value → Option Bool
as_bool (some (bool b)) = some b
as_bool _ = none

unfoldable pub as_array : Option Value → Option Items
as_array (some (arr xs)) = some xs
as_array _ = none

unfoldable pub as_object : Option Value → Option Fields
as_object (some (obj fs)) = some fs
as_object _ = none

unfoldable pub item_count : Items → ℕ
item_count nil = zero
item_count (cons x xs) = suc (item_count xs)
