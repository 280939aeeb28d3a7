-- ===== src/Schema.antt =====
-- internal/jsonschema/jsonschema.go: the check of a value against a schema.
pub mod Objects
pub mod Required
use go_core_mcp.Prelude.{
  ℕ, ◌+◌, Bool, true, false, not, Option, none, some, [], ◌∷◌, ◌++◌, Bytes, lit, bytes_eq,
  if◌then◌else◌, length,
}
use go_core_mcp.Prelude.Int.{ℤ, pos}
use go_core_mcp.Outcome.{Outcome, ok, err, panic, reject_if, ◌>>◌, ◌>>=◌}
use go_core_mcp.Floats.{Floats}
use go_core_mcp.Strings.Numbers.{itoa}
use go_core_mcp.Json.{
  Value, Items, Fields, null, bool, float, int, number, str, arr, obj, nil, cons, end, field, get,
  has, as_string, as_bool, as_array, as_object, item_count,
}

-- One constructor for each message, with the place that it names.
pub data SchemaError : Type 0 where
  not_allowed not_object not_array too_many_items too_few_items not_string too_long too_short :
      Bytes → SchemaError
  not_integer not_number below_minimum above_maximum not_boolean unsupported_type :
      Bytes → SchemaError
  missing_property unknown_property : Bytes → Bytes → SchemaError
  not_json_object : SchemaError

abbrev pub Check : Type 0
Check = Outcome SchemaError (Unit {0})

abbrev pub where_of : Bytes → Bytes
where_of [] = lit "arguments"
where_of (c ∷ path) = c ∷ path

abbrev pub join_path : Bytes → Bytes → Bytes
join_path [] key = key
join_path (c ∷ path) key = (c ∷ path) ++ (lit "." ++ key)

-- fmt.Sprintf("%s[%d]", where, index)
item_path : Bytes → ℕ → Bytes
item_path place index = place ++ (lit "[" ++ (itoa index ++ lit "]"))

module _ (fl : Floats) where
  unfoldable pub number_of : Value → Option ℕ
  number_of (float x) = some x
  number_of (int i) = some (fl.of_int i)
  number_of (number text) = fl.parse text
  number_of _ = none

  is_integral : ℕ → Bool
  is_integral x = fl.eq x (fl.of_int (fl.to_int x))

  -- `Number`
  whole : Option ℕ → Option ℤ
  unfolding is_integral
  whole none = none
  whole (some x) = if is_integral x then some (fl.to_int x) else none

  unfoldable pub to_number : Value → Option ℤ
  unfolding whole
  to_number v = whole (number_of v)

  -- Go's `==` between two values of type `any`. Two arrays or two objects cannot be compared: the
  -- program panics.
  same_value : Value → Value → Outcome SchemaError Bool
  unfolding bytes_eq
  same_value null null = ok true
  same_value (bool true) (bool b) = ok b
  same_value (bool false) (bool b) = ok (not b)
  same_value (number s) (number t) = ok (bytes_eq s t)
  same_value (str s) (str t) = ok (bytes_eq s t)
  same_value (arr xs) (arr ys) = panic
  same_value (obj fs) (obj gs) = panic
  same_value _ _ = ok false

  equal_numbers : Option ℕ → Option ℕ → Outcome SchemaError Bool → Outcome SchemaError Bool
  equal_numbers (some x) (some y) otherwise = ok (fl.eq x y)
  equal_numbers _ _ otherwise = otherwise

  unfoldable pub equal : Value → Value → Outcome SchemaError Bool
  unfolding same_value equal_numbers
  equal l r = equal_numbers (number_of l) (number_of r) (same_value l r)

  found_in : Items → Value → Outcome SchemaError Bool
  found_in nil v = ok false
  found_in (cons c cs) v = do
    same ← equal c v
    let rest = found_in cs v
    if same then ok true else rest

  check_in : Option Items → Value → Bytes → Check
  unfolding found_in
  check_in none v place = ok tt
  check_in (some enum) v place = do
    found ← found_in enum v
    if found then ok tt else err (not_allowed place)

  pub check_enum : Fields → Value → Bytes → Check
  unfolding check_in
  check_enum schema v place = check_in (as_array (get (lit "enum") schema)) v place

  -- The numeric keyword `key` of a schema.
  limit_of : Fields → Bytes → Option ℕ
  limit_of schema key = elim (get key schema) [ none ↦ none | some v ↦ number_of v ]

  over : Option ℕ → ℕ → Bool
  over none x = false
  over (some limit) x = fl.lt limit x

  under : Option ℕ → ℕ → Bool
  under none x = false
  under (some limit) x = fl.lt x limit

  validate_range : Fields → ℕ → Bytes → Check
  unfolding limit_of over under
  validate_range schema x place = do
    reject_if (under (limit_of schema (lit "minimum")) x) (below_minimum place)
    reject_if (over (limit_of schema (lit "maximum")) x) (above_maximum place)

  check_string : Option Bytes → Fields → Bytes → Check
  unfolding limit_of over under
  check_string none schema place = err (not_string place)
  check_string (some text) schema place = do
    let size = fl.of_int (pos (length text))
    reject_if (over (limit_of schema (lit "maxLength")) size) (too_long place)
    reject_if (under (limit_of schema (lit "minLength")) size) (too_short place)

  check_integer : Option ℕ → Fields → Bytes → Check
  unfolding is_integral validate_range
  check_integer none schema place = err (not_integer place)
  check_integer (some x) schema place = do
    reject_if (not (is_integral x)) (not_integer place)
    validate_range schema x place

  check_number : Option ℕ → Fields → Bytes → Check
  unfolding validate_range
  check_number none schema place = err (not_number place)
  check_number (some x) schema place = validate_range schema x place

  check_size : Fields → Items → Bytes → Check
  unfolding limit_of over under
  check_size schema xs place = do
    let size = fl.of_int (pos (item_count xs))
    reject_if (over (limit_of schema (lit "maxItems")) size) (too_many_items place)
    reject_if (under (limit_of schema (lit "minItems")) size) (too_few_items place)

check_boolean : Option Bool → Bytes → Check
check_boolean none place = err (not_boolean place)
check_boolean (some b) place = ok tt

pub or_empty : Option Bytes → Bytes
or_empty none = []
or_empty (some s) = s

no_fields : Option Fields → Fields
no_fields none = end
no_fields (some fs) = fs

unfoldable pub properties_of : Fields → Fields
unfolding no_fields
properties_of schema = no_fields (as_object (get (lit "properties") schema))

-- A required name that is no string counts as the empty one.
check_required : Items → Fields → Bytes → Check
unfolding or_empty
check_required nil object place = ok tt
check_required (cons name names) object place = do
  let key = or_empty (as_string (some name))
  reject_if (not (has key object)) (missing_property place key)
  check_required names object place

check_names : Option Items → Fields → Bytes → Check
unfolding check_required
check_names none object place = ok tt
check_names (some names) object place = check_required names object place

check_declared : Fields → Fields → Bytes → Check
check_declared properties end place = ok tt
check_declared properties (field k v fs) place = do
  reject_if (not (has k properties)) (unknown_property place k)
  check_declared properties fs place

check_closed : Option Bool → Fields → Fields → Bytes → Check
unfolding check_declared
check_closed (some false) properties object place = check_declared properties object place
check_closed _ properties object place = ok tt

check_object : Fields → Fields → Bytes → Check
unfolding check_names check_closed
check_object schema object place = do
  check_names (as_array (get (lit "required") schema)) object place
  check_closed (as_bool (get (lit "additionalProperties") schema)) (properties_of schema) object
      place

-- The cases of the `switch` on the schema's type.
pub data Kind : Type 0 where
  an_object an_array a_string an_integer a_number a_boolean anything unknown_kind : Kind

kind_named : Bytes → Kind
unfolding bytes_eq
kind_named t =
    if bytes_eq t (lit "object")
    then an_object
    else if bytes_eq t (lit "array")
    then an_array
    else if bytes_eq t (lit "string")
    then a_string
    else if bytes_eq t (lit "integer")
    then an_integer
    else if bytes_eq t (lit "number")
    then a_number
    else if bytes_eq t (lit "boolean")
    then a_boolean
    else if bytes_eq t []
    then anything
    else unknown_kind

unfoldable pub kind_of : Fields → Kind
unfolding kind_named or_empty
kind_of schema = kind_named (or_empty (as_string (get (lit "type") schema)))

module _ (fl : Floats) where
  -- What the `switch` does with a value that is no object or array of the type that it asks for.
  check_leaf : Kind → Fields → Value → Bytes → Check
  unfolding check_string check_integer check_number check_boolean
  check_leaf an_object schema v place = err (not_object place)
  check_leaf an_array schema v place = err (not_array place)
  check_leaf a_string schema v place = check_string fl (as_string (some v)) schema place
  check_leaf an_integer schema v place = check_integer fl (number_of fl v) schema place
  check_leaf a_number schema v place = check_number fl (number_of fl v) schema place
  check_leaf a_boolean schema v place = check_boolean (as_bool (some v)) place
  check_leaf anything schema v place = ok tt
  check_leaf unknown_kind schema v place = err (unsupported_type place)

  unfoldable mutual
    unfolding check_enum check_leaf check_object check_size item_path

    pub validate : Fields → Value → Bytes → Check
    validate schema (obj fs) path =
        let entries = validate_fields (properties_of schema) fs path in
        check_enum fl schema (obj fs) (where_of path) >> elim (kind_of schema) [
          | an_object ↦ check_object schema fs (where_of path) >> entries
          | k ↦ check_leaf k schema (obj fs) (where_of path)
        ]
    validate schema (arr xs) path =
        let members = validate_items (as_object (get (lit "items") schema)) xs (where_of path) 0 in
        check_enum fl schema (arr xs) (where_of path) >> elim (kind_of schema) [
          | an_array ↦ check_size fl schema xs (where_of path) >> members
          | k ↦ check_leaf k schema (arr xs) (where_of path)
        ]
    validate schema v path =
        check_enum fl schema v (where_of path)
        >> check_leaf (kind_of schema) schema v (where_of path)

    pub validate_fields : Fields → Fields → Bytes → Check
    validate_fields properties end path = ok tt
    validate_fields properties (field k v fs) path =
        let rest = validate_fields properties fs path in
        elim (as_object (get k properties)) [
          | none ↦ rest
          | some property ↦ validate property v (join_path path k) >> rest
        ]

    pub validate_items : Option Fields → Items → Bytes → ℕ → Check
    validate_items none xs place index = ok tt
    validate_items (some items) nil place index = ok tt
    validate_items (some items) (cons x xs) place index =
        let rest = validate_items (some items) xs place (index + 1) in
        validate items x (item_path place index) >> rest
