-- ===== src/Schema/Required.antt =====
-- What an object that was accepted holds under a required key whose schema asks for a string.
use go_core_mcp.Prelude.{
  true, ◌≡◌, refl, sym, ◌∙◌, ap, inl, inr, Bool-cases, Option, none, some, some_inj, Bytes,
  bytes_eq, bytes_eq_iff,
}
use go_core_mcp.Outcome.{ok, ◌>>◌, >>-eq-ok}
use go_core_mcp.Floats.{Floats}
use go_core_mcp.Json.{
  Value, Fields, null, bool, float, int, number, str, obj, arr, end, field, get, has, as_string,
  as_object,
}
use go_core_mcp.Schema.{
  Check, kind_of, a_string, an_object, properties_of, check_leaf, check_string, validate, where_of,
  join_path,
}
use go_core_mcp.Schema.Objects.{AllFit, IsObjectOf, validate_object_iff}

has-get : (key : Bytes) (fs : Fields) → has key fs ≡ true → (v : Value) × (get key fs ≡ some v)
unfolding has get
has-get key end h = cc
has-get key (field k v fs) h = elim (Bool-cases (bytes_eq k key)) [
  | inl e ↦ rw e (v, refl)
  | inr e ↦ rw e (has-get key fs (rw (has, e) at h))
]

module _ (fl : Floats) where
  check_string_sound :
      (text : Option Bytes) (schema : Fields) (place : Bytes)
      → check_string fl text schema place ≡ ok tt
      → (s : Bytes) × (text ≡ some s)
  unfolding check_string
  check_string_sound none schema place h = cc
  check_string_sound (some s) schema place h = (s, refl)

  leaf_string :
      (schema : Fields) (v : Value) (place : Bytes) (first : Check)
      → (first >> check_leaf fl a_string schema v place) ≡ ok tt
      → (s : Bytes) × (as_string (some v) ≡ some s)
  unfolding check_leaf
  leaf_string schema v place first h =
      check_string_sound (as_string (some v)) schema place
        ((>>-eq-ok first (check_string fl (as_string (some v)) schema place)).0 h).1

  -- What the schema of a string accepts is a string.
  string_only :
      (schema : Fields) (v : Value) (path : Bytes)
      → kind_of schema ≡ a_string
      → validate fl schema v path ≡ ok tt
      → (s : Bytes) × (as_string (some v) ≡ some s)
  unfolding validate
  string_only schema null path k h =
      leaf_string schema null (where_of path) _ (rw (validate, k) at h)
  string_only schema (bool b) path k h =
      leaf_string schema (bool b) (where_of path) _ (rw (validate, k) at h)
  string_only schema (float x) path k h =
      leaf_string schema (float x) (where_of path) _ (rw (validate, k) at h)
  string_only schema (int n) path k h =
      leaf_string schema (int n) (where_of path) _ (rw (validate, k) at h)
  string_only schema (number t) path k h =
      leaf_string schema (number t) (where_of path) _ (rw (validate, k) at h)
  string_only schema (str s) path k h =
      leaf_string schema (str s) (where_of path) _ (rw (validate, k) at h)
  string_only schema (obj fs) path k h =
      leaf_string schema (obj fs) (where_of path) _ (rw (validate, k) at h)
  string_only schema (arr xs) path k h =
      leaf_string schema (arr xs) (where_of path) _ (rw (validate, k) at h)

  entry_fits :
      (properties object : Fields) (path key : Bytes) (property : Fields) {v : Value}
      → as_object (get key properties) ≡ some property
      → AllFit fl properties object path
      → get key object ≡ some v
      → (p : Bytes) × (validate fl property v p ≡ ok tt)
  unfolding get
  entry_fits properties end path key property d h g = cc
  entry_fits properties (field k u fs) path key property {v} d h g =
      elim (Bool-cases (bytes_eq k key)) [
        | inl e ↦
            let same = some_inj (rw (get, e) at g) in
            let declared = ap (λ x. as_object (get x properties)) ((bytes_eq_iff k key).0 e) ∙ d in
            (
              join_path path k,
              ap (λ x. validate fl property x (join_path path k)) (sym same) ∙ rw declared at h.0,
            )
        | inr e ↦ entry_fits properties fs path key property d h.1 (rw (get, e) at g)
      ]

  -- An object that a schema accepts, of which the schema requires a key and asks for a string
  -- there, holds a string under that key.
  pub required_string :
      (schema object : Fields) (path key : Bytes) (property : Fields)
      → kind_of schema ≡ an_object
      → as_object (get key (properties_of schema)) ≡ some property
      → kind_of property ≡ a_string
      → (IsObjectOf fl schema object path → has key object ≡ true)
      → validate fl schema (obj object) path ≡ ok tt
      → (s : Bytes) × (as_string (get key object) ≡ some s)
  required_string schema object path key property k d string_kind required h =
      let fits = (validate_object_iff fl schema object path k).0 h in
      let (v, g) = has-get key object (required fits) in
      let (p, accepted) =
        entry_fits (properties_of schema) object path key property d fits.entries g in
      let (s, is) = string_only property v p string_kind accepted in (s, ap as_string g ∙ is)
