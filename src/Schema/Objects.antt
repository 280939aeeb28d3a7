-- ===== src/Schema/Objects.antt =====
-- What `Validate` accepts where the schema asks for an object.
use go_core_mcp.Prelude.{
  ℕ, ◌≢◌, ◌⊎◌, ◌∙◌, ap, inl, inr, Bool-cases, ◌≡◌, ◌↔◌, refl, Bool, true, false, Option, none, some,
  Bytes, lit, arith,
}
use go_core_mcp.Outcome.{Outcome, Outcome-cases, ok, panic, ◌>>◌, >>-eq-ok}
use go_core_mcp.Floats.{Floats}
use go_core_mcp.Json.{
  Value, Items, Fields, null, bool, float, int, number, str, arr, obj, nil, cons, end, field, get,
  has, as_string, as_bool, as_array, as_object,
}
use go_core_mcp.Schema.{
  Check, SchemaError, same_value, equal_numbers, equal, number_of, found_in, check_in, an_object,
  kind_of, properties_of, or_empty, check_enum, check_required, check_names, check_declared,
  check_closed, check_object, validate, validate_fields, join_path, where_of,
}

-- Every required name is a key of the object.
abbrev pub HasAll : Items → Fields → Type 0
HasAll nil object = Unit
HasAll (cons name names) object =
    (has (or_empty (as_string (some name))) object ≡ true) × HasAll names object

abbrev pub HasRequired : Option Items → Fields → Type 0
HasRequired none object = Unit
HasRequired (some names) object = HasAll names object

-- Every key of the object is one of the properties.
abbrev pub AllDeclared : Fields → Fields → Type 0
AllDeclared properties end = Unit
AllDeclared properties (field k v fs) = (has k properties ≡ true) × AllDeclared properties fs

abbrev pub IsClosed : Option Bool → Fields → Fields → Type 0
IsClosed (some false) properties object = AllDeclared properties object
IsClosed _ properties object = Unit

-- A value whose key has a schema among the properties is accepted by it.
abbrev pub FitsProperty : Floats → Option Fields → Value → Bytes → Type 0
FitsProperty fl none v path = Unit
FitsProperty fl (some property) v path = validate fl property v path ≡ ok tt

abbrev pub AllFit : Floats → Fields → Fields → Bytes → Type 0
AllFit fl properties end path = Unit
AllFit fl properties (field k v fs) path =
    FitsProperty fl (as_object (get k properties)) v (join_path path k)
    × AllFit fl properties fs path

check_required_iff :
    (names : Items) (object : Fields) (place : Bytes)
    → (check_required names object place ≡ ok tt) ↔ HasAll names object
unfolding check_required
check_required_iff nil object place = ((λ h. tt), λ h. refl)
check_required_iff (cons name names) object place =
    ground (arith, check_required_iff names object place)

check_names_iff :
    (names : Option Items) (object : Fields) (place : Bytes)
    → (check_names names object place ≡ ok tt) ↔ HasRequired names object
unfolding check_names
check_names_iff none object place = ((λ h. tt), λ h. refl)
check_names_iff (some names) object place = check_required_iff names object place

check_declared_iff :
    (properties object : Fields) (place : Bytes)
    → (check_declared properties object place ≡ ok tt) ↔ AllDeclared properties object
unfolding check_declared
check_declared_iff properties end place = ((λ h. tt), λ h. refl)
check_declared_iff properties (field k v fs) place =
    ground (arith, check_declared_iff properties fs place)

check_closed_iff :
    (closed : Option Bool) (properties object : Fields) (place : Bytes)
    → (check_closed closed properties object place ≡ ok tt) ↔ IsClosed closed properties object
unfolding check_closed
check_closed_iff (some false) properties object place = check_declared_iff properties object place
check_closed_iff (some true) properties object place = ((λ h. tt), λ h. refl)
check_closed_iff none properties object place = ((λ h. tt), λ h. refl)

-- What the loop over the entries does with one of them.
entry_iff :
    (fl : Floats) (property : Option Fields) (v : Value) (path : Bytes) (rest : Check)
    → ((elim property [ none ↦ rest | some p ↦ validate fl p v path >> rest ]) ≡ ok tt)
      ↔ (FitsProperty fl property v path × (rest ≡ ok tt))
entry_iff fl none v path rest = ((λ h. (tt, h)), λ h. h.1)
entry_iff fl (some p) v path rest = >>-eq-ok (validate fl p v path) rest

fields_step :
    (fl : Floats) (properties : Fields) (k : Bytes) (v : Value) (fs : Fields) (path : Bytes)
    → (validate_fields fl properties (field k v fs) path ≡ ok tt) ↔ (
        FitsProperty fl (as_object (get k properties)) v (join_path path k)
        × (validate_fields fl properties fs path ≡ ok tt))
unfolding validate
fields_step fl properties k v fs path =
    entry_iff fl (as_object (get k properties)) v (join_path path k)
      (validate_fields fl properties fs path)

validate_fields_iff :
    (fl : Floats) (properties object : Fields) (path : Bytes)
    → (validate_fields fl properties object path ≡ ok tt) ↔ AllFit fl properties object path
validate_fields_iff fl properties end path = ((λ h. tt), λ h. unfold validate in refl)
validate_fields_iff fl properties (field k v fs) path =
    let step = fields_step fl properties k v fs path in
    let rest = validate_fields_iff fl properties fs path in
    ((λ h. ((step.0 h).0, rest.0 (step.0 h).1)), λ h. step.1 (h.0, rest.1 h.1))

check_object_iff :
    (schema object : Fields) (place : Bytes)
    → (check_object schema object place ≡ ok tt) ↔ (
        HasRequired (as_array (get (lit "required") schema)) object
        × IsClosed
            (as_bool (get (lit "additionalProperties") schema))
            (properties_of schema)
            object)
unfolding check_object
check_object_iff schema object place =
    let names = as_array (get (lit "required") schema) in
    let closed = as_bool (get (lit "additionalProperties") schema) in
    let step =
      >>-eq-ok (check_names names object place)
        (check_closed closed (properties_of schema) object place) in
    let required = check_names_iff names object place in
    let declared = check_closed_iff closed (properties_of schema) object place in
    (
      (λ h. (required.0 (step.0 h).0, declared.0 (step.0 h).1)),
      λ h. step.1 (required.1 h.0, declared.1 h.1),
    )

module _ (fl : Floats) (object : Fields) where
  equal_numbers-none :
      (n : Option ℕ) (otherwise : Outcome SchemaError Bool)
      → equal_numbers fl n none otherwise ≡ otherwise
  unfolding equal_numbers
  equal_numbers-none none otherwise = refl
  equal_numbers-none (some x) otherwise = refl

  -- An object is equal to nothing: the comparison with another one panics.
  same_value-obj :
      (c : Value)
      → (same_value fl c (obj object) ≡ ok false) ⊎ (same_value fl c (obj object) ≡ panic)
  unfolding same_value
  same_value-obj null = inl refl
  same_value-obj (bool true) = inl refl
  same_value-obj (bool false) = inl refl
  same_value-obj (float x) = inl refl
  same_value-obj (int n) = inl refl
  same_value-obj (number t) = inl refl
  same_value-obj (str t) = inl refl
  same_value-obj (arr xs) = inl refl
  same_value-obj (obj fs) = inr refl

  found_in-obj : (enum : Items) → found_in fl enum (obj object) ≢ ok true
  unfolding found_in equal number_of
  found_in-obj nil h = cc
  found_in-obj (cons c cs) h =
      let plain = equal_numbers-none (number_of fl c) (same_value fl c (obj object)) in
      elim (same_value-obj c) [
        | inl e ↦ found_in-obj cs (rw (found_in, equal, number_of, plain, e) at h)
        | inr e ↦ cc (rw (found_in, equal, number_of, plain, e) at h)
      ]

  check_in-obj :
      (enum : Option Items) (place : Bytes)
      → (check_in fl enum (obj object) place ≡ ok tt) ↔ (enum ≡ none)
  unfolding check_in
  check_in-obj none place = ((λ h. refl), λ h. refl)
  check_in-obj (some cs) place = (
    (λ h. elim (Outcome-cases (found_in fl cs (obj object))) [
      | inl (b, e) ↦ elim (Bool-cases b) [
        | inl yes_in ↦ absurd (found_in-obj cs (e ∙ ap ok yes_in))
        | inr not_in ↦ cc (rw (check_in, e, not_in) at h)
      ]
      | inr (inl (x, e)) ↦ cc (rw (check_in, e) at h)
      | inr (inr e) ↦ cc (rw (check_in, e) at h)
    ]),
    λ h. cc h,
  )

-- What an object must satisfy for a schema of type "object" to accept it. No object is among
-- enumerated values, since the code compares it with Go's `==`.
pub record IsObjectOf (fl : Floats) (schema object : Fields) (path : Bytes) : Type 0 where
  pub not_enumerated : as_array (get (lit "enum") schema) ≡ none
  pub required : HasRequired (as_array (get (lit "required") schema)) object
  pub closed :
      IsClosed (as_bool (get (lit "additionalProperties") schema)) (properties_of schema) object
  pub entries : AllFit fl (properties_of schema) object path

validate_object_step :
    (fl : Floats) (schema object : Fields) (path : Bytes)
    → kind_of schema ≡ an_object
    → validate fl schema (obj object) path ≡ (
        check_enum fl schema (obj object) (where_of path)
        >> (check_object schema object (where_of path)
            >> validate_fields fl (properties_of schema) object path))
unfolding validate
validate_object_step fl schema object path k = rw k

-- A schema of type "object" accepts an object exactly if the schema enumerates no values, and the
-- object holds every required key, holds no undeclared key where additional ones are forbidden,
-- and has entries that the schemas of their keys accept.
pub validate_object_iff :
    (fl : Floats) (schema object : Fields) (path : Bytes)
    → kind_of schema ≡ an_object
    → (validate fl schema (obj object) path ≡ ok tt) ↔ IsObjectOf fl schema object path
unfolding check_enum
validate_object_iff fl schema object path k =
    let enum = check_enum fl schema (obj object) (where_of path) in
    let shape = check_object schema object (where_of path) in
    let entries = validate_fields fl (properties_of schema) object path in
    let enum_iff = check_in-obj fl object (as_array (get (lit "enum") schema)) (where_of path) in
    let outer = >>-eq-ok enum (shape >> entries) in
    let inner = >>-eq-ok shape entries in
    let shape_iff = check_object_iff schema object (where_of path) in
    let entries_iff = validate_fields_iff fl (properties_of schema) object path in
    rw (validate_object_step fl schema object path k) (
      (λ h.
          let both = inner.0 (outer.0 h).1 in
          record {
            not_enumerated = (enum_iff.0 (outer.0 h).0);
            required = (shape_iff.0 both.0).0;
            closed = (shape_iff.0 both.0).1;
            entries = entries_iff.0 both.1;
          }),
      λ h. outer.1 (
        enum_iff.1 h.not_enumerated,
        inner.1 (shape_iff.1 (h.required, h.closed), entries_iff.1 h.entries),
      ),
    )
