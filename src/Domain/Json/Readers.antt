-- ===== src/Domain/Json/Readers.antt =====
-- src/domain/json.rs: the reading of an object's fields.
use verdant.Base.{
  ◌≡◌, ◌∙◌, refl, Bool, true, false, Option, none, some, List, [], ◌∷◌, String, if◌then◌else◌, any,
  Result, ok, err, ◌>>=◌, ◌>>◌, ensure, arith, Bool-cases, Option-cases, ap, inl, inr,
}
use verdant.Base.Bytes.{Bytes}
use verdant.Domain.Json.{
  JsonVal, Fields, null, boolean, number, str, array, object, no_fields, field, same, compare_bytes,
  Stop, refuses, parse, insert_field,
}

-- The errors of the readers: a field that is not there, one that is not allowed, and one whose value is of
-- another kind, which is named.
pub data FieldError : Type 0 where
  missing_field unexpected_field : Bytes → FieldError
  not_a_string not_a_boolean : Bytes → String → FieldError

unfoldable kind_of : JsonVal → String
kind_of null = "null"
kind_of (boolean b) = "boolean"
kind_of (number raw) = "number"
kind_of (str s) = "string"
kind_of (array i) = "array"
kind_of (object f) = "object"

unfoldable pub parse_object : Bytes → Result Stop Fields
unfolding parse
parse_object text = parse text >>= λ v. elim v [
  | object fields ↦ ok fields
  | _ ↦ err (refuses "expected a JSON object")
]

abbrev is_same : Bytes → Bytes → Bool
is_same a b = elim (compare_bytes a b) [ same ↦ true | _ ↦ false ]

-- `fields.get`.
unfoldable get_field : Bytes → Fields → Option JsonVal
get_field name no_fields = none
get_field name (field key v fs) =
    let rest = get_field name fs in if is_same name key then some v else rest

unfoldable pub get_string : Fields → Bytes → Result FieldError Bytes
unfolding get_field kind_of
get_string fields name = elim (get_field name fields) [
  | none ↦ err (missing_field name)
  | some (str s) ↦ ok s
  | some other ↦ err (not_a_string name (kind_of other))
]

unfoldable pub get_bool : Fields → Bytes → Result FieldError Bool
unfolding get_field kind_of
get_bool fields name = elim (get_field name fields) [
  | none ↦ err (missing_field name)
  | some (boolean b) ↦ ok b
  | some other ↦ err (not_a_boolean name (kind_of other))
]

unfoldable pub reject_unknown : Fields → List Bytes → Result FieldError (Unit {0})
reject_unknown no_fields allowed = ok tt
reject_unknown (field key v fs) allowed = do
  ensure (any (is_same key) allowed) (unexpected_field key)
  reject_unknown fs allowed

compare_bytes-same : (a b : Bytes) → compare_bytes a b ≡ same → a ≡ b
compare_bytes-same [] [] h = refl
compare_bytes-same [] (b ∷ t) h = absurd (cc)
compare_bytes-same (a ∷ s) [] h = absurd (cc)
compare_bytes-same (a ∷ s) (b ∷ t) h = ground (arith, compare_bytes-same s t)

is_same-eq : (a b : Bytes) → is_same a b ≡ true → a ≡ b
is_same-eq a b h = ground (arith, compare_bytes-same a b)

-- Where no field is refused, a field that is found has an allowed name.
reject_unknown-get_field :
    (fields : Fields) (allowed : List Bytes) (name : Bytes) (v : JsonVal)
    → reject_unknown fields allowed ≡ ok tt
    → get_field name fields ≡ some v
    → any (is_same name) allowed ≡ true
unfolding reject_unknown get_field
reject_unknown-get_field no_fields allowed name v h found = absurd (cc)
reject_unknown-get_field (field key w fs) allowed name v h found =
    elim (Bool-cases (is_same name key)) [
      | inl e ↦
          let same_name = is_same-eq name key e in
          let is_allowed : any (is_same key) allowed ≡ true = ground (arith, h) in
          ap (λ n. any (is_same n) allowed) same_name ∙ is_allowed
      | inr e ↦ ground (arith, reject_unknown-get_field fs allowed name v, h, found, e)
    ]

compare_bytes_self : (a : Bytes) → compare_bytes a a ≡ same
compare_bytes_self [] = refl
compare_bytes_self (b ∷ t) = ground (arith, compare_bytes_self t)

-- A field that `insert` accepts is found.
get_field-insert_field :
    (key : Bytes) (v : JsonVal) (fields after : Fields)
    → insert_field key v fields ≡ some after
    → get_field key after ≡ some v
unfolding insert_field get_field
get_field-insert_field key v no_fields after h = ground (arith, compare_bytes_self key)
get_field-insert_field key v (field k w fs) after h = elim (Option-cases (insert_field key v fs)) [
  | inl e ↦ ground (arith, compare_bytes_self key, e, h)
  | inr (next, e) ↦
      let found = get_field-insert_field key v fs next e in
      ground (arith, compare_bytes_self key, found, e, h)
]

-- It leaves every other field.
get_field-insert_other :
    (key name : Bytes) (v : JsonVal) (fields after : Fields)
    → insert_field key v fields ≡ some after
    → is_same name key ≡ false
    → get_field name after ≡ get_field name fields
unfolding insert_field get_field
get_field-insert_other key name v no_fields after h d = ground (arith, h, d)
get_field-insert_other key name v (field k w fs) after h d =
    elim (Option-cases (insert_field key v fs)) [
      | inl e ↦ ground (arith, e, h, d)
      | inr (next, e) ↦
          let kept = get_field-insert_other key name v fs next e d in ground (arith, kept, e, h, d)
    ]
