-- ===== src/Domain/Json/RoundTrip/Steps.antt =====
-- One step of each loop of the parser of src/domain/json.rs.
use verdant.Base.{
  ℕ, suc, ◌+◌, ◌≤◌, ◌≡◌, ◌∙◌, refl, ap, true, none, some, [], ◌∷◌, ◌++◌, nat_eq, ◌||◌, ok, map_err,
  arith, Option-cases, inl, inr,
}
use verdant.Base.Bytes.{Bytes}
use verdant.Domain.Json.Strings.{quote, parse_string-quote, skip_ws}
use verdant.Domain.Json.{
  JsonVal, Items, Fields, number, array, no_items, item, no_fields, field, insert_field, Parsed,
  is_digit, parse_number, wrapped, parse_scalar, closed_at, opened, value_at, key_of, parse_value,
  parse_items, parse_fields, refuses,
}
use verdant.Domain.Json.RoundTrip.Numbers.{stops, parse_number-append, parse_number-first}
use verdant.Domain.Json.RoundTrip.Printable.{insert_all, number-first}

pub parse_value_lem :
    (f depth : ℕ) (s : Bytes)
    → depth ≤ 16
    → parse_value (suc f) depth s
      ≡ value_at (parse_fields f depth no_fields) (parse_items f depth) (skip_ws s)
unfolding parse_value
parse_value_lem f depth s h = ground arith

-- One step of each loop.
value_at-number :
    (entries : Bytes → Parsed Fields) (elements : Bytes → Parsed Items) (c : ℕ) (s : Bytes)
    → nat_eq c b'-' || is_digit c ≡ true
    → value_at entries elements (c ∷ s) ≡ wrapped number (parse_number (c ∷ s))
unfolding value_at parse_scalar
value_at-number entries elements c s h = ground (arith, h)

pub value_at-array :
    (entries : Bytes → Parsed Fields) (elements : Bytes → Parsed Items) (s : Bytes)
    → closed_at b']' (skip_ws s) ≡ none
    → value_at entries elements (b'[' ∷ s) ≡ wrapped array (elements s)
unfolding value_at
value_at-array entries elements s h = ap (λ o. wrapped array (opened no_items o (elements s))) h

pub parse_items-last :
    (f depth : ℕ) (s : Bytes) (v : JsonVal) (rest : Bytes)
    → parse_value f (depth + 1) s ≡ ok (v, b']' ∷ rest)
    → parse_items (suc f) depth s ≡ ok (item v no_items, rest)
unfolding parse_items skip_ws
parse_items-last f depth s v rest h = rw h refl

pub parse_items-more :
    (f depth : ℕ) (s : Bytes) (v : JsonVal) (t : Bytes)
    → parse_value f (depth + 1) s ≡ ok (v, b',' ∷ t)
    → parse_items (suc f) depth s ≡ wrapped (item v) (parse_items f depth t)
unfolding parse_items skip_ws
parse_items-more f depth s v t h = rw h refl

key_of-quote : (key t : Bytes) → key_of (quote key ++ t) ≡ ok (key, t)
unfolding key_of skip_ws quote
key_of-quote key t = ap (λ r. map_err refuses r) (parse_string-quote key t)

pub parse_fields-last :
    (f depth : ℕ) (acc acc' : Fields) (key t : Bytes) (v : JsonVal) (rest : Bytes)
    → insert_field key v acc ≡ some acc'
    → parse_value f (depth + 1) t ≡ ok (v, b'}' ∷ rest)
    → parse_fields (suc f) depth acc (quote key ++ b':' ∷ t) ≡ ok (acc', rest)
unfolding parse_fields skip_ws
parse_fields-last f depth acc acc' key t v rest i h = rw (key_of-quote key (b':' ∷ t), h, i) refl

pub parse_fields-more :
    (f depth : ℕ) (acc acc' : Fields) (key t : Bytes) (v : JsonVal) (rest : Bytes)
    → insert_field key v acc ≡ some acc'
    → parse_value f (depth + 1) t ≡ ok (v, b',' ∷ rest)
    → parse_fields (suc f) depth acc (quote key ++ b':' ∷ t) ≡ parse_fields f depth acc' rest
unfolding parse_fields skip_ws
parse_fields-more f depth acc acc' key t v rest i h = rw (key_of-quote key (b':' ∷ t), h, i) refl

pub number_read :
    (f depth : ℕ) (raw rest : Bytes)
    → depth ≤ 16
    → parse_number raw ≡ ok (raw, [])
    → stops rest ≡ true
    → parse_value (suc f) depth (raw ++ rest) ≡ ok (number raw, rest)
unfolding parse_number
number_read f depth [] rest d p h = absurd (cc)
number_read f depth (c ∷ s) rest d p h =
    parse_value_lem f depth ((c ∷ s) ++ rest) d
    ∙ ap (value_at (parse_fields f depth no_fields) (parse_items f depth))
        (number-first (c ∷ s) rest p)
    ∙ value_at-number _ _ c (s ++ rest) (parse_number-first c s (c ∷ s) [] p)
    ∙ ap (wrapped number) (parse_number-append (c ∷ s) rest h p)

pub insert_all-first :
    (acc : Fields) (key : Bytes) (v : JsonVal) (fs all : Fields)
    → insert_all acc (field key v fs) ≡ some all
    → (acc' : Fields) × (insert_field key v acc ≡ some acc') × (insert_all acc' fs ≡ some all)
unfolding insert_all
insert_all-first acc key v fs all h = elim (Option-cases (insert_field key v acc)) [
  | inl e ↦ absurd (cc (rw (e, insert_all) at h))
  | inr (acc', e) ↦ (acc', e, rw (e, insert_all) at h)
]
