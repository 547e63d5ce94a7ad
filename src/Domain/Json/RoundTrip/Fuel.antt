-- ===== src/Domain/Json/RoundTrip/Fuel.antt =====
-- The fuel that reading the text of a value of src/domain/json.rs takes.
use verdant.Base.{
  ℕ, suc, ◌+◌, ◌*◌, ◌≤◌, ◌≡◌, true, false, [], ◌∷◌, ◌++◌, length, length-append, arith,
}
use verdant.Base.Bytes.{Bytes}
use verdant.Domain.Json.Strings.{quote}
use verdant.Domain.Json.{
  JsonVal, Items, Fields, null, boolean, number, str, array, object, no_items, item, no_fields,
  field, stringify, stringify_items, stringify_fields, parse_number,
}
use verdant.Domain.Json.RoundTrip.Printable.{IsPrintable, AllPrintable, AllFieldsPrintable}

-- The calls that reading a value nests.
unfoldable mutual
  pub need : JsonVal → ℕ
  need (array items) = suc (need_items items)
  need (object fields) = suc (need_fields fields)
  need _ = 1

  pub need_items : Items → ℕ
  need_items no_items = 0
  need_items (item v vs) = suc (need v + need_items vs)

  pub need_fields : Fields → ℕ
  need_fields no_fields = 0
  need_fields (field key v fs) = suc (need v + need_fields fs)

pub need_positive : (v : JsonVal) → 1 ≤ need v
unfolding need
need_positive null = omega arith
need_positive (boolean b) = omega arith
need_positive (number raw) = omega arith
need_positive (str s) = omega arith
need_positive (array items) = omega arith
need_positive (object f) = omega arith

length-entry :
    (key a b : Bytes)
    → length (quote key ++ b':' ∷ (a ++ b)) ≡ length (quote key) + 1 + length a + length b
length-entry key a b = omega (arith, length-append (quote key) (b':' ∷ (a ++ b)), length-append a b)

mutual
  unfolding need stringify IsPrintable quote parse_number

  pub need-stringify :
      (depth : ℕ) (v : JsonVal) → IsPrintable depth v → need v ≤ 2 * length (stringify v)
  need-stringify depth null p = omega arith
  need-stringify depth (boolean true) p = omega arith
  need-stringify depth (boolean false) p = omega arith
  need-stringify depth (number []) p = absurd (cc (p.1))
  need-stringify depth (number (c ∷ s)) p = omega arith
  need-stringify depth (str s) p = omega arith
  need-stringify depth (array no_items) p = omega arith
  need-stringify depth (array (item v vs)) p = omega (
    arith,
    need-stringify (depth + 1) v p.1.0,
    need_items-stringify (depth + 1) vs p.1.1,
    length-append (stringify v ++ stringify_items false vs) (b']' ∷ []),
    length-append (stringify v) (stringify_items false vs),
  )
  need-stringify depth (object no_fields) p = omega arith
  need-stringify depth (object (field key v fs)) p = omega (
    arith,
    need-stringify (depth + 1) v p.2.0,
    need_fields-stringify (depth + 1) fs p.2.1,
    length-entry key (stringify v) (stringify_fields false fs),
    length-append (quote key ++ b':' ∷ (stringify v ++ stringify_fields false fs)) (b'}' ∷ []),
  )

  need_items-stringify :
      (depth : ℕ) (vs : Items)
      → AllPrintable depth vs
      → need_items vs ≤ 2 * length (stringify_items false vs)
  need_items-stringify depth no_items p = omega arith
  need_items-stringify depth (item v vs) p = omega (
    arith,
    need-stringify depth v p.0,
    need_items-stringify depth vs p.1,
    length-append (stringify v) (stringify_items false vs),
  )

  need_fields-stringify :
      (depth : ℕ) (fs : Fields)
      → AllFieldsPrintable depth fs
      → need_fields fs ≤ 2 * length (stringify_fields false fs)
  need_fields-stringify depth no_fields p = omega arith
  need_fields-stringify depth (field key v fs) p = omega (
    arith,
    need-stringify depth v p.0,
    need_fields-stringify depth fs p.1,
    length-entry key (stringify v) (stringify_fields false fs),
  )
