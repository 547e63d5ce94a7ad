-- ===== src/Domain/Json/RoundTrip.antt =====
-- Values of src/domain/json.rs, read back from their canonical text.
mod Numbers
pub mod Printable
mod Fuel
mod Texts
mod Steps
use verdant.Base.{
  ℕ, zero, suc, ◌+◌, ◌*◌, ◌≤◌, ◌≡◌, ◌∙◌, refl, ap, sym, Bool, true, false, Option, none, some, List,
  [], ◌∷◌, ◌++◌, length, length-append, nat_eq, ltb, leb, ◌&&◌, ◌||◌, if◌then◌else◌, Result, ok,
  err, ◌>>=◌, ◌>>◌, map_err, refuse_if, not, arith, Bool-cases, Option-cases, Result-cases, inl,
  inr, String,
}
use verdant.Base.Bytes.{Bytes}
use mathlib.Core.List.{append-nil, append_assoc}
use verdant.Domain.Json.Strings.{quote, parse_string, parse_string-quote, skip_ws, is_ws, finished}
use verdant.Domain.Json.{
  JsonVal, Items, Fields, null, boolean, number, str, array, object, no_items, item, no_fields,
  field, stringify, stringify_items, stringify_fields, comma_unless, null_text, true_text,
  false_text, insert_field, Parsed, is_digit, parse_number, wrapped, read_string, parse_scalar,
  expect_byte, After, after_element, inserted, closed_at, opened, value_at, key_of, parse_value,
  parse_items, parse_fields, whole, parse, Stop, refuses,
}
use verdant.Domain.Json.RoundTrip.Numbers.{stops, parse_number-append, parse_number-first}
use verdant.Domain.Json.RoundTrip.Printable.{
  insert_all, IsPrintable, AllPrintable, AllFieldsPrintable, closed_at-stringify, number-first,
  skip_ws-stringify,
}
use verdant.Domain.Json.RoundTrip.Fuel.{
  need, need_items, need_fields, need_positive, need-stringify,
}
use verdant.Domain.Json.RoundTrip.Texts.{tail_items, tail_fields, array_text, object_text}
use verdant.Domain.Json.RoundTrip.Steps.{
  parse_value_lem, value_at-array, parse_items-last, parse_items-more, parse_fields-last,
  parse_fields-more, number_read, insert_all-first,
}

mutual
  unfolding need stringify value_at skip_ws parse_scalar IsPrintable quote tail_items tail_fields
      insert_all

  value-stringify :
      (f depth : ℕ) (v : JsonVal) (rest : Bytes)
      → need v ≤ f
      → IsPrintable depth v
      → stops rest ≡ true
      → parse_value f depth (stringify v ++ rest) ≡ ok (v, rest)
  value-stringify zero depth v rest n p h = absurd (omega (arith, need_positive v, n))
  value-stringify (suc f) depth null rest n p h = parse_value_lem f depth _ p
  value-stringify (suc f) depth (boolean true) rest n p h = parse_value_lem f depth _ p
  value-stringify (suc f) depth (boolean false) rest n p h = parse_value_lem f depth _ p
  value-stringify (suc f) depth (number raw) rest n p h = number_read f depth raw rest p.0 p.1 h
  value-stringify (suc f) depth (str s) rest n p h =
      parse_value_lem f depth _ p
      ∙ ap (λ r. wrapped str (map_err refuses r)) (parse_string-quote s rest)
  value-stringify (suc f) depth (array no_items) rest n p h = parse_value_lem f depth _ p.0
  value-stringify (suc f) depth (array (item v vs)) rest n p h =
      ap (parse_value (suc f) depth) (array_text v vs rest)
      ∙ parse_value_lem f depth _ p.0
      ∙ value_at-array (parse_fields f depth no_fields) (parse_items f depth)
          (stringify v ++ tail_items vs rest)
          (closed_at-stringify (depth + 1) v (tail_items vs rest) p.1.0)
      ∙ ap (wrapped array) (items-stringify f depth v vs rest (omega (arith, n)) p.1)
  value-stringify (suc f) depth (object no_fields) rest n p h = parse_value_lem f depth _ p.0
  value-stringify (suc f) depth (object (field key v fs)) rest n p h =
      ap (parse_value (suc f) depth) (object_text key v fs rest)
      ∙ parse_value_lem f depth _ p.0
      ∙ ap (wrapped object) (
          fields-stringify f depth no_fields key v fs (field key v fs) rest (omega (arith, n)) p.1
            p.2)

  items-stringify :
      (f depth : ℕ) (v : JsonVal) (vs : Items) (rest : Bytes)
      → need_items (item v vs) ≤ f
      → AllPrintable (depth + 1) (item v vs)
      → parse_items f depth (stringify v ++ tail_items vs rest) ≡ ok (item v vs, rest)
  items-stringify zero depth v vs rest n p = absurd (omega (arith, n))
  items-stringify (suc f) depth v no_items rest n p =
      parse_items-last f depth _ v rest
        (value-stringify f (depth + 1) v (b']' ∷ rest) (omega (arith, n)) p.0 refl)
  items-stringify (suc f) depth v (item w ws) rest n p =
      parse_items-more f depth _ v _
        (value-stringify f (depth + 1) v (tail_items (item w ws) rest) (omega (arith, n)) p.0 refl)
      ∙ ap (wrapped (item v)) (items-stringify f depth w ws rest (omega (arith, n)) p.1)

  fields-stringify :
      (f depth : ℕ) (acc : Fields) (key : Bytes) (v : JsonVal) (fs all : Fields) (rest : Bytes)
      → need_fields (field key v fs) ≤ f
      → insert_all acc (field key v fs) ≡ some all
      → AllFieldsPrintable (depth + 1) (field key v fs)
      → parse_fields f depth acc (quote key ++ b':' ∷ (stringify v ++ tail_fields fs rest))
        ≡ ok (all, rest)
  fields-stringify zero depth acc key v fs all rest n i p = absurd (omega (arith, n))
  fields-stringify (suc f) depth acc key v no_fields all rest n i p =
      let (acc', here, behind) = insert_all-first acc key v no_fields all i in
      parse_fields-last f depth acc acc' key _ v rest here
        (value-stringify f (depth + 1) v (b'}' ∷ rest) (omega (arith, n)) p.0 refl)
      ∙ ap (λ a. ok (a, rest)) (ground (arith, behind))
  fields-stringify (suc f) depth acc key v (field k w fs) all rest n i p =
      let (acc', here, behind) = insert_all-first acc key v (field k w fs) all i in
      parse_fields-more f depth acc acc' key _ v _ here (
        value-stringify f (depth + 1) v (tail_fields (field k w fs) rest) (omega (arith, n)) p.0
          refl)
      ∙ fields-stringify f depth acc' k w fs all rest (omega (arith, n)) behind p.1

-- A value is read back from its canonical text when the number reader accepts each of its numbers whole, each
-- of its objects is what inserting its entries one by one into an empty one gives, and no part of it stands
-- more than 16 levels deep.
pub parse-stringify : (v : JsonVal) → IsPrintable 0 v → parse (stringify v) ≡ ok v
unfolding parse finished skip_ws
parse-stringify v p =
    let text = stringify v in
    let fuel = 2 * length text + 2 in
    ap (λ s. whole (parse_value fuel 0 s)) (skip_ws-stringify 0 v p ∙ sym (append-nil text))
    ∙ ap whole (value-stringify fuel 0 v [] (omega (arith, need-stringify 0 v p)) p refl)
