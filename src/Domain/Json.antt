-- ===== src/Domain/Json.antt =====
-- src/domain/json.rs: JSON values, their canonical text and the bounded parser. A text is its bytes, and
-- the parser's position is the bytes still to read. Each call of the mutually recursive functions costs
-- a unit of fuel; `parse` gives twice the length of the text, and two.
pub mod Strings
pub mod Progress
pub mod Termination
pub mod Readers
pub mod RoundTrip
use verdant.Base.{
  ℕ, zero, suc, ◌+◌, ◌*◌, Bool, true, false, not, ◌&&◌, ◌||◌, Option, none, some, List, [], ◌∷◌,
  ◌++◌, String, if◌then◌else◌, ltb, leb, nat_eq, length, Result, ok, err, ◌>>=◌, ◌>>◌, refuse_if,
  map_err, len,
}
use verdant.Base.Bytes.{Bytes}
use verdant.Domain.Json.Strings.{quote, parse_string, skip_ws, finished}

-- The entries of an object by ascending key, as a `BTreeMap` keeps them.
mutual
  pub data JsonVal : Type 0 where
    null : JsonVal
    boolean : Bool → JsonVal
    number str : Bytes → JsonVal
    array : Items → JsonVal
    object : Fields → JsonVal

  pub data Items : Type 0 where
    no_items : Items
    item : JsonVal → Items → Items

  pub data Fields : Type 0 where
    no_fields : Fields
    field : Bytes → JsonVal → Fields → Fields

abbrev pub true_text : Bytes
true_text = b't' ∷ b'r' ∷ b'u' ∷ b'e' ∷ []

abbrev pub false_text : Bytes
false_text = b'f' ∷ b'a' ∷ b'l' ∷ b's' ∷ b'e' ∷ []

abbrev pub null_text : Bytes
null_text = b'n' ∷ b'u' ∷ b'l' ∷ b'l' ∷ []

abbrev comma_unless : Bool → Bytes → Bytes
comma_unless true text = text
comma_unless false text = b',' ∷ text

unfoldable mutual
  pub stringify : JsonVal → Bytes
  stringify null = null_text
  stringify (boolean true) = true_text
  stringify (boolean false) = false_text
  stringify (number raw) = raw
  stringify (str s) = quote s
  stringify (array items) = b'[' ∷ (stringify_items true items ++ b']' ∷ [])
  stringify (object fields) = b'{' ∷ (stringify_fields true fields ++ b'}' ∷ [])

  pub stringify_items : Bool → Items → Bytes
  stringify_items first no_items = []
  stringify_items first (item v vs) = comma_unless first (stringify v ++ stringify_items false vs)

  pub stringify_fields : Bool → Fields → Bytes
  stringify_fields first no_fields = []
  stringify_fields first (field key v fs) =
      comma_unless first (quote key ++ b':' ∷ (stringify v ++ stringify_fields false fs))

-- The order of texts by their bytes.
pub data Order : Type 0 where
  before same behind : Order

abbrev pub compare_bytes : Bytes → Bytes → Order
compare_bytes [] [] = same
compare_bytes [] (b ∷ t) = before
compare_bytes (a ∷ s) [] = behind
compare_bytes (a ∷ s) (b ∷ t) =
    let rest = compare_bytes s t in if ltb a b then before else if ltb b a then behind else rest

abbrev with_field : Bytes → JsonVal → Option Fields → Option Fields
with_field key v none = none
with_field key v (some fs) = some (field key v fs)

-- `fields.insert`, which gives nothing where the key is there.
unfoldable pub insert_field : Bytes → JsonVal → Fields → Option Fields
insert_field key v no_fields = some (field key v no_fields)
insert_field key v (field k w fs) =
    let rest = insert_field key v fs in
    elim (compare_bytes key k) [
      | before ↦ some (field key v (field k w fs))
      | same ↦ none
      | behind ↦ with_field k w rest
    ]

-- Why the parser stops.
pub data Stop : Type 0 where
  refuses : String → Stop
  out_of_fuel : Stop

abbrev pub Parsed : Type 0 → Type 0
Parsed A = Result Stop (A × Bytes)

abbrev pub is_digit : ℕ → Bool
is_digit c = leb b'0' c && leb c b'9'

abbrev pub before_first : ℕ → Bytes × Bytes → Bytes × Bytes
before_first c (taken, rest) = (c ∷ taken, rest)

unfoldable pub digits : Bytes → Bytes × Bytes
digits [] = ([], [])
digits (c ∷ s) = let more = digits s in if is_digit c then before_first c more else ([], c ∷ s)

abbrev pub some_digits_of : String → Bytes × Bytes → Parsed Bytes
some_digits_of message ([], rest) = err (refuses message)
some_digits_of message (c ∷ taken, rest) = ok (c ∷ taken, rest)

abbrev pub some_digits : String → Bytes → Parsed Bytes
some_digits message s = some_digits_of message (digits s)

unfoldable pub sign : Bytes → Bytes × Bytes
sign [] = ([], [])
sign (c ∷ s) = if nat_eq c b'-' then (c ∷ [], s) else ([], c ∷ s)

abbrev pub prefixed : Bytes → Parsed Bytes → Parsed Bytes
prefixed p (ok (taken, rest)) = ok (p ++ taken, rest)
prefixed p (err e) = err e

unfoldable pub fraction : Bytes → Parsed Bytes
unfolding digits
fraction [] = ok ([], [])
fraction (c ∷ s) =
    if nat_eq c b'.'
    then prefixed (c ∷ []) (some_digits "invalid JSON number: expected digits after '.'" s)
    else ok ([], c ∷ s)

unfoldable pub exponent_sign : Bytes → Bytes × Bytes
exponent_sign [] = ([], [])
exponent_sign (c ∷ s) = if nat_eq c b'+' || nat_eq c b'-' then (c ∷ [], s) else ([], c ∷ s)

abbrev pub signed_digits : Bytes × Bytes → Parsed Bytes
signed_digits (p, s) = prefixed p (some_digits "invalid JSON number: expected digits in exponent" s)

unfoldable pub exponent : Bytes → Parsed Bytes
unfolding exponent_sign digits
exponent [] = ok ([], [])
exponent (c ∷ s) =
    if nat_eq c b'e' || nat_eq c b'E'
    then prefixed (c ∷ []) (signed_digits (exponent_sign s))
    else ok ([], c ∷ s)

abbrev pub unsigned_number : Bytes × Bytes → Parsed Bytes
unsigned_number (p, s) = some_digits "invalid JSON number: expected digits" s >>= λ (whole, s').
    fraction s' >>= λ (frac, s''). prefixed (p ++ whole ++ frac) (exponent s'')

unfoldable pub parse_number : Bytes → Parsed Bytes
unfolding sign fraction exponent digits
parse_number s = unsigned_number (sign s)

-- The bytes behind `word`, where the text starts with it.
unfoldable pub strip_word : Bytes → Bytes → Option Bytes
strip_word [] s = some s
strip_word (w ∷ ws) [] = none
strip_word (w ∷ ws) (c ∷ s) = let rest = strip_word ws s in if nat_eq w c then rest else none

abbrev pub literal_of : JsonVal → Option Bytes → Parsed JsonVal
literal_of v none = err (refuses "expected a literal")
literal_of v (some rest) = ok (v, rest)

abbrev pub parse_literal : Bytes → JsonVal → Bytes → Parsed JsonVal
parse_literal word v s = literal_of v (strip_word word s)

abbrev pub wrapped : {A B : Type 0} → (A → B) → Parsed A → Parsed B
wrapped f (ok (a, rest)) = ok (f a, rest)
wrapped f (err e) = err e

abbrev pub read_string : Bytes → Parsed Bytes
read_string s = map_err refuses (parse_string s)

-- A scalar value: its first byte is neither a brace nor a bracket.
unfoldable pub parse_scalar : ℕ → Bytes → Parsed JsonVal
unfolding strip_word parse_number
parse_scalar c s =
    if nat_eq c b'"'
    then wrapped str (read_string (c ∷ s))
    else if nat_eq c b't'
    then parse_literal true_text (boolean true) (c ∷ s)
    else if nat_eq c b'f'
    then parse_literal false_text (boolean false) (c ∷ s)
    else if nat_eq c b'n'
    then parse_literal null_text null (c ∷ s)
    else if nat_eq c b'-' || is_digit c
    then wrapped number (parse_number (c ∷ s))
    else err (refuses "unexpected character")

abbrev pub expect_byte : ℕ → Bytes → Parsed (Unit {0})
expect_byte want [] = err (refuses "unexpected end of input")
expect_byte want (c ∷ s) = if nat_eq c want then ok (tt, s) else err (refuses "unexpected byte")

-- What stands behind an element: the separator, the end, or neither.
pub data After : Type 0 where
  more ended : Bytes → After
  other : String → After

abbrev pub after_element : ℕ → Bytes → After
after_element close [] = other "unterminated"
after_element close (c ∷ s) =
    if nat_eq c b','
    then more s
    else if nat_eq c close
    then ended s
    else other "expected ',' or the end"

abbrev pub starts_with : ℕ → Bytes → Bool
starts_with want [] = false
starts_with want (c ∷ s) = nat_eq c want

abbrev pub inserted : Option Fields → Result Stop Fields
inserted none = err (refuses "duplicate key")
inserted (some fs) = ok fs

-- The text behind `close`, where it comes next.
unfoldable pub closed_at : ℕ → Bytes → Option Bytes
closed_at close [] = none
closed_at close (c ∷ s) = if nat_eq c close then some s else none

-- Behind the opening bracket or brace: nothing, or the elements.
abbrev pub opened : {A : Type 0} → A → Option Bytes → Parsed A → Parsed A
opened empty (some rest) elements = ok (empty, rest)
opened empty none elements = elements

-- A value, given how to read the elements of an object and of an array.
unfoldable pub value_at : (Bytes → Parsed Fields) → (Bytes → Parsed Items) → Bytes → Parsed JsonVal
unfolding skip_ws closed_at parse_scalar
value_at entries elements [] = err (refuses "unexpected end of input")
value_at entries elements (c ∷ s) =
    if nat_eq c b'{'
    then wrapped object (opened no_fields (closed_at b'}' (skip_ws s)) (entries s))
    else if nat_eq c b'['
    then wrapped array (opened no_items (closed_at b']' (skip_ws s)) (elements s))
    else parse_scalar c s

unfoldable pub key_of : Bytes → Parsed Bytes
unfolding skip_ws parse_string
key_of s =
    refuse_if (not (starts_with b'"' (skip_ws s))) (refuses "expected string key in object")
    >> read_string (skip_ws s)

unfoldable mutual
  unfolding skip_ws value_at key_of insert_field

  pub parse_value : ℕ → ℕ → Bytes → Parsed JsonVal
  parse_value zero depth s = err out_of_fuel
  parse_value (suc f) depth s =
      let read = value_at (parse_fields f depth no_fields) (parse_items f depth) (skip_ws s) in
      if ltb 16 depth then err (refuses "JSON nesting exceeds PR02 bound (16)") else read

  pub parse_items : ℕ → ℕ → Bytes → Parsed Items
  parse_items zero depth s = err out_of_fuel
  parse_items (suc f) depth s = parse_value f (depth + 1) s >>= λ (v, rest).
      elim (after_element b']' (skip_ws rest)) [
        | more s' ↦ wrapped (item v) (parse_items f depth s')
        | ended s' ↦ ok (item v no_items, s')
        | other message ↦ err (refuses message)
      ]

  pub parse_fields : ℕ → ℕ → Fields → Bytes → Parsed Fields
  parse_fields zero depth acc s = err out_of_fuel
  parse_fields (suc f) depth acc s = key_of s >>= λ (key, behind_key).
      expect_byte b':' (skip_ws behind_key) >>= λ (_, behind_colon).
      parse_value f (depth + 1) behind_colon >>= λ (v, rest).
      inserted (insert_field key v acc) >>= λ acc'. elim (after_element b'}' (skip_ws rest)) [
        | more s' ↦ parse_fields f depth acc' s'
        | ended s' ↦ ok (acc', s')
        | other message ↦ err (refuses message)
      ]

abbrev pub whole : Parsed JsonVal → Result Stop JsonVal
whole (ok (v, rest)) = map_err refuses (finished "trailing characters after JSON value" (v, rest))
whole (err e) = err e

-- `Parser::parse_value` skips white space itself.
unfoldable pub parse : Bytes → Result Stop JsonVal
unfolding skip_ws
parse text = whole (parse_value (2 * length text + 2) 0 (skip_ws text))
