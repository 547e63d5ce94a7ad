-- ===== src/Runtime/Mapping.antt =====
-- src/runtime/modbus/mapping.rs: the map of one point, and how a payload becomes a value. A decimal is
-- its unscaled integer and its number of places; the printing of its text is not modelled.
use verdant.Base.{
  ℕ, ◌+◌, ◌*◌, ◌/◌, ◌%◌, ◌-◌, Bool, true, false, not, ◌&&◌, ◌||◌, Option, none, some, List, [], ◌∷◌,
  ◌++◌, String, len, ltb, leb, nat_eq, ◌==◌, string_partial_eq, if◌then◌else◌, length, any, map,
  Result, ok, err, ◌>>=◌, ◌>>◌, ensure, refuse_if, is_control,
}
use verdant.Base.Int.{ℤ, pos, negsuc, pos_part, neg_part, sub_ℕ, ◌+ℤ◌}
use verdant.Domain.Ids.{codes}
use verdant.Runtime.Modbus.{
  ModbusError, map_refused, quantity, Function, Read, is_bits, bytes, Target, Payload, bits, words,
  register_bytes,
}
pub mod Decode

pub data ByteOrder : Type 0 where
  big little : ByteOrder

pub data WordOrder : Type 0 where
  high_first low_first : WordOrder

pub data Encoding : Type 0 where
  bool u16 i16 u32 i32 : Encoding
  unsupported : String → Encoding

pub record Scale : Type 0 where
  pub numerator : ℤ
  pub offset : ℤ
  pub places : ℕ

-- src/domain/values.rs `Unit`: a known unit or a text kept as it came.
pub data MapUnit : Type 0 where
  known unknown_unit : String → MapUnit

abbrev pub unit_text : MapUnit → String
unit_text (known s) = s
unit_text (unknown_unit s) = s

abbrev pub is_unknown : MapUnit → Bool
is_unknown (known s) = false
is_unknown (unknown_unit s) = true

pub record Map : Type 0 where
  pub revision : String
  pub source_role : String
  pub target : Target
  pub read : Read
  pub encoding : Encoding
  pub byte_order : ByteOrder
  pub word_order : WordOrder
  pub scale : Scale
  pub unit : MapUnit

abbrev is_token : String → Bool
is_token s = not (s == "" || ltb 128 (len s) || any is_control (codes s))

abbrev is_zero : ℤ → Bool
is_zero n = nat_eq (pos_part n + neg_part n) 0

abbrev is_identity : Scale → Bool
is_identity s =
    nat_eq (pos_part s.numerator) 1
    && nat_eq (neg_part s.numerator) 0
    && is_zero s.offset
    && nat_eq s.places 0

-- The words that an encoding takes, or a refusal.
unfoldable pub words_of : Encoding → Read → Scale → Result ModbusError ℕ
unfolding is_bits
words_of bool r s = if is_bits r.function && is_identity s then ok 1 else err map_refused
words_of u16 r s = if is_bits r.function then err map_refused else ok 1
words_of i16 r s = if is_bits r.function then err map_refused else ok 1
words_of u32 r s = if is_bits r.function then err map_refused else ok 2
words_of i32 r s = if is_bits r.function then err map_refused else ok 2
words_of (unsupported token) r s =
    if not (token == "") && leb (len token) 128 then ok r.quantity else err map_refused

-- `Map::new`.
unfoldable pub new_map : Map → Result ModbusError Map
unfolding words_of
new_map m = do
  ensure (is_token m.revision && is_token m.source_role && is_token (unit_text m.unit)) map_refused
  refuse_if (ltb 9 m.scale.places) map_refused
  needed ← words_of m.encoding m.read m.scale
  ensure (nat_eq m.read.quantity needed) quantity
  ok m

-- src/domain/values.rs `Value`, the forms that a map produces; src/observation/normalize.rs.
pub data Value : Type 0 where
  missing : Value
  boolean : Bool → Value
  integer : ℤ → Value
  decimal : ℤ → ℕ → Value
  diagnostic : String → Value

pub data ValueQuality : Type 0 where
  valid missing_value invalid non_finite : ValueQuality
  unknown_value : String → ValueQuality

pub data TransportResult : Type 0 where
  value_returned timeout invalid_reply oversized failure : TransportResult
  remote_error : ℕ → ℕ → TransportResult
  reject abort : ℕ → TransportResult

pub data Refusal : Type 0 where
  missing_refused invalid_refused non_finite_refused unknown_unit_refused unsupported_refused
        transport_refused wrong_unit_refused not_fresh_refused :
      Refusal

pub data Suitability : Type 0 where
  synthetic_value_only : Suitability
  refused : Refusal → Suitability

unfoldable pub swap_bytes : ℕ → ℕ
swap_bytes w = w % 256 * 256 + w / 256

unfoldable pub in_byte_order : ByteOrder → ℕ → ℕ
unfolding swap_bytes
in_byte_order big w = w
in_byte_order little w = swap_bytes w

abbrev pub reverse : List ℕ → List ℕ
reverse [] = []
reverse (x ∷ xs) = reverse xs ++ x ∷ []

unfoldable pub in_word_order : WordOrder → List ℕ → List ℕ
in_word_order high_first ws = ws
in_word_order low_first ws = reverse ws

-- `chunks_exact(2)` of big-endian bytes.
unfoldable pub words_of_bytes : List ℕ → List ℕ
words_of_bytes (hi ∷ lo ∷ rest) = (hi * 256 + lo) ∷ words_of_bytes rest
words_of_bytes _ = []

-- `x as i16`, `x as i32` at the width whose half is `half`.
abbrev pub as_signed : ℕ → ℕ → ℤ
as_signed half n = if ltb n half then pos n else negsuc (2 * half - n - 1)

-- The integer of the words, the most significant first.
unfoldable pub number_of : Encoding → List ℕ → Option ℤ
number_of u16 (w ∷ ws) = some (pos w)
number_of i16 (w ∷ ws) = some (as_signed 0x8000 w)
number_of u32 (hi ∷ lo ∷ ws) = some (pos (hi * 65536 + lo))
number_of i32 (hi ∷ lo ∷ ws) = some (as_signed 0x8000_0000 (hi * 65536 + lo))
number_of _ _ = none

infixl 70 ◌*ℤ◌
unfoldable pub ◌*ℤ◌ : ℤ → ℤ → ℤ
a *ℤ b =
    sub_ℕ (pos_part a * pos_part b + neg_part a * neg_part b)
      (pos_part a * neg_part b + neg_part a * pos_part b)

-- `(n * numerator + offset) / 10^places`; `i128` holds the numerator of 32-bit operands.
unfoldable pub scaled : Scale → ℤ → Value × ValueQuality
unfolding ◌*ℤ◌ ◌+ℤ◌
scaled s n =
    let unscaled = n *ℤ s.numerator +ℤ s.offset in
    if nat_eq s.places 0 then (integer unscaled, valid) else (decimal unscaled s.places, valid)

abbrev pub invalid_shape : Value × ValueQuality
invalid_shape = (diagnostic "map payload shape", invalid)

unfoldable pub has_shape : Read → Option Payload → Bool
unfolding is_bits bytes
has_shape r none = false
has_shape r (some (bits bs)) = is_bits r.function && nat_eq (length bs) r.quantity
has_shape r (some (words ws)) = not (is_bits r.function) && nat_eq (length ws) r.quantity
has_shape r (some (register_bytes bs)) = not (is_bits r.function) && nat_eq (length bs) (bytes r)

abbrev pub payload_words : Option Payload → Option (List ℕ)
unfolding words_of_bytes
payload_words (some (words ws)) = some ws
payload_words (some (register_bytes bs)) = some (words_of_bytes bs)
payload_words _ = none

abbrev pub scaled_or : Option ℤ → Scale → Value × ValueQuality
unfolding scaled
scaled_or none s = invalid_shape
scaled_or (some n) s = scaled s n

unfoldable pub number_value : Map → List ℕ → Value × ValueQuality
unfolding number_of in_word_order in_byte_order
number_value m ws =
    if nat_eq (length ws) m.read.quantity
    then scaled_or
        (number_of m.encoding (in_word_order m.word_order (map (in_byte_order m.byte_order) ws)))
        m.scale
    else invalid_shape

abbrev pub words_value : Map → Option (List ℕ) → Value × ValueQuality
unfolding number_value
words_value m none = invalid_shape
words_value m (some ws) = number_value m ws

abbrev pub bool_value : Option Payload → Value × ValueQuality
bool_value (some (bits (b ∷ []))) = (boolean b, valid)
bool_value _ = invalid_shape

abbrev pub encoded_value : Encoding → Map → Option Payload → Value × ValueQuality
encoded_value (unsupported token) m p = (diagnostic token, unknown_value token)
encoded_value bool m p = bool_value p
encoded_value _ m p = words_value m (payload_words p)

-- `Map::value`.
unfoldable pub value : Map → Option Payload → Value × ValueQuality
unfolding has_shape
value m p = if has_shape m.read p then encoded_value m.encoding m p else invalid_shape

abbrev pub refusal_of : ValueQuality → Bool → Option Refusal
refusal_of valid unknown_u = if unknown_u then some unknown_unit_refused else none
refusal_of missing_value _ = some missing_refused
refusal_of invalid _ = some invalid_refused
refusal_of non_finite _ = some non_finite_refused
refusal_of (unknown_value detail) _ = some unsupported_refused

abbrev pub suitability_of : Option Refusal → Suitability
suitability_of none = synthetic_value_only
suitability_of (some r) = refused r

pub record Mapped : Type 0 where
  pub value : Value
  pub unit : MapUnit
  pub map : Map
  pub transport : TransportResult
  pub quality : ValueQuality
  pub suitability : Suitability

-- `Map::decode`.
unfoldable pub decode : Map → Option Payload → TransportResult → Mapped
decode m p value_returned = record {
  value = (value m p).0;
  unit = m.unit;
  map = m;
  transport = value_returned;
  quality = (value m p).1;
  suitability = suitability_of (refusal_of (value m p).1 (is_unknown m.unit));
}
decode m p transport = record {
  value = missing;
  unit = m.unit;
  map = m;
  transport = transport;
  quality = missing_value;
  suitability = refused transport_refused;
}
