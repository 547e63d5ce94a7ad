-- ===== src/Domain/Json/RoundTrip/Printable.antt =====
-- The values of src/domain/json.rs that have a canonical text of their own, and the first byte of that text.
use verdant.Base.{ℕ, ◌+◌, ◌≤◌, ◌≡◌, refl, true, false, Option, none, some, [], ◌∷◌, ◌++◌, ok, arith}
use verdant.Base.Bytes.{Bytes}
use verdant.Domain.Json.Strings.{quote, skip_ws}
use verdant.Domain.Json.{
  JsonVal, Items, Fields, null, boolean, number, str, array, object, no_items, item, no_fields,
  field, stringify, insert_field, parse_number, closed_at,
}
use verdant.Domain.Json.RoundTrip.Numbers.{parse_number-first}

-- The entries, inserted one after the other.
unfoldable pub insert_all : Fields → Fields → Option Fields
unfolding insert_field
insert_all acc no_fields = some acc
insert_all acc (field key v fs) = elim (insert_field key v acc) [
  | none ↦ none
  | some acc' ↦ insert_all acc' fs
]

-- Of a value that stands at `depth`: its numbers are what the number reader accepts whole, its objects hold
-- their entries as a map does, and it is at most 16 deep.
unfoldable mutual
  unfolding insert_all parse_number

  pub IsPrintable : ℕ → JsonVal → Type 0
  IsPrintable depth null = depth ≤ 16
  IsPrintable depth (boolean b) = depth ≤ 16
  IsPrintable depth (number raw) = (depth ≤ 16) × (parse_number raw ≡ ok (raw, []))
  IsPrintable depth (str s) = depth ≤ 16
  IsPrintable depth (array items) = (depth ≤ 16) × AllPrintable (depth + 1) items
  IsPrintable depth (object fields) =
      (depth ≤ 16)
      × (insert_all no_fields fields ≡ some fields)
      × AllFieldsPrintable (depth + 1) fields

  pub AllPrintable : ℕ → Items → Type 0
  AllPrintable depth no_items = Unit {0}
  AllPrintable depth (item v vs) = IsPrintable depth v × AllPrintable depth vs

  pub AllFieldsPrintable : ℕ → Fields → Type 0
  AllFieldsPrintable depth no_fields = Unit {0}
  AllFieldsPrintable depth (field key v fs) = IsPrintable depth v × AllFieldsPrintable depth fs

-- The text of a value starts neither with white space nor with a bracket's or brace's end.
pub number-first :
    (raw rest : Bytes) → parse_number raw ≡ ok (raw, []) → skip_ws (raw ++ rest) ≡ raw ++ rest
unfolding skip_ws parse_number
number-first [] rest h = absurd (cc)
number-first (c ∷ s) rest h = ground (arith, parse_number-first c s (c ∷ s) [] h)

pub closed_at-stringify :
    (depth : ℕ) (v : JsonVal) (rest : Bytes)
    → IsPrintable depth v
    → closed_at b']' (skip_ws (stringify v ++ rest)) ≡ none
unfolding closed_at skip_ws stringify IsPrintable quote
closed_at-stringify depth null rest p = refl
closed_at-stringify depth (boolean true) rest p = refl
closed_at-stringify depth (boolean false) rest p = refl
closed_at-stringify depth (number []) rest p = absurd (cc)
closed_at-stringify depth (number (c ∷ s)) rest p =
    ground (arith, parse_number-first c s (c ∷ s) [] p.1)
closed_at-stringify depth (str s) rest p = refl
closed_at-stringify depth (array items) rest p = refl
closed_at-stringify depth (object f) rest p = refl

pub skip_ws-stringify :
    (depth : ℕ) (v : JsonVal) → IsPrintable depth v → skip_ws (stringify v) ≡ stringify v
unfolding skip_ws stringify IsPrintable quote
skip_ws-stringify depth null p = refl
skip_ws-stringify depth (boolean true) p = refl
skip_ws-stringify depth (boolean false) p = refl
skip_ws-stringify depth (number []) p = refl
skip_ws-stringify depth (number (c ∷ s)) p = ground (arith, parse_number-first c s (c ∷ s) [] p.1)
skip_ws-stringify depth (str s) p = refl
skip_ws-stringify depth (array items) p = refl
skip_ws-stringify depth (object f) p = refl
