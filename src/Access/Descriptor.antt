-- ===== src/Access/Descriptor.antt =====
-- The text of an admission descriptor (src/access/mod.rs), as bytes: its percent escapes, its framing by
-- `;` and `=`, and the fields that each kind allows. A map of fields is its entries as they are read.
pub mod RoundTrip
use verdant.Base.{
  ℕ, ◌+◌, ◌*◌, ◌/◌, ◌%◌, ◌-◌, Bool, true, false, not, ◌&&◌, ◌||◌, Option, none, some, List, [], ◌∷◌,
  ◌++◌, if◌then◌else◌, ltb, leb, nat_eq, map, all, any, Result, ok, err, ◌>>=◌, ◌>>◌, refuse_if,
  ensure, ok_or, ◌==◌, list_partial_eq, nat_partial_eq, String,
}
use verdant.Base.Bytes.{Bytes, is_utf8, split, join}
use verdant.Domain.Ids.{codes}
use verdant.Storage.Encoding.{hex_digit, to_digit}
use verdant.Access.{AccessError, invalid_record}

-- `%{b:02X}`.
abbrev pub percent : ℕ → Bytes
percent b = b'%' ∷ hex_digit (b / 16) ∷ hex_digit (b % 16) ∷ []

unfoldable pub escape : ℕ → Bytes
escape b =
    if nat_eq b b'%'
    then codes "%25"
    else if nat_eq b b';'
    then codes "%3B"
    else if nat_eq b b'='
    then codes "%3D"
    else if nat_eq b 0x0a
    then codes "%0A"
    else if nat_eq b 0x0d
    then codes "%0D"
    else if nat_eq b 0x1f
    then codes "%1F"
    else if leb 0x20 b && leb b 0x7e
    then b ∷ []
    else percent b

unfoldable pub pct_encode : Bytes → Bytes
pct_encode [] = []
pct_encode (b ∷ raw) = escape b ++ pct_encode raw

abbrev pub two_digits : Option ℕ → Option ℕ → Option ℕ
two_digits (some high) (some low) = some (high * 16 + low)
two_digits _ _ = none

-- `u8::from_str_radix` of two digits, which takes a sign for the first.
unfoldable pub from_str_radix : ℕ → ℕ → Option ℕ
from_str_radix h l = if nat_eq h b'+' then to_digit l else two_digits (to_digit h) (to_digit l)

abbrev bad_escape : AccessError
bad_escape = invalid_record "invalid percent escape"

abbrev pub pct_escaped : ℕ → ℕ → Result AccessError Bytes → Result AccessError Bytes
pct_escaped h l decoded = do
  ensure (is_utf8 (h ∷ l ∷ [])) bad_escape
  byte ← ok_or (from_str_radix h l) bad_escape
  rest ← decoded
  ok (byte ∷ rest)

abbrev pub plain : ℕ → Result AccessError Bytes → Result AccessError Bytes
plain b decoded = do rest ← decoded; ok (b ∷ rest)

abbrev truncated : Result AccessError Bytes
truncated = err (invalid_record "truncated percent escape")

-- The loop of `pct_decode`.
unfoldable pub unescape : Bytes → Result AccessError Bytes
unescape [] = ok []
unescape (b ∷ []) = if nat_eq b b'%' then truncated else ok (b ∷ [])
unescape (b ∷ c ∷ []) =
    let rest = plain b (unescape (c ∷ [])) in if nat_eq b b'%' then truncated else rest
unescape (b ∷ h ∷ l ∷ s) =
    let behind = pct_escaped h l (unescape s) in
    let rest = plain b (unescape (h ∷ l ∷ s)) in if nat_eq b b'%' then behind else rest

unfoldable pub pct_decode : Bytes → Result AccessError Bytes
unfolding unescape
pct_decode raw = do
  out ← unescape raw
  ensure (is_utf8 out) (invalid_record "admission field is not valid UTF-8")
  ok out

abbrev pub Fields : Type 0
Fields = List (Bytes × Bytes)

abbrev pub before_more : ℕ → Option (Bytes × Bytes) → Option (Bytes × Bytes)
before_more c none = none
before_more c (some (key, rest)) = some (c ∷ key, rest)

-- `find('=')`, and the text on its two sides.
unfoldable pub split_once : Bytes → Option (Bytes × Bytes)
split_once [] = none
split_once (c ∷ s) =
    let rest = before_more c (split_once s) in if nat_eq c b'=' then some ([], s) else rest

abbrev pub has_key : Bytes → Fields → Bool
has_key key fields = any (λ f. f.0 == key) fields

unfoldable pub read_part : Fields → Bytes → Result AccessError Fields
unfolding split_once
read_part fields part = do
  sides ← ok_or (split_once part) (invalid_record "admission descriptor part without '='")
  refuse_if (sides.0 == []) (invalid_record "admission descriptor has an empty key")
  value ← pct_decode sides.1
  refuse_if (has_key sides.0 fields) (invalid_record "admission descriptor duplicates key")
  ok (fields ++ (sides.0, value) ∷ [])

unfoldable pub read_parts : Fields → List Bytes → Result AccessError Fields
read_parts fields [] = ok fields
read_parts fields (part ∷ parts) = read_part fields part >>= λ next. read_parts next parts

unfoldable pub split_descriptor : Bytes → Result AccessError Fields
unfolding read_parts
split_descriptor raw = read_parts [] (split b';' raw)

unfoldable pub field_of : Bytes → Fields → Option Bytes
field_of key [] = none
field_of key ((k, v) ∷ fields) = let rest = field_of key fields in if k == key then some v else rest

unfoldable pub require_field : Fields → Bytes → Result AccessError Bytes
unfolding field_of
require_field fields key =
    ok_or (field_of key fields) (invalid_record "admission descriptor missing field")

unfoldable pub reject_unknown_fields : Fields → List Bytes → Result AccessError (Unit {0})
reject_unknown_fields fields allowed =
    ensure (all (λ f. any (λ k. k == f.0) allowed) fields)
      (invalid_record "admission descriptor has unexpected field")

abbrev pub bootstrap_keys : List Bytes
bootstrap_keys = map codes ("v" ∷ "kind" ∷ "user" ∷ "issuer" ∷ "reason" ∷ "generation" ∷ [])

abbrev pub issue_keys : List Bytes
issue_keys = map codes (
    "v" ∷ "kind" ∷ "cap" ∷ "scope" ∷ "ceiling" ∷ "role" ∷ "key" ∷ "keyfp" ∷ "issuer" ∷ "capgen"
    ∷ "user" ∷ "reason" ∷ "label" ∷ "admin" ∷ "scopes" ∷ "expires" ∷ [])

abbrev pub revoke_keys : List Bytes
revoke_keys = map codes ("v" ∷ "kind" ∷ "cap" ∷ "key" ∷ "capgen" ∷ "issuer" ∷ "reason" ∷ [])

-- The fields that a kind allows.
unfoldable pub allowed_keys : Bytes → Option (List Bytes)
allowed_keys kind =
    if kind == codes "bootstrap"
    then some bootstrap_keys
    else if kind == codes "issue"
    then some issue_keys
    else if kind == codes "revoke"
    then some revoke_keys
    else none

unfoldable pub decode_descriptor : Bytes → Result AccessError (Bytes × Fields)
unfolding split_descriptor require_field allowed_keys reject_unknown_fields
decode_descriptor raw = do
  fields ← split_descriptor raw
  version ← require_field fields (codes "v")
  ensure (version == codes "2") (invalid_record "unsupported admission descriptor version")
  kind ← require_field fields (codes "kind")
  allowed ← ok_or (allowed_keys kind) (invalid_record "unknown admission kind")
  reject_unknown_fields fields allowed
  ok (kind, fields)

-- `key=value` of a text, whose value is escaped; the numbers of a row are printed, and need no escape.
abbrev pub part_of : Bytes × Bytes → Bytes
part_of (key, value) = key ++ b'=' ∷ pct_encode value

-- The texts of a row, as `encode_bootstrap`, `encode_issue` and `encode_revoke` print them.
pub data DescriptorText : Type 0 where
  bootstrap : Bytes → Bytes → Bytes → Bytes → DescriptorText
  issue :
      Bytes
      → Bytes
      → Bytes
      → Bytes
      → Bytes
      → Bytes
      → Bytes
      → Bytes
      → Bytes
      → Bytes
      → Bytes
      → Bytes
      → Bytes
      → Bytes
      → DescriptorText
  revoke : Bytes → Bytes → Bytes → Bytes → Bytes → DescriptorText

abbrev pub kind_of : DescriptorText → Bytes
kind_of (bootstrap user issuer reason generation) = codes "bootstrap"
kind_of
      (issue cap scope ceiling role key keyfp issuer capgen user reason label admin scopes
        expires) =
    codes "issue"
kind_of (revoke cap key capgen issuer reason) = codes "revoke"

abbrev named : String → Bytes → Bytes × Bytes
named key value = (codes key, value)

unfoldable pub fields_of : DescriptorText → Fields
fields_of (bootstrap user issuer reason generation) =
    named "v" (codes "2")
    ∷ named "kind" (codes "bootstrap")
    ∷ named "user" user
    ∷ named "issuer" issuer
    ∷ named "reason" reason
    ∷ named "generation" generation
    ∷ []
fields_of
      (issue cap scope ceiling role key keyfp issuer capgen user reason label admin scopes
        expires) =
    named "v" (codes "2")
    ∷ named "kind" (codes "issue")
    ∷ named "cap" cap
    ∷ named "scope" scope
    ∷ named "ceiling" ceiling
    ∷ named "role" role
    ∷ named "key" key
    ∷ named "keyfp" keyfp
    ∷ named "issuer" issuer
    ∷ named "capgen" capgen
    ∷ named "user" user
    ∷ named "reason" reason
    ∷ named "label" label
    ∷ named "admin" admin
    ∷ named "scopes" scopes
    ∷ named "expires" expires
    ∷ []
fields_of (revoke cap key capgen issuer reason) =
    named "v" (codes "2")
    ∷ named "kind" (codes "revoke")
    ∷ named "cap" cap
    ∷ named "key" key
    ∷ named "capgen" capgen
    ∷ named "issuer" issuer
    ∷ named "reason" reason
    ∷ []

-- The source prints a number as it is: its digits are their own escapes.
unfoldable pub encode_descriptor : DescriptorText → Bytes
unfolding fields_of
encode_descriptor d = join b';' (map part_of (fields_of d))
