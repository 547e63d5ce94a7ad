-- ===== src/Access/Descriptor/RoundTrip.antt =====
-- Reading back the text of an admission descriptor.
use verdant.Base.{
  ℕ, ◌+◌, ◌*◌, ◌/◌, ◌%◌, ◌<◌, ◌≡◌, ◌≢◌, ◌⊎◌, inl, inr, Bool, true, false, some, [], ◌∷◌, ◌++◌, map,
  ok, arith, refl, ◌∙◌, ap, sym, All, ◌==◌, list_partial_eq, nat_partial_eq, nat_eq, All-append,
  subst, not, all, ◌&&◌, ◌≤◌,
}
use verdant.Base.Bytes.{Bytes, is_utf8, is_utf8-bytes, join, split-join}
use verdant.Storage.Encoding.{hex_digit, to_digit}
use verdant.Storage.Encoding.RoundTrip.{to_digit-hex_digit}
use verdant.Access.Descriptor.{
  percent, escape, pct_encode, from_str_radix, plain, unescape, pct_decode, Fields, split_once,
  has_key, read_part, read_parts, split_descriptor, decode_descriptor, part_of, DescriptorText,
  bootstrap, issue, revoke, kind_of, fields_of, encode_descriptor,
}
use mathlib.Core.List.{append-nil, append_assoc}

-- A byte is printed as it is, or as its percent escape.
escape-cases :
    (b : ℕ) → b < 256 → (escape b ≡ percent b) ⊎ ((escape b ≡ b ∷ []) × (b ≢ b'%') × (b ≢ b';'))
unfolding escape
escape-cases b h = ground arith

unescape-plain : (b : ℕ) (s : Bytes) → b ≢ b'%' → unescape (b ∷ s) ≡ plain b (unescape s)
unfolding unescape
unescape-plain b [] h = ground arith
unescape-plain b (c ∷ []) h = ground arith
unescape-plain b (c ∷ d ∷ s) h = ground arith

ascii-is_utf8 : (h l : ℕ) → h < 128 → l < 128 → is_utf8 (h ∷ l ∷ []) ≡ true
unfolding is_utf8
ascii-is_utf8 h l p q = ground arith

hex_digit_small :
    (n : ℕ) → n < 16 → (hex_digit n < 128) × (hex_digit n ≢ b'+') × (hex_digit n ≢ b';')
hex_digit_small n h = (ground arith, (λ e. ground arith), (λ e. ground arith))

from_str_radix-digits :
    (h l : ℕ) (x y : ℕ)
    → h ≢ b'+'
    → to_digit h ≡ some x
    → to_digit l ≡ some y
    → from_str_radix h l ≡ some (x * 16 + y)
unfolding from_str_radix
from_str_radix-digits h l x y plus e f =
    let other : nat_eq h b'+' ≡ false = ground arith in rw (other, e, f) refl

from_str_radix-hex :
    (b : ℕ) → b < 256 → from_str_radix (hex_digit (b / 16)) (hex_digit (b % 16)) ≡ some b
from_str_radix-hex b h =
    let high : b / 16 < 16 = omega arith in
    let low : b % 16 < 16 = omega arith in
    let whole : b / 16 * 16 + b % 16 ≡ b = omega arith in
    from_str_radix-digits (hex_digit (b / 16)) (hex_digit (b % 16)) (b / 16) (b % 16)
      (hex_digit_small (b / 16) high).1 (to_digit-hex_digit (b / 16) high)
      (to_digit-hex_digit (b % 16) low)
    ∙ ap some whole

unescape-percent : (b : ℕ) (s : Bytes) → b < 256 → unescape (percent b ++ s) ≡ plain b (unescape s)
unfolding unescape
unescape-percent b s h =
    let high = hex_digit_small (b / 16) (omega arith) in
    let low = hex_digit_small (b % 16) (omega arith) in
    rw
      (ascii-is_utf8 (hex_digit (b / 16)) (hex_digit (b % 16)) high.0 low.0, from_str_radix-hex b h)
      refl

unescape-escape : (b : ℕ) (s : Bytes) → b < 256 → unescape (escape b ++ s) ≡ plain b (unescape s)
unescape-escape b s h = elim (escape-cases b h) [
  | inl coded ↦ rw coded (unescape-percent b s h)
  | inr (itself, single, whole) ↦ rw itself (unescape-plain b s single)
]

unescape-pct_encode : (s : Bytes) → All (λ b. b < 256) s → unescape (pct_encode s) ≡ ok s
unfolding pct_encode
unescape-pct_encode [] h = unfold unescape in refl
unescape-pct_encode (b ∷ s) h =
    unescape-escape b (pct_encode s) h.0 ∙ rw (unescape-pct_encode s h.1) refl

pct_decode-pct_encode : (s : Bytes) → is_utf8 s ≡ true → pct_decode (pct_encode s) ≡ ok s
unfolding pct_decode
pct_decode-pct_encode s h = rw (unescape-pct_encode s (is_utf8-bytes s h), h) refl

-- A printed number is its own escape.
pct_encode-digits : (s : Bytes) → All (λ c. (b'0' ≤ c) × (c ≤ b'9')) s → pct_encode s ≡ s
unfolding pct_encode escape
pct_encode-digits [] h = refl
pct_encode-digits (c ∷ s) h = ground (arith, h.0.0, h.0.1, pct_encode-digits s h.1)

-- No escape holds a semicolon.
abbrev Unsplit : Bytes → Type 0
Unsplit = All (λ c. c ≢ b';')

Unsplit-append : (s t : Bytes) → Unsplit s → Unsplit t → Unsplit (s ++ t)
Unsplit-append = All-append (λ c. c ≢ b';')

percent-Unsplit : (b : ℕ) → b < 256 → Unsplit (percent b)
percent-Unsplit b h = (
  (λ e. ground arith),
  ((hex_digit_small (b / 16) (omega arith)).2, ((hex_digit_small (b % 16) (omega arith)).2, tt)),
)

pct_encode-Unsplit : (s : Bytes) → All (λ b. b < 256) s → Unsplit (pct_encode s)
unfolding pct_encode
pct_encode-Unsplit [] h = tt
pct_encode-Unsplit (b ∷ s) h =
    Unsplit-append (escape b) (pct_encode s)
      (elim (escape-cases b h.0) [
        | inl coded ↦ subst Unsplit (sym coded) (percent-Unsplit b h.0)
        | inr (itself, single, whole) ↦ subst Unsplit (sym itself) ((whole, tt))
      ])
      (pct_encode-Unsplit s h.1)

-- A key is not empty, and holds neither separator.
abbrev IsKey : Bytes → Type 0
IsKey key = (key == [] ≡ false) × (Unsplit key × All (λ c. c ≢ b'=') key)

split_once-append :
    (key s : Bytes) → All (λ c. c ≢ b'=') key → split_once (key ++ b'=' ∷ s) ≡ some (key, s)
unfolding split_once
split_once-append [] s h = ground arith
split_once-append (c ∷ key) s h = ground (arith, h.0, split_once-append key s h.1)

read_part-part_of :
    (fields : Fields) (key value : Bytes)
    → IsKey key
    → is_utf8 value ≡ true
    → has_key key fields ≡ false
    → read_part fields (part_of (key, value)) ≡ ok (fields ++ (key, value) ∷ [])
unfolding read_part
read_part-part_of fields key value k text fresh =
    rw
      (split_once-append key (pct_encode value) k.1.1, k.0, pct_decode-pct_encode value text, fresh)
      refl

-- Each field has a key of its own, and a text.
abbrev IsFields : Fields → Fields → Type 0
IsFields fields [] = Unit
IsFields fields ((key, value) ∷ more) =
    IsKey key
    × (is_utf8 value ≡ true)
    × (has_key key fields ≡ false)
    × IsFields (fields ++ (key, value) ∷ []) more

read_parts-map :
    (fields more : Fields)
    → IsFields fields more
    → read_parts fields (map part_of more) ≡ ok (fields ++ more)
unfolding read_parts
read_parts-map fields [] h = ap ok (sym (append-nil fields))
read_parts-map fields ((key, value) ∷ more) h =
    rw (read_part-part_of fields key value h.0 h.1 h.2) (
      read_parts-map (fields ++ (key, value) ∷ []) more h.3
      ∙ ap ok (append_assoc fields ((key, value) ∷ []) more))

parts-Unsplit : (fields more : Fields) → IsFields fields more → All Unsplit (map part_of more)
parts-Unsplit fields [] h = tt
parts-Unsplit fields ((key, value) ∷ more) h = (
  Unsplit-append key (b'=' ∷ pct_encode value) h.0.1.0
      (((λ e. ground arith), pct_encode-Unsplit value (is_utf8-bytes value h.1))),
  parts-Unsplit (fields ++ (key, value) ∷ []) more h.3,
)

split_descriptor-join :
    (field : Bytes × Bytes) (more : Fields)
    → IsFields [] (field ∷ more)
    → split_descriptor (join b';' (map part_of (field ∷ more))) ≡ ok (field ∷ more)
unfolding split_descriptor
split_descriptor-join field more h =
    rw (split-join b';' (part_of field) (map part_of more) (parts-Unsplit [] (field ∷ more) h))
      (read_parts-map [] (field ∷ more) h)

-- The texts of a row are UTF-8.
abbrev pub IsText : DescriptorText → Type 0
IsText d = All (λ f. is_utf8 f.1 ≡ true) (fields_of d)

abbrev is_key_char : ℕ → Bool
is_key_char c = not (nat_eq c b';') && not (nat_eq c b'=')

all-Lacks : (key : Bytes) → all is_key_char key ≡ true → Unsplit key × All (λ c. c ≢ b'=') key
all-Lacks [] h = (tt, tt)
all-Lacks (c ∷ key) h =
    let rest = all-Lacks key (ground arith) in
    (((λ e. ground arith), rest.0), ((λ e. ground arith), rest.1))

-- The same of the keys alone, as a test.
abbrev distinct : Fields → Fields → Bool
distinct seen [] = true
distinct seen ((key, value) ∷ more) =
    let rest = distinct (seen ++ (key, value) ∷ []) more in
    not (key == []) && all is_key_char key && not (has_key key seen) && rest

distinct-IsFields :
    (seen more : Fields)
    → distinct seen more ≡ true
    → All (λ f. is_utf8 f.1 ≡ true) more
    → IsFields seen more
distinct-IsFields seen [] h texts = tt
distinct-IsFields seen ((key, value) ∷ more) h texts = (
  (ground arith, all-Lacks key (ground arith)),
  texts.0,
  ground arith,
  distinct-IsFields (seen ++ (key, value) ∷ []) more (ground arith) texts.1,
)

split_descriptor-fields :
    (fields : Fields)
    → fields ≢ []
    → IsFields [] fields
    → split_descriptor (join b';' (map part_of fields)) ≡ ok fields
split_descriptor-fields [] some_field h = absurd (some_field refl)
split_descriptor-fields (f ∷ more) some_field h = split_descriptor-join f more h

distinct-fields_of : (d : DescriptorText) → distinct [] (fields_of d) ≡ true
unfolding fields_of
distinct-fields_of (revoke cap key capgen issuer reason) = refl
distinct-fields_of (bootstrap user issuer reason generation) = refl
distinct-fields_of
      (issue cap scope ceiling role key keyfp issuer capgen user reason label admin scopes
        expires) =
    refl

fields_of-ne-nil : (d : DescriptorText) → fields_of d ≢ []
unfolding fields_of
fields_of-ne-nil (revoke cap key capgen issuer reason) e = cc
fields_of-ne-nil (bootstrap user issuer reason generation) e = cc
fields_of-ne-nil
      (issue cap scope ceiling role key keyfp issuer capgen user reason label admin scopes expires)
      e =
    cc

split_descriptor-encode_descriptor :
    (d : DescriptorText) → IsText d → split_descriptor (encode_descriptor d) ≡ ok (fields_of d)
unfolding encode_descriptor
split_descriptor-encode_descriptor d h =
    split_descriptor-fields (fields_of d) (fields_of-ne-nil d)
      (distinct-IsFields [] (fields_of d) (distinct-fields_of d) h)

-- The text of a descriptor of any kind is read back as its kind and its fields, each with its key, in
-- their order, given that the texts are UTF-8.
pub decode_descriptor-encode_descriptor :
    (d : DescriptorText)
    → IsText d
    → decode_descriptor (encode_descriptor d) ≡ ok (kind_of d, fields_of d)
unfolding decode_descriptor fields_of
decode_descriptor-encode_descriptor (revoke cap key capgen issuer reason) h =
    rw (split_descriptor-encode_descriptor (revoke cap key capgen issuer reason) h) refl
decode_descriptor-encode_descriptor (bootstrap user issuer reason generation) h =
    rw (split_descriptor-encode_descriptor (bootstrap user issuer reason generation) h) refl
decode_descriptor-encode_descriptor
      (issue cap scope ceiling role key keyfp issuer capgen user reason label admin scopes expires)
      h =
    rw
      (split_descriptor-encode_descriptor
        (issue cap scope ceiling role key keyfp issuer capgen user reason label admin scopes
          expires)
        h)
      refl
