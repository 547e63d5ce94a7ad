-- ===== src/Storage/Encoding/RoundTrip.antt =====
-- The round trips of the texts of src/storage/sqlite.
use verdant.Storage.Encoding.{
  hex_digit, hex, to_digit, pairs, unhex, encode_response, decode_response, collect_all, doubled,
  sql_quote, undoubled, strip_suffix, strip_prefix, unquote_text,
}
use verdant.Storage.Mutation.{StorageError}
use verdant.Base.{
  ℕ, all, ltb, length, ◌<◌, ◌≡◌, All, some, ok, true, ◌∷◌, ◌*◌, arith, ◌≢◌, ◌/◌, ◌%◌, Result, [],
  refl, nat_eq_iff, List, map, All-mono, ap, ◌∙◌, All-append, ◌↔◌, subst, ◌++◌,
}
use mathlib.Core.List.{cons-ne-nil}
use verdant.Base.Bytes.{Bytes, is_utf8, join, split, is_utf8-bytes, split-join}

pub to_digit-hex_digit : (n : ℕ) → n < 16 → to_digit (hex_digit n) ≡ some n
to_digit-hex_digit n h = ground arith

pairs-hex : (s : Bytes) → All (λ b. b < 256) s → pairs (hex s) ≡ ok s
unfolding pairs hex
pairs-hex [] h = refl
pairs-hex (b ∷ s) h = ground (
  arith,
  h.0,
  to_digit-hex_digit (b / 16) (omega (arith, h.0)),
  to_digit-hex_digit (b % 16) (omega (arith, h.0)),
  pairs-hex s h.1,
)

-- A digit is ASCII and neither of the separators.
abbrev IsDigit : ℕ → Type 0
IsDigit c = (ltb c 128 ≡ true) × (c ≢ b',') × (c ≢ b';')

hex_digit-IsDigit : (n : ℕ) → n < 16 → IsDigit (hex_digit n)
hex_digit-IsDigit n h = (ground arith, (λ e. ground arith), (λ e. ground arith))

hex-IsDigit : (s : Bytes) → All (λ b. b < 256) s → All IsDigit (hex s)
unfolding hex
hex-IsDigit [] h = tt
hex-IsDigit (b ∷ s) h = (
  hex_digit-IsDigit (b / 16) (omega (arith, h.0)),
  (hex_digit-IsDigit (b % 16) (omega arith), hex-IsDigit s h.1),
)

length-hex : (s : Bytes) → length (hex s) ≡ 2 * length s
unfolding hex
length-hex [] = refl
length-hex (b ∷ s) = omega (arith, length-hex s)

all-IsDigit : (s : Bytes) → All IsDigit s → all (λ b. ltb b 128) s ≡ true
all-IsDigit [] h = refl
all-IsDigit (c ∷ s) h = ground (arith, h.0.0, all-IsDigit s h.1)

even : (n : ℕ) → 2 * n % 2 ≡ 0
even n = omega arith

unhex-hex : (s : Bytes) → is_utf8 s ≡ true → unhex (hex s) ≡ ok s
unfolding unhex
unhex-hex s h =
    let small = is_utf8-bytes s h in
    ground (
      arith,
      h,
      pairs-hex s small,
      all-IsDigit (hex s) (hex-IsDigit s small),
      length-hex s,
      nat_eq_iff (length (hex s) % 2) 0,
      even (length s),
    )

-- A row as the store answers it: at least one column, each of them text.
abbrev pub IsRow : List Bytes → Type 0
IsRow row = (row ≢ []) × All (λ cell. is_utf8 cell ≡ true) row

hex-Lacks :
    (row : List Bytes)
    → All (λ cell. is_utf8 cell ≡ true) row
    → All (All (λ c. c ≢ b',')) (map hex row)
hex-Lacks [] h = tt
hex-Lacks (cell ∷ row) h = (
  All-mono (λ c d. d.1) (hex cell) (hex-IsDigit cell (is_utf8-bytes cell h.0)),
  hex-Lacks row h.1,
)

row-Lacks :
    (row : List Bytes)
    → All (λ cell. is_utf8 cell ≡ true) row
    → All (λ c. c ≢ b';') (join b',' (map hex row))
unfolding join
row-Lacks [] h = tt
row-Lacks (cell ∷ []) h =
    All-mono (λ c d. d.2) (hex cell) (hex-IsDigit cell (is_utf8-bytes cell h.0))
row-Lacks (cell ∷ next ∷ row) h =
    All-append _ (hex cell) (b',' ∷ join b',' (map hex (next ∷ row)))
      (All-mono (λ c d. d.2) (hex cell) (hex-IsDigit cell (is_utf8-bytes cell h.0)))
      ((λ e. omega (arith, e)), row-Lacks (next ∷ row) h.1)

collect-hex :
    (row : List Bytes)
    → All (λ cell. is_utf8 cell ≡ true) row
    → collect_all unhex (map hex row) ≡ ok row
collect-hex [] h = refl
collect-hex (cell ∷ row) h = ground (arith, unhex-hex cell h.0, collect-hex row h.1)

decode_row-encode :
    (row : List Bytes)
    → IsRow row
    → collect_all unhex (split b',' (join b',' (map hex row))) ≡ ok row
decode_row-encode [] h = absurd (h.0 refl)
decode_row-encode (cell ∷ row) h =
    ap (collect_all unhex) (split-join b',' (hex cell) (map hex row) (hex-Lacks (cell ∷ row) h.1))
    ∙ collect-hex (cell ∷ row) h.1

abbrev row_text : List Bytes → Bytes
row_text row = join b',' (map hex row)

abbrev row_of_text : Bytes → Result StorageError (List Bytes)
row_of_text text = collect_all unhex (split b',' text)

collect_rows :
    (rows : List (List Bytes))
    → All IsRow rows
    → collect_all row_of_text (map row_text rows) ≡ ok rows
collect_rows [] h = refl
collect_rows (row ∷ rows) h = ground (arith, decode_row-encode row h.0, collect_rows rows h.1)

rows-Lack :
    (rows : List (List Bytes)) → All IsRow rows → All (All (λ c. c ≢ b';')) (map row_text rows)
rows-Lack [] h = tt
rows-Lack (row ∷ rows) h = (row-Lacks row h.0.1, rows-Lack rows h.1)

-- Text that is not empty is split into its rows.
decode_nonempty : (s : Bytes) → s ≢ [] → decode_response s ≡ collect_all row_of_text (split b';' s)
unfolding decode_response
decode_nonempty [] h = absurd (h refl)
decode_nonempty (c ∷ s) h = refl

-- Only the response of one row of one empty cell is written as no text.
encode-nonempty :
    (rows : List (List Bytes))
    → All IsRow rows
    → rows ≢ []
    → rows ≢ ([] ∷ []) ∷ []
    → encode_response rows ≢ []
unfolding encode_response join hex
encode-nonempty [] h ne single e = ne refl
encode-nonempty ([] ∷ rows) h ne single e = h.0.0 refl
encode-nonempty (([] ∷ []) ∷ []) h ne single e = single refl
encode-nonempty (((b ∷ cell) ∷ []) ∷ []) h ne single e = cc
encode-nonempty (([] ∷ d ∷ row) ∷ []) h ne single e = cc
encode-nonempty (((b ∷ cell) ∷ d ∷ row) ∷ []) h ne single e = cc
encode-nonempty (([] ∷ []) ∷ q ∷ rows) h ne single e = cc
encode-nonempty (((b ∷ cell) ∷ []) ∷ q ∷ rows) h ne single e = cc
encode-nonempty (([] ∷ d ∷ row) ∷ q ∷ rows) h ne single e = cc
encode-nonempty (((b ∷ cell) ∷ d ∷ row) ∷ q ∷ rows) h ne single e = cc

decode-encode :
    (rows : List (List Bytes))
    → All IsRow rows
    → rows ≢ ([] ∷ []) ∷ []
    → decode_response (encode_response rows) ≡ ok rows
unfolding encode_response decode_response join
decode-encode [] h single = refl
decode-encode (row ∷ rows) h single =
    decode_nonempty _ (encode-nonempty (row ∷ rows) h (cons-ne-nil row rows) single)
    ∙ ap (collect_all row_of_text)
        (split-join b';' (row_text row) (map row_text rows) (rows-Lack (row ∷ rows) h))
    ∙ collect_rows (row ∷ rows) h

abbrev no_rows : Result StorageError (List (List Bytes))
no_rows = ok []

ok_rows-ne-nil : (row : List Bytes) (rows : List (List Bytes)) → no_rows ≡ ok (row ∷ rows) → ⊥
unfolding no_rows
ok_rows-ne-nil row rows e = cc

-- A response of rows that each have a column, all of them text, is read back from its receipt exactly
-- when it is not the one row of one empty text.
pub decode_response_iff :
    (rows : List (List Bytes))
    → All IsRow rows
    → (decode_response (encode_response rows) ≡ ok rows) ↔ (rows ≢ ([] ∷ []) ∷ [])
unfolding encode_response decode_response join no_rows hex
decode_response_iff rows h = (
  (λ e same.
      ok_rows-ne-nil ([] ∷ []) [] (subst (λ r. decode_response (encode_response r) ≡ ok r) same e)),
  decode-encode rows h,
)

strip_suffix-append : (c : ℕ) (s : Bytes) → strip_suffix c (s ++ c ∷ []) ≡ some s
unfolding strip_suffix
strip_suffix-append c [] = ground arith
strip_suffix-append c (x ∷ []) = ground (arith, strip_suffix-append c [])
strip_suffix-append c (x ∷ y ∷ s) = ground (arith, strip_suffix-append c (y ∷ s))

undoubled-cons : (c : ℕ) (s : Bytes) → c ≢ b'\'' → undoubled (c ∷ s) ≡ c ∷ undoubled s
unfolding undoubled
undoubled-cons c [] h = refl
undoubled-cons c (d ∷ s) h = ground (arith, h)

undoubled-doubled : (s : Bytes) → undoubled (doubled s) ≡ s
unfolding doubled undoubled
undoubled-doubled [] = refl
undoubled-doubled (c ∷ s) = ground (arith, undoubled-doubled s, undoubled-cons c (doubled s))

-- Every text survives being quoted for SQL and unquoted from the answer.
pub unquote_text-sql_quote : (s : Bytes) → unquote_text (sql_quote s) ≡ ok (some s)
unfolding unquote_text sql_quote strip_prefix
unquote_text-sql_quote s =
    ground (arith, strip_suffix-append b'\'' (doubled s), undoubled-doubled s)
