-- ===== src/Domain/Json/Strings.antt =====
-- src/domain/json.rs: the writing and reading of JSON strings, as bytes. The source pushes a character
-- of several bytes at once; its bytes are all above 127, so they are pushed here one by one.
use verdant.Base.{
  ℕ, zero, suc, ◌+◌, ◌-◌, ◌*◌, ◌/◌, ◌%◌, Bool, ◌&&◌, ◌||◌, Option, none, some, [], ◌∷◌, ◌++◌,
  String, if◌then◌else◌, ltb, leb, nat_eq, length, Result, ok, err, ◌>>=◌, ◌≡◌, arith, ap, sym, ◌∙◌,
}
use verdant.Base.Bytes.{Bytes}
use mathlib.Core.List.{append-nil, append_assoc}

-- `{:x}` of a number below 16.
abbrev pub lower_hex : ℕ → ℕ
lower_hex n = if ltb n 10 then 48 + n else 87 + n

unfoldable pub escape_byte : ℕ → Bytes
escape_byte c =
    if nat_eq c b'"'
    then b'\\' ∷ b'"' ∷ []
    else if nat_eq c b'\\'
    then b'\\' ∷ b'\\' ∷ []
    else if nat_eq c b'\n'
    then b'\\' ∷ b'n' ∷ []
    else if nat_eq c b'\r'
    then b'\\' ∷ b'r' ∷ []
    else if nat_eq c b'\t'
    then b'\\' ∷ b't' ∷ []
    else if ltb c 0x20
    then b'\\' ∷ b'u' ∷ b'0' ∷ b'0' ∷ lower_hex (c / 16) ∷ lower_hex (c % 16) ∷ []
    else c ∷ []

unfoldable pub escaped : Bytes → Bytes
escaped [] = []
escaped (c ∷ s) = escape_byte c ++ escaped s

unfoldable pub quote : Bytes → Bytes
quote raw = b'"' ∷ (escaped raw ++ b'"' ∷ [])

-- The bytes of `char::from_u32(code)` for a code of four hexadecimal digits.
unfoldable pub utf8_of : ℕ → Bytes
utf8_of code =
    if ltb code 0x80
    then code ∷ []
    else if ltb code 0x800
    then (0xc0 + code / 64) ∷ (0x80 + code % 64) ∷ []
    else (0xe0 + code / 4096) ∷ (0x80 + code / 64 % 64) ∷ (0x80 + code % 64) ∷ []

-- Where the parser is in a string: at a character, behind a backslash, or with digits of a `\u`
-- escape still to come, of which it has read a value.
pub data Mode : Type 0 where
  plain behind_backslash : Mode
  hex_digits : ℕ → ℕ → Mode

pub data Next : Type 0 where
  closes : Next
  goes : Mode → Bytes → Next
  fails : String → Next

abbrev pub hex_value : ℕ → Option ℕ
hex_value c =
    if leb b'0' c && leb c b'9'
    then some (c - 48)
    else if leb b'a' c && leb c b'f'
    then some (c - 87)
    else if leb b'A' c && leb c b'F'
    then some (c - 55)
    else none

abbrev simple_escape : ℕ → Option ℕ
simple_escape c =
    if nat_eq c b'"' || nat_eq c b'\\' || nat_eq c b'/'
    then some c
    else if nat_eq c b'b'
    then some 0x08
    else if nat_eq c b'f'
    then some 0x0c
    else if nat_eq c b'n'
    then some b'\n'
    else if nat_eq c b'r'
    then some b'\r'
    else if nat_eq c b't'
    then some b'\t'
    else none

abbrev is_surrogate : ℕ → Bool
is_surrogate code = leb 0xd800 code && ltb code 0xe000

abbrev after_digit : ℕ → Bytes → Option ℕ → Next
after_digit value out none = fails "invalid hex digit in \\u escape"
after_digit value out (some code) =
    if is_surrogate code
    then fails "unsupported \\u surrogate half"
    else goes plain (out ++ utf8_of code)

abbrev with_digit : ℕ → Option ℕ → Option ℕ
with_digit value none = none
with_digit value (some d) = some (value * 16 + d)

abbrev to_go : ℕ → Bytes → Option ℕ → Next
to_go left out none = fails "invalid hex digit in \\u escape"
to_go left out (some value) = goes (hex_digits left value) out

abbrev after_escape : Bytes → Option ℕ → Next
after_escape out none = fails "invalid escape"
after_escape out (some c) = goes plain (out ++ c ∷ [])

-- What the parser does with byte `c`, with `left` bytes behind it.
unfoldable pub next : Mode → ℕ → ℕ → Bytes → Next
unfolding utf8_of
next plain c left out =
    if nat_eq c b'"'
    then closes
    else if nat_eq c b'\\'
    then goes behind_backslash out
    else if ltb c 0x20
    then fails "unescaped control character in string"
    else goes plain (out ++ c ∷ [])
next behind_backslash c left out =
    if nat_eq c b'u'
    then (if ltb left 4 then fails "truncated \\u escape" else goes (hex_digits 3 0) out)
    else after_escape out (simple_escape c)
next (hex_digits zero value) c left out = after_digit value out (with_digit value (hex_value c))
next (hex_digits (suc k) value) c left out = to_go k out (with_digit value (hex_value c))

unfoldable pub at_end : Mode → String
at_end plain = "unterminated JSON string"
at_end behind_backslash = "unterminated escape"
at_end (hex_digits k value) = "truncated \\u escape"

-- The loop of `parse_string` behind the opening quote.
unfoldable pub string_loop : Mode → Bytes → Bytes → Result String (Bytes × Bytes)
unfolding next at_end
string_loop mode [] out = err (at_end mode)
string_loop mode (c ∷ s) out = elim (next mode c (length s) out) [
  | closes ↦ ok (out, s)
  | goes mode' out' ↦ string_loop mode' s out'
  | fails message ↦ err message
]

unfoldable pub parse_string : Bytes → Result String (Bytes × Bytes)
parse_string [] = err "expected '\"', got end of input"
parse_string (c ∷ s) = if nat_eq c b'"' then string_loop plain s [] else err "expected '\"'"

abbrev pub is_ws : ℕ → Bool
is_ws c = nat_eq c b' ' || nat_eq c b'\t' || nat_eq c b'\n' || nat_eq c b'\r'

unfoldable pub skip_ws : Bytes → Bytes
skip_ws [] = []
skip_ws (c ∷ s) = let rest = skip_ws s in if is_ws c then rest else c ∷ s

-- The value, when nothing but white space is behind it.
unfoldable pub finished : {A : Type 0} → String → A × Bytes → Result String A
unfolding skip_ws
finished message (a, rest) = elim (skip_ws rest) [ [] ↦ ok a | c ∷ s ↦ err message ]

unfoldable pub parse_string_literal : Bytes → Result String Bytes
unfolding skip_ws
parse_string_literal text = do
  read ← parse_string (skip_ws text)
  finished "trailing characters after JSON string" read

string_loop-escape_byte :
    (c : ℕ) (rest out : Bytes)
    → string_loop plain (escape_byte c ++ rest) out ≡ string_loop plain rest (out ++ c ∷ [])
unfolding string_loop escape_byte
string_loop-escape_byte c rest out = ground arith

string_loop-escaped :
    (s rest out : Bytes) → string_loop plain (escaped s ++ b'"' ∷ rest) out ≡ ok (out ++ s, rest)
unfolding string_loop escaped
string_loop-escaped [] rest out = ap (λ o. ok (o, rest)) (sym (append-nil out))
string_loop-escaped (c ∷ s) rest out =
    ap (λ l. string_loop plain l out) (append_assoc (escape_byte c) (escaped s) (b'"' ∷ rest))
    ∙ string_loop-escape_byte c (escaped s ++ b'"' ∷ rest) out
    ∙ string_loop-escaped s rest (out ++ c ∷ [])
    ∙ ap (λ o. ok (o, rest)) (append_assoc out (c ∷ []) s)

-- A quoted text is read back, whatever stands behind it.
pub parse_string-quote : (s rest : Bytes) → parse_string (quote s ++ rest) ≡ ok (s, rest)
unfolding parse_string quote
parse_string-quote s rest =
    ap (λ l. string_loop plain l []) (append_assoc (escaped s) (b'"' ∷ []) rest)
    ∙ string_loop-escaped s rest []

-- Every text is read back from its JSON string literal.
pub parse_string_literal-quote : (s : Bytes) → parse_string_literal (quote s) ≡ ok s
unfolding parse_string_literal quote finished
parse_string_literal-quote s =
    ap (λ l. parse_string l >>= finished "trailing characters after JSON string")
      (sym (append-nil (quote s)))
    ∙ ap (λ r. r >>= finished "trailing characters after JSON string") (parse_string-quote s [])
