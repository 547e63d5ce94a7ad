-- ===== src/Domain/Ids.antt =====
-- src/domain/ids.rs: the validation that every identity newtype of `define_id!` runs, and the
-- same check of boot identities in src/domain/clock.rs. A validated newtype is its text.
use Prim.Native.Char.{code}
use verdant.Base.{
  ℕ, ◌≤◌, ◌≡◌, ◌↔◌, Bool, true, false, ◌||◌, ◌&&◌, List, [], ◌∷◌, String, len, arith, ltb, leb,
  nat_eq, ◌==◌, string_partial_eq, all, Result, ok, ◌>>◌, ensure, refuse_if,
}
use verdant.Domain.Errors.{Error, empty, too_long, bad_chars}

abbrev pub max_id_len : ℕ
max_id_len = 128

-- The scalar values of a text's characters.
abbrev pub codes : String → List ℕ
codes String.[] = []
codes (String.◌∷◌ c s) = code c ∷ codes s

abbrev pub is_ascii_alphanumeric : ℕ → Bool
is_ascii_alphanumeric c =
    (leb b'0' c && leb c b'9') || (leb b'A' c && leb c b'Z') || (leb b'a' c && leb c b'z')

-- `c.is_ascii_alphanumeric() || matches!(c, '-' | '_' | '.' | ':' | '/')`
unfoldable pub is_id_char : ℕ → Bool
is_id_char c =
    is_ascii_alphanumeric c
    || nat_eq c b'-'
    || nat_eq c b'_'
    || nat_eq c b'.'
    || nat_eq c b':'
    || nat_eq c b'/'

unfoldable pub validate : String → String → Result Error (Unit {0})
validate kind raw = do
  refuse_if (raw == "") (empty kind)
  refuse_if (ltb max_id_len (len raw)) (too_long kind (len raw) max_id_len)
  ensure (all is_id_char (codes raw)) (bad_chars kind raw)

-- `parse` of the newtype called `kind`.
unfoldable pub parse : String → String → Result Error String
unfolding validate
parse kind raw = validate kind raw >> ok raw

-- A text is an identity: one to 128 bytes, all of them in the alphabet of identities.
pub record IsIdText (raw : String) : Type 0 where
  pub nonempty : (raw == "") ≡ false
  pub bounded : len raw ≤ max_id_len
  pub alphabet : all is_id_char (codes raw) ≡ true

-- Parsing an identity accepts exactly the texts of the grammar, and returns the text unchanged.
pub parse-IsIdText :
    (kind raw out : String) → (parse kind raw ≡ ok out) ↔ (IsIdText raw × (out ≡ raw))
unfolding parse
parse-IsIdText kind raw out = (
  λ h. (
    record { nonempty = ground arith; bounded = ground arith; alphabet = ground arith },
    ground arith,
  ),
  λ h. ground (arith, h.0.nonempty, h.0.bounded, h.0.alphabet, h.1),
)
