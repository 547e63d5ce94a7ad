-- ===== src/Storage/Encoding.antt =====
-- src/storage/sqlite/mutation.rs and mod.rs: the text of receipts and of quoted columns, as bytes.
pub mod RoundTrip
use verdant.Base.{
  ℕ, ◌+◌, ◌*◌, ◌/◌, ◌%◌, Bool, true, false, not, ◌&&◌, ◌||◌, Option, none, some, List, [], ◌∷◌,
  ◌++◌, if◌then◌else◌, ltb, leb, nat_eq, map, all, any, length, Result, ok, err, ◌>>=◌, ◌>>◌,
  refuse_if, ensure, ok_or, ◌-◌,
}
use verdant.Base.Bytes.{Bytes, is_utf8, split, join}
use verdant.Storage.Mutation.{StorageError, sqlite_failure, invalid_record}

-- `{:X}` of a number below 16.
abbrev pub hex_digit : ℕ → ℕ
hex_digit n = if ltb n 10 then 48 + n else 55 + n

unfoldable pub hex : Bytes → Bytes
hex [] = []
hex (byte ∷ bytes) = hex_digit (byte / 16) ∷ hex_digit (byte % 16) ∷ hex bytes

-- `to_digit(16)`.
abbrev pub to_digit : ℕ → Option ℕ
to_digit c =
    if leb b'0' c && leb c b'9'
    then some (c - 48)
    else if leb b'A' c && leb c b'F'
    then some (c - 55)
    else if leb b'a' c && leb c b'f'
    then some (c - 87)
    else none

abbrev malformed : StorageError
malformed = sqlite_failure "malformed receipt hex"

-- The bytes of the pairs of digits; a last digit on its own is left out (`chunks_exact`).
unfoldable pub pairs : Bytes → Result StorageError Bytes
unfolding malformed
pairs (a ∷ b ∷ s) = do
  high ← ok_or (to_digit a) malformed
  low ← ok_or (to_digit b) malformed
  rest ← pairs s
  ok ((high * 16 + low) ∷ rest)
pairs _ = ok []

unfoldable pub unhex : Bytes → Result StorageError Bytes
unfolding malformed
unhex raw = do
  refuse_if (not (nat_eq (length raw % 2) 0) || not (all (λ b. ltb b 128) raw)) malformed
  bytes ← pairs raw
  ensure (is_utf8 bytes) (sqlite_failure "malformed receipt UTF-8")
  ok bytes

unfoldable pub encode_response : List (List Bytes) → Bytes
encode_response rows = join b';' (map (λ row. join b',' (map hex row)) rows)

abbrev pub collect_all :
    {A B : Type 0} → (A → Result StorageError B) → List A → Result StorageError (List B)
collect_all f [] = ok []
collect_all f (x ∷ xs) = do y ← f x; ys ← collect_all f xs; ok (y ∷ ys)

unfoldable pub decode_response : Bytes → Result StorageError (List (List Bytes))
decode_response [] = ok []
decode_response (c ∷ s) =
    collect_all (λ row. collect_all unhex (split b',' row)) (split b';' (c ∷ s))

-- A quotation mark is doubled.
unfoldable pub doubled : Bytes → Bytes
doubled [] = []
doubled (c ∷ s) = let rest = doubled s in if nat_eq c b'\'' then b'\'' ∷ b'\'' ∷ rest else c ∷ rest

unfoldable pub sql_quote : Bytes → Bytes
sql_quote raw = b'\'' ∷ (doubled raw ++ b'\'' ∷ [])

-- `replace("''", "'")`, which goes on behind each pair that it has replaced.
unfoldable pub undoubled : Bytes → Bytes
undoubled [] = []
undoubled (c ∷ []) = c ∷ []
undoubled (c ∷ d ∷ s) =
    let pair = undoubled s in
    let single = undoubled (d ∷ s) in
    if nat_eq c b'\'' && nat_eq d b'\'' then b'\'' ∷ pair else c ∷ single

-- The text before a last `c`.
unfoldable pub strip_suffix : ℕ → Bytes → Option Bytes
strip_suffix c [] = none
strip_suffix c (x ∷ []) = if nat_eq x c then some [] else none
strip_suffix c (x ∷ y ∷ s) = elim (strip_suffix c (y ∷ s)) [ none ↦ none | some p ↦ some (x ∷ p) ]

unfoldable pub strip_prefix : ℕ → Bytes → Option Bytes
strip_prefix c [] = none
strip_prefix c (x ∷ s) = if nat_eq x c then some s else none

abbrev pub is_null : Bytes → Bool
is_null (a ∷ b ∷ c ∷ d ∷ []) = nat_eq a b'N' && nat_eq b b'U' && nat_eq c b'L' && nat_eq d b'L'
is_null _ = false

abbrev pub and_then : {A B : Type 0} → Option A → (A → Option B) → Option B
and_then none f = none
and_then (some a) f = f a

unfoldable pub unquote_text : Bytes → Result StorageError (Option Bytes)
unfolding undoubled strip_suffix strip_prefix
unquote_text raw = if is_null raw then ok none else do
  inner ←
      ok_or (and_then (strip_prefix b'\'' raw) (strip_suffix b'\''))
        (invalid_record "quoted text malformed")
  ok (some (undoubled inner))
