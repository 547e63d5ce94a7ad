-- ===== src/Domain/Json/Progress.antt =====
-- The scalars of src/domain/json.rs: how much of the text a reader leaves.
use verdant.Base.{
  ℕ, suc, ◌+◌, ◌≤◌, ◌<◌, [], ◌∷◌, ◌≡◌, length, ok, err, arith, ◌>>=◌, String, refl, subst, nat_eq,
  ◌||◌, Result, some, Option, map_err, none, Bool, if◌then◌else◌, true, false,
}
use verdant.Base.Bytes.{Bytes}
use verdant.Domain.Json.Strings.{
  Mode, plain, Next, closes, goes, fails, next, string_loop, parse_string, skip_ws,
}
use verdant.Domain.Json.{
  JsonVal, refuses, out_of_fuel, Parsed, digits, some_digits, some_digits_of, sign, prefixed,
  fraction, exponent, exponent_sign, parse_number, strip_word, literal_of, parse_literal, wrapped,
  read_string, parse_scalar, str, boolean, null, is_digit, number,
}

module _ {A : Type 0} where
  -- An answer that leaves fewer than `n` bytes, or a refusal.
  abbrev pub IsWithin : ℕ → Parsed A → Type 0
  IsWithin n (ok (a, rest)) = length rest < n
  IsWithin n (err (refuses message)) = Unit
  IsWithin n (err out_of_fuel) = ⊥

  pub IsWithin-mono : (n k : ℕ) (r : Parsed A) → n ≤ k → IsWithin n r → IsWithin k r
  IsWithin-mono n k (ok (a, rest)) le h = omega (arith, le, h)
  IsWithin-mono n k (err (refuses message)) le h = tt
  IsWithin-mono n k (err out_of_fuel) le h = h

pub bind-IsWithin :
    {A B : Type 0} (n k : ℕ) (m : Parsed A) (f : A × Bytes → Parsed B)
    → IsWithin n m
    → ((a : A) (rest : Bytes) → length rest < n → IsWithin k (f (a, rest)))
    → IsWithin k (m >>= f)
bind-IsWithin n k (ok (a, rest)) f h keep = keep a rest h
bind-IsWithin n k (err (refuses message)) f h keep = tt
bind-IsWithin n k (err out_of_fuel) f h keep = h

pub if-IsWithin :
    {A : Type 0} (n : ℕ) (b : Bool) (x y : Parsed A)
    → IsWithin n x
    → IsWithin n y
    → IsWithin n (if b then x else y)
if-IsWithin n true x y h k = h
if-IsWithin n false x y h k = k

pub wrapped-IsWithin :
    {A B : Type 0} (n : ℕ) (f : A → B) (r : Parsed A) → IsWithin n r → IsWithin n (wrapped f r)
wrapped-IsWithin n f (ok (a, rest)) h = h
wrapped-IsWithin n f (err (refuses message)) h = tt
wrapped-IsWithin n f (err out_of_fuel) h = h

prefixed-IsWithin :
    (n : ℕ) (p : Bytes) (r : Parsed Bytes) → IsWithin n r → IsWithin n (prefixed p r)
prefixed-IsWithin n p (ok (a, rest)) h = h
prefixed-IsWithin n p (err (refuses message)) h = tt
prefixed-IsWithin n p (err out_of_fuel) h = h

pub length-skip_ws : (s : Bytes) → length (skip_ws s) ≤ length s
unfolding skip_ws
length-skip_ws [] = omega arith
length-skip_ws (c ∷ s) = ground (arith, length-skip_ws s)

length-digits : (s : Bytes) → length (digits s).0 + length (digits s).1 ≡ length s
unfolding digits
length-digits [] = refl
length-digits (c ∷ s) = ground (arith, length-digits s)

some_digits_of-IsWithin :
    (message : String) (d : Bytes × Bytes)
    → IsWithin (length d.0 + length d.1) (some_digits_of message d)
some_digits_of-IsWithin message ([], rest) = tt
some_digits_of-IsWithin message (c ∷ taken, rest) = omega arith

some_digits-IsWithin : (message : String) (s : Bytes) → IsWithin (length s) (some_digits message s)
some_digits-IsWithin message s =
    subst (λ n. IsWithin n (some_digits message s)) (length-digits s)
      (some_digits_of-IsWithin message (digits s))

length-sign : (s : Bytes) → length (sign s).1 ≤ length s
unfolding sign
length-sign [] = omega arith
length-sign (c ∷ s) = ground arith

length-exponent_sign : (s : Bytes) → length (exponent_sign s).1 ≤ length s
unfolding exponent_sign
length-exponent_sign [] = omega arith
length-exponent_sign (c ∷ s) = ground arith

fraction-IsWithin : (s : Bytes) → IsWithin (suc (length s)) (fraction s)
unfolding fraction
fraction-IsWithin [] = omega arith
fraction-IsWithin (c ∷ s) =
    if-IsWithin (suc (suc (length s))) (nat_eq c b'.') _ (ok ([], c ∷ s))
      (prefixed-IsWithin (suc (suc (length s))) (c ∷ []) _ (
        IsWithin-mono (length s) (suc (suc (length s))) _ (omega arith) (some_digits-IsWithin _ s)))
      (omega arith)

exponent-IsWithin : (s : Bytes) → IsWithin (suc (length s)) (exponent s)
unfolding exponent
exponent-IsWithin [] = omega arith
exponent-IsWithin (c ∷ s) =
    if-IsWithin (suc (suc (length s))) (nat_eq c b'e' || nat_eq c b'E') _ (ok ([], c ∷ s))
      (prefixed-IsWithin (suc (suc (length s))) (c ∷ []) _ (
        prefixed-IsWithin (suc (suc (length s))) (exponent_sign s).0 _ (
          IsWithin-mono (length (exponent_sign s).1) (suc (suc (length s))) _
            (omega (arith, length-exponent_sign s)) (some_digits-IsWithin _ (exponent_sign s).1))))
      (omega arith)

parse_number-IsWithin : (s : Bytes) → IsWithin (length s) (parse_number s)
unfolding parse_number
parse_number-IsWithin s =
    bind-IsWithin (length (sign s).1) (length s) (some_digits _ (sign s).1) _
      (some_digits-IsWithin _ (sign s).1)
      (λ int s1 h.
        bind-IsWithin (suc (length s1)) (length s) (fraction s1) _ (fraction-IsWithin s1)
          (λ frac s2 k. prefixed-IsWithin (length s) _ (exponent s2) (
            IsWithin-mono (suc (length s2)) (length s) _ (omega (arith, h, k, length-sign s))
              (exponent-IsWithin s2))))

loop_next :
    (s : Bytes) (r : Bytes × Bytes) (n : Next)
    → ((m : Mode) (o : Bytes) → string_loop m s o ≡ ok r → length r.1 < length s)
    → (out : Bytes)
    → elim n [
      | closes ↦ ok (out, s)
      | goes mode' out' ↦ string_loop mode' s out'
      | fails message ↦ err message
    ]
      ≡ ok r
    → length r.1 < suc (length s)
loop_next s r closes later out h = ground arith
loop_next s r (goes m o) later out h = omega (arith, later m o h)
loop_next s r (fails message) later out h = absurd (cc)

-- A string that ends leaves fewer bytes than are behind its opening quote.
loop_short :
    (mode : Mode) (s out : Bytes) (r : Bytes × Bytes)
    → string_loop mode s out ≡ ok r
    → length r.1 < length s
unfolding string_loop
loop_short mode [] out r h = absurd (cc)
loop_short mode (c ∷ s) out r h =
    loop_next s r (next mode c (length s) out) (λ m o. loop_short m s o r) out h

parse_short : (s : Bytes) (r : Bytes × Bytes) → parse_string s ≡ ok r → length r.1 < length s
unfolding parse_string
parse_short [] r h = absurd (cc)
parse_short (c ∷ s) r h = ground (arith, loop_short plain s [] r)

string_answer :
    (s : Bytes) (a : Result String (Bytes × Bytes))
    → ((r : Bytes × Bytes) → a ≡ ok r → length r.1 < length s)
    → IsWithin (length s) (map_err refuses a)
string_answer s (ok r) h = h r refl
string_answer s (err e) h = tt

pub read_string-IsWithin : (s : Bytes) → IsWithin (length s) (read_string s)
read_string-IsWithin s = string_answer s (parse_string s) (parse_short s)

strip_word-length :
    (word s rest : Bytes) → strip_word word s ≡ some rest → length rest + length word ≡ length s
unfolding strip_word
strip_word-length [] s rest h = ground arith
strip_word-length (w ∷ ws) [] rest h = absurd (cc)
strip_word-length (w ∷ ws) (c ∷ s) rest h = ground (arith, strip_word-length ws s rest)

literal_answer :
    (w : ℕ) (ws : Bytes) (v : JsonVal) (s : Bytes) (o : Option Bytes)
    → ((rest : Bytes) → o ≡ some rest → length rest + length (w ∷ ws) ≡ length s)
    → IsWithin (length s) (literal_of v o)
literal_answer w ws v s none h = tt
literal_answer w ws v s (some rest) h = omega (arith, h rest refl)

parse_literal-IsWithin :
    (w : ℕ) (ws : Bytes) (v : JsonVal) (s : Bytes)
    → IsWithin (length s) (parse_literal (w ∷ ws) v s)
parse_literal-IsWithin w ws v s =
    literal_answer w ws v s (strip_word (w ∷ ws) s) (strip_word-length (w ∷ ws) s)

pub parse_scalar-IsWithin : (c : ℕ) (s : Bytes) → IsWithin (suc (length s)) (parse_scalar c s)
unfolding parse_scalar
parse_scalar-IsWithin c s =
    let n = suc (length s) in
    if-IsWithin n (nat_eq c b'"') _ _
      (wrapped-IsWithin n str (read_string (c ∷ s)) (read_string-IsWithin (c ∷ s)))
      (if-IsWithin n (nat_eq c b't') _ _
        (parse_literal-IsWithin b't' (b'r' ∷ b'u' ∷ b'e' ∷ []) (boolean true) (c ∷ s))
        (if-IsWithin n (nat_eq c b'f') _ _
          (parse_literal-IsWithin b'f' (b'a' ∷ b'l' ∷ b's' ∷ b'e' ∷ []) (boolean false) (c ∷ s))
          (if-IsWithin n (nat_eq c b'n') _ _
            (parse_literal-IsWithin b'n' (b'u' ∷ b'l' ∷ b'l' ∷ []) null (c ∷ s))
            (if-IsWithin n (nat_eq c b'-' || is_digit c) _ _
              (wrapped-IsWithin n number (parse_number (c ∷ s)) (parse_number-IsWithin (c ∷ s)))
              tt))))
