-- ===== src/Domain/Json/RoundTrip/Numbers.antt =====
-- The numbers of src/domain/json.rs, read in front of a separator or an end.
use verdant.Base.{
  ℕ, Bool, true, false, ◌||◌, [], ◌∷◌, ◌++◌, ◌≡◌, refl, ◌∙◌, ap, nat_eq, ok, err, String, arith,
  Result-cases, Bool-cases, inl, inr, if◌then◌else◌,
}
use verdant.Base.Bytes.{Bytes}
use verdant.Domain.Json.{
  digits, is_digit, some_digits_of, some_digits, sign, prefixed, fraction, exponent_sign,
  signed_digits, exponent, unsigned_number, parse_number, refuses, Parsed,
}

-- Nothing, or what stands behind a value in a canonical text.
abbrev pub stops : Bytes → Bool
stops [] = true
stops (c ∷ s) = nat_eq c b',' || nat_eq c b']' || nat_eq c b'}'

digits-append :
    (s rest : Bytes) → stops rest ≡ true → digits (s ++ rest) ≡ ((digits s).0, (digits s).1 ++ rest)
unfolding digits
digits-append [] [] h = refl
digits-append [] (c ∷ rest) h = ground arith
digits-append (c ∷ s) rest h = ground (arith, digits-append s rest h)

some_digits_of-append :
    (message : String) (read : Bytes × Bytes) (taken left rest : Bytes)
    → some_digits_of message read ≡ ok (taken, left)
    → some_digits_of message (read.0, read.1 ++ rest) ≡ ok (taken, left ++ rest)
some_digits_of-append message ([], r) taken left rest h = absurd (cc)
some_digits_of-append message (c ∷ t, r) taken left rest h = ground arith

some_digits-append :
    (message : String) (s taken left rest : Bytes)
    → stops rest ≡ true
    → some_digits message s ≡ ok (taken, left)
    → some_digits message (s ++ rest) ≡ ok (taken, left ++ rest)
some_digits-append message s taken left rest h read =
    ap (some_digits_of message) (digits-append s rest h)
    ∙ some_digits_of-append message (digits s) taken left rest read

prefixed-append :
    (p : Bytes) (a b : Parsed Bytes) (taken left rest : Bytes)
    → ((t l : Bytes) → a ≡ ok (t, l) → b ≡ ok (t, l ++ rest))
    → prefixed p a ≡ ok (taken, left)
    → prefixed p b ≡ ok (taken, left ++ rest)
prefixed-append p (err e) b taken left rest follows read = absurd (cc)
prefixed-append p (ok (t, l)) b taken left rest follows read =
    let same = follows t l refl in ground (arith, same, read)

-- A part that is there when `b`, and nothing when not.
if-append :
    (b : Bool) (p : Bytes) (x y : Parsed Bytes) (whole taken left rest : Bytes)
    → ((t l : Bytes) → x ≡ ok (t, l) → y ≡ ok (t, l ++ rest))
    → (if b then prefixed p x else ok ([], whole)) ≡ ok (taken, left)
    → (if b then prefixed p y else ok ([], whole ++ rest)) ≡ ok (taken, left ++ rest)
if-append true p x y whole taken left rest follows read =
    prefixed-append p x y taken left rest follows read
if-append false p x y whole taken left rest follows read = ground arith

fraction-append :
    (s taken left rest : Bytes)
    → stops rest ≡ true
    → fraction s ≡ ok (taken, left)
    → fraction (s ++ rest) ≡ ok (taken, left ++ rest)
unfolding fraction
fraction-append [] taken left [] h read = ground arith
fraction-append [] taken left (c ∷ rest) h read = ground arith
fraction-append (c ∷ s) taken left rest h read =
    if-append (nat_eq c b'.') (c ∷ []) _ _ (c ∷ s) taken left rest
      (λ t l. some_digits-append _ s t l rest h) read

exponent_sign-append :
    (c : ℕ) (s rest : Bytes)
    → exponent_sign (c ∷ s ++ rest) ≡ ((exponent_sign (c ∷ s)).0, (exponent_sign (c ∷ s)).1 ++ rest)
unfolding exponent_sign
exponent_sign-append c s rest = ground arith

sign-append :
    (c : ℕ) (s rest : Bytes) → sign (c ∷ s ++ rest) ≡ ((sign (c ∷ s)).0, (sign (c ∷ s)).1 ++ rest)
unfolding sign
sign-append c s rest = ground arith

signed_digits-append :
    (s taken left rest : Bytes)
    → stops rest ≡ true
    → signed_digits (exponent_sign s) ≡ ok (taken, left)
    → signed_digits (exponent_sign (s ++ rest)) ≡ ok (taken, left ++ rest)
unfolding exponent_sign digits
signed_digits-append [] taken left rest h read = absurd (cc)
signed_digits-append (c ∷ s) taken left rest h read =
    ap signed_digits (exponent_sign-append c s rest)
    ∙ prefixed-append (exponent_sign (c ∷ s)).0 _ _ taken left rest
        (λ t l. some_digits-append _ (exponent_sign (c ∷ s)).1 t l rest h) read

exponent-append :
    (s taken left rest : Bytes)
    → stops rest ≡ true
    → exponent s ≡ ok (taken, left)
    → exponent (s ++ rest) ≡ ok (taken, left ++ rest)
unfolding exponent
exponent-append [] taken left [] h read = ground arith
exponent-append [] taken left (c ∷ rest) h read = ground arith
exponent-append (c ∷ s) taken left rest h read =
    if-append (nat_eq c b'e' || nat_eq c b'E') (c ∷ []) _ _ (c ∷ s) taken left rest
      (λ t l. signed_digits-append s t l rest h) read

unsigned_number-append :
    (p s taken left rest : Bytes)
    → stops rest ≡ true
    → unsigned_number (p, s) ≡ ok (taken, left)
    → unsigned_number (p, s ++ rest) ≡ ok (taken, left ++ rest)
unsigned_number-append p s taken left rest h read =
    elim (Result-cases (some_digits "invalid JSON number: expected digits" s)) [
      | inr (e, bad) ↦ absurd (cc (rw bad at read))
      | inl ((whole, s'), good) ↦ elim (Result-cases (fraction s')) [
        | inr (e, bad) ↦ absurd (cc (rw (good, bad) at read))
        | inl ((frac, s''), also) ↦
            rw
              (some_digits-append _ s whole s' rest h good, fraction-append s' frac s'' rest h also)
              (prefixed-append (p ++ whole ++ frac) _ _ taken left rest
                (λ t l. exponent-append s'' t l rest h) (rw (good, also) at read))
      ]
    ]

-- A number that is read whole is read in front of a separator or an end.
pub parse_number-append :
    (s rest : Bytes)
    → stops rest ≡ true
    → parse_number s ≡ ok (s, [])
    → parse_number (s ++ rest) ≡ ok (s, rest)
unfolding parse_number sign digits
parse_number-append [] rest h read = absurd (cc)
parse_number-append (c ∷ s) rest h read =
    ap unsigned_number (sign-append c s rest)
    ∙ unsigned_number-append (sign (c ∷ s)).0 (sign (c ∷ s)).1 (c ∷ s) [] rest h read

-- A number starts with a sign or a digit.
pub parse_number-first :
    (c : ℕ) (s : Bytes) (taken left : Bytes)
    → parse_number (c ∷ s) ≡ ok (taken, left)
    → nat_eq c b'-' || is_digit c ≡ true
unfolding parse_number sign digits
parse_number-first c s taken left read = elim (Bool-cases (nat_eq c b'-' || is_digit c)) [
  | inl e ↦ e
  | inr e ↦
      let refused : unsigned_number (sign (c ∷ s))
          ≡ err (refuses "invalid JSON number: expected digits") =
        ground (arith, e) in
      absurd (cc)
]
