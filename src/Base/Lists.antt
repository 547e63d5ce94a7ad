-- ===== src/Base/Lists.antt =====
-- Vectors: lists measured and indexed by native numbers, and searched by a test.
use Prim.Native.Nat.{ℕ, zero, suc, ◌+◌, ◌<◌}
use mathlib.Core.Path.{◌≡◌, refl, ap, subst}
use mathlib.Core.Logic.{◌↔◌, ◌⊎◌, inl, inr}
use mathlib.Core.Bool.{Bool, true, false, ◌&&◌, ◌||◌}
use mathlib.Core.List.{List, [], ◌∷◌, ◌++◌}
use mathlib.Core.Option.{Option, none, some}
use native.Mathlib.Omega.{arith}
use verdant.Base.Tests.{if◌then◌else◌, some_injective, PartialEq}

abbrev pub next_position : Option ℕ → Option ℕ
next_position none = none
next_position (some i) = some (suc i)

module _ {ℓ} {A : Type ℓ} where
  abbrev pub length : List A → ℕ
  length [] = 0
  length (x ∷ xs) = suc (length xs)

  abbrev pub get_elem? : List A → ℕ → Option A
  get_elem? [] i = none
  get_elem? (x ∷ xs) zero = some x
  get_elem? (x ∷ xs) (suc i) = get_elem? xs i

  -- A write out of bounds changes nothing; the source writes at positions that it has found.
  abbrev pub set : List A → ℕ → A → List A
  set [] i v = []
  set (x ∷ xs) zero v = v ∷ xs
  set (x ∷ xs) (suc i) v = x ∷ set xs i v

  -- `iter().any`, `iter().all`, `iter().filter`, `iter().find`, `iter().position`.
  abbrev pub any : (A → Bool) → List A → Bool
  any p [] = false
  any p (x ∷ xs) = p x || any p xs

  abbrev pub all : (A → Bool) → List A → Bool
  all p [] = true
  all p (x ∷ xs) = p x && all p xs

  abbrev pub keep : (A → Bool) → List A → List A
  keep p [] = []
  keep p (x ∷ xs) = let rest = keep p xs in if p x then x ∷ rest else rest

  abbrev pub find : (A → Bool) → List A → Option A
  find p [] = none
  find p (x ∷ xs) = if p x then some x else find p xs

  abbrev pub position : (A → Bool) → List A → Option ℕ
  position p [] = none
  position p (x ∷ xs) = if p x then some 0 else next_position (position p xs)

  abbrev pub take : ℕ → List A → List A
  take zero xs = []
  take (suc n) [] = []
  take (suc n) (x ∷ xs) = x ∷ take n xs

  abbrev pub drop : ℕ → List A → List A
  drop zero xs = xs
  drop (suc n) [] = []
  drop (suc n) (x ∷ xs) = drop n xs

  -- A predicate of every element.
  abbrev pub All {κ} : (A → Type κ) → List A → Type κ
  All P [] = Unit
  All P (x ∷ xs) = P x × All P xs

module _ {ℓ} {A : Type ℓ} where
  pub length-append : (xs ys : List A) → length (xs ++ ys) ≡ length xs + length ys
  length-append [] ys = omega arith
  length-append (x ∷ xs) ys = omega (arith, length-append xs ys)

  pub length-set : (xs : List A) (i : ℕ) (v : A) → length (set xs i v) ≡ length xs
  length-set [] i v = refl
  length-set (x ∷ xs) zero v = refl
  length-set (x ∷ xs) (suc i) v = ap suc (length-set xs i v)

  pub get_elem?-set_self :
      (xs : List A) (i : ℕ) (v : A) → i < length xs → get_elem? (set xs i v) i ≡ some v
  get_elem?-set_self [] i v h = elim h [ ]
  get_elem?-set_self (x ∷ xs) zero v h = refl
  get_elem?-set_self (x ∷ xs) (suc i) v h = get_elem?-set_self xs i v (omega arith)

  pub get_elem?-append :
      (xs ys : List A) (i : ℕ) (v : A) → get_elem? xs i ≡ some v → get_elem? (xs ++ ys) i ≡ some v
  get_elem?-append [] ys i v h = absurd (cc)
  get_elem?-append (x ∷ xs) ys zero v h = h
  get_elem?-append (x ∷ xs) ys (suc i) v h = get_elem?-append xs ys i v h

  pub get_elem?-append_end : (xs : List A) (v : A) → get_elem? (xs ++ v ∷ []) (length xs) ≡ some v
  get_elem?-append_end [] v = refl
  get_elem?-append_end (x ∷ xs) v = get_elem?-append_end xs v

  pub get_elem?-set_found :
      (xs : List A) (i : ℕ) (a v : A) → get_elem? xs i ≡ some a → get_elem? (set xs i v) i ≡ some v
  get_elem?-set_found [] i a v h = absurd (cc)
  get_elem?-set_found (x ∷ xs) zero a v h = refl
  get_elem?-set_found (x ∷ xs) (suc i) a v h = get_elem?-set_found xs i a v h

  -- Behind a write, a position has the written value or the one that it had.
  pub get_elem?-set :
      (xs : List A) (i j : ℕ) (v a b : A)
      → get_elem? xs i ≡ some a
      → get_elem? xs j ≡ some b
      → (get_elem? (set xs j v) i ≡ some a) ⊎ ((get_elem? (set xs j v) i ≡ some v) × (a ≡ b))
  get_elem?-set [] i j v a b h k = absurd (cc)
  get_elem?-set (x ∷ xs) zero zero v a b h k = inr (refl, cc)
  get_elem?-set (x ∷ xs) zero (suc j) v a b h k = inl h
  get_elem?-set (x ∷ xs) (suc i) zero v a b h k = inl h
  get_elem?-set (x ∷ xs) (suc i) (suc j) v a b h k = get_elem?-set xs i j v a b h k

  pub All-append {κ} : (P : A → Type κ) (xs ys : List A) → All P xs → All P ys → All P (xs ++ ys)
  All-append P [] ys h k = k
  All-append P (x ∷ xs) ys h k = (h.0, All-append P xs ys h.1 k)

  pub All-mono {κ μ} :
      {P : A → Type κ} {Q : A → Type μ}
      → ((a : A) → P a → Q a)
      → (xs : List A) → All P xs
      → All Q xs
  All-mono f [] h = tt
  All-mono f (x ∷ xs) h = (f x h.0, All-mono f xs h.1)

module _ {ℓ} {A : Type ℓ} where
  pub find_sound : (p : A → Bool) (xs : List A) (a : A) → find p xs ≡ some a → p a ≡ true
  find_sound p [] a h = cc
  find_sound p (x ∷ xs) a h = ground (arith, find_sound p xs a)

  pub any_of_find : (p : A → Bool) (xs : List A) (a : A) → find p xs ≡ some a → any p xs ≡ true
  any_of_find p [] a h = cc
  any_of_find p (x ∷ xs) a h = ground (arith, any_of_find p xs a)

module _ {ℓ} {A : Type ℓ} (p : A → Bool) where
  pub any-append : (xs ys : List A) → any p xs ≡ true → any p (xs ++ ys) ≡ true
  any-append [] ys h = absurd (cc)
  any-append (x ∷ xs) ys h = ground (arith, any-append xs ys)

  pub any-append_end : (xs : List A) (y : A) → p y ≡ true → any p (xs ++ y ∷ []) ≡ true
  any-append_end [] y h = ground arith
  any-append_end (x ∷ xs) y h = ground (arith, any-append_end xs y h)

  pub find-append_end :
      (xs : List A) (y : A) → any p xs ≡ false → p y ≡ true → find p (xs ++ y ∷ []) ≡ some y
  find-append_end [] y h k = ground arith
  find-append_end (x ∷ xs) y h k = ground (arith, find-append_end xs y)

pub found_or_behind {ℓ} :
    {A : Type ℓ} (p : A → Bool) (x : A) (xs : List A) (a : A)
    → find p (x ∷ xs) ≡ some a
    → (x ≡ a) ⊎ (find p xs ≡ some a)
found_or_behind p x xs a h = ground arith

module _ {ℓ κ} {A : Type ℓ} (P : A → Type κ) where
  pub All-intro : ((a : A) → P a) → (xs : List A) → All P xs
  All-intro f [] = tt
  All-intro f (x ∷ xs) = (f x, All-intro f xs)

  pub All-set : (xs : List A) (i : ℕ) (v : A) → All P xs → P v → All P (set xs i v)
  All-set [] i v h k = tt
  All-set (x ∷ xs) zero v h k = (k, h.1)
  All-set (x ∷ xs) (suc i) v h k = (h.0, All-set xs i v h.1 k)

  pub All-get : (xs : List A) (i : ℕ) (v : A) → All P xs → get_elem? xs i ≡ some v → P v
  All-get [] i v h k = absurd (cc)
  All-get (x ∷ xs) zero v h k = subst P (some_injective k) h.0
  All-get (x ∷ xs) (suc i) v h k = All-get xs i v h.1 k

  pub All-find : (p : A → Bool) (xs : List A) (a : A) → All P xs → find p xs ≡ some a → P a
  All-find p [] a h k = absurd (cc)
  All-find p (x ∷ xs) a h k = elim (found_or_behind p x xs a k) [
    | inl here ↦ subst P here h.0
    | inr behind ↦ All-find p xs a h.1 behind
  ]

abbrev list_eq : {A : Type 0} → (A → A → Bool) → List A → List A → Bool
list_eq eq [] [] = true
list_eq eq (a ∷ xs) (b ∷ ys) = let rest = list_eq eq xs ys in if eq a b then rest else false
list_eq eq _ _ = false

pub list_eq_iff :
    {A : Type 0} (eq : A → A → Bool)
    → ((a b : A) → (eq a b ≡ true) ↔ (a ≡ b))
    → (xs ys : List A) → (list_eq eq xs ys ≡ true) ↔ (xs ≡ ys)
list_eq_iff eq iff [] [] = ground arith
list_eq_iff eq iff [] (b ∷ ys) = ground arith
list_eq_iff eq iff (a ∷ xs) [] = ground arith
list_eq_iff eq iff (a ∷ xs) (b ∷ ys) = ground (arith, iff a b, list_eq_iff eq iff xs ys)

-- The derived `PartialEq` of a sequence.
instance abbrev pub list_partial_eq : {A : Type 0} ⦃e : PartialEq A⦄ → PartialEq (List A)
list_partial_eq ⦃e⦄ = record { eq = list_eq e.eq; iff = list_eq_iff e.eq e.iff }
