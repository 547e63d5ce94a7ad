-- ===== src/Base/Pairwise.antt =====
-- A relation between the elements of a list, each with those behind it, and elements found by a test.
use Prim.Native.Nat.{ℕ, zero, suc}
use mathlib.Core.Path.{◌≡◌, refl, subst}
use mathlib.Core.Bool.{Bool, true, false}
use mathlib.Core.List.{List, [], ◌∷◌, ◌++◌}
use mathlib.Core.Option.{Option, some}
use native.Mathlib.Omega.{arith}
use verdant.Base.Lists.{All, All-mono, get_elem?, set, position, any, next_position}
use verdant.Base.Tests.{some_injective, if◌then◌else◌}

module _ {A : Type 0} (R : A → A → Type 0) where
  abbrev pub Pairwise : List A → Type 0
  Pairwise [] = Unit
  Pairwise (x ∷ xs) = All (R x) xs × Pairwise xs

  All-snoc : (P : A → Type 0) (xs : List A) (v : A) → All P xs → P v → All P (xs ++ v ∷ [])
  All-snoc P [] v h k = (k, tt)
  All-snoc P (x ∷ xs) v h k = (h.0, All-snoc P xs v h.1 k)

  pub Pairwise-append :
      (xs : List A) (v : A) → Pairwise xs → All (λ x. R x v) xs → Pairwise (xs ++ v ∷ [])
  Pairwise-append [] v h k = (tt, tt)
  Pairwise-append (x ∷ xs) v h k = (All-snoc (R x) xs v h.0 k.0, Pairwise-append xs v h.1 k.1)

  -- An element `v` may take the place of `old` when it is related to the others as `old` is.
  set_behind :
      (xs : List A) (i : ℕ) (x old v : A)
      → get_elem? xs i ≡ some old
      → All (R x) xs
      → (R x old → R x v)
      → All (R x) (set xs i v)
  set_behind [] i x old v e h k = tt
  set_behind (y ∷ ys) zero x old v e h k = (k (subst (R x) (some_injective e) h.0), h.1)
  set_behind (y ∷ ys) (suc i) x old v e h k = (h.0, set_behind ys i x old v e h.1 k)

  renew : (xs : List A) (old v : A) → All (R old) xs → All (λ y. R old y → R v y) xs → All (R v) xs
  renew [] old v h k = tt
  renew (y ∷ ys) old v h k = (k.0 h.0, renew ys old v h.1 k.1)

  pub Pairwise-set :
      (xs : List A) (i : ℕ) (old v : A)
      → get_elem? xs i ≡ some old
      → Pairwise xs
      → All (λ y. (R old y → R v y) × (R y old → R y v)) xs
      → Pairwise (set xs i v)
  Pairwise-set [] i old v e h k = tt
  Pairwise-set (x ∷ xs) zero old v e h k = (
    renew xs old v (subst (λ o. All (R o) xs) (some_injective e) h.0)
        (All-mono (λ y f. f.0) xs k.1),
    h.1,
  )
  Pairwise-set (x ∷ xs) (suc i) old v e h k =
      (set_behind xs i x old v e h.0 k.0.1, Pairwise-set xs i old v e h.1 k.1)

  -- What holds of `v`, and of each element related to `old`, holds after `v` takes its place.
  pub All-set_apart :
      {P Q : A → Type 0} (xs : List A) (i : ℕ) (old v : A)
      → ((x y : A) → R x y → R y x)
      → ((y : A) → Q y → R old y → P y)
      → get_elem? xs i ≡ some old
      → Pairwise xs
      → All Q xs
      → P v
      → All P (set xs i v)
  All-set_apart [] i old v symm keep e h q p = tt
  All-set_apart {P = P} {Q = Q} (x ∷ xs) zero old v symm keep e h q p =
      (p, both xs (subst (λ o. All (R o) xs) (some_injective e) h.0) q.1)
    where
      both : (ys : List A) → All (R old) ys → All Q ys → All P ys
      both [] r s = tt
      both (y ∷ ys) r s = (keep y s.0 r.0, both ys r.1 s.1)
  All-set_apart {P = P} {Q = Q} (x ∷ xs) (suc i) old v symm keep e h q p = (
    keep x q.0 (symm x old (found xs i h.0 e)),
    All-set_apart {P = P} {Q = Q} xs i old v symm keep e h.1 q.1 p,
  )
    where
      found : (ys : List A) (j : ℕ) → All (R x) ys → get_elem? ys j ≡ some old → R x old
      found [] j r f = absurd (cc)
      found (y ∷ ys) zero r f = subst (R x) (some_injective f) r.0
      found (y ∷ ys) (suc j) r f = found ys j r.1 f

module _ {A : Type 0} where
  get-position :
      (p : A → Bool) (x : A) (xs : List A) (i : ℕ) (o : Option ℕ)
      → ((j : ℕ) → o ≡ some j → (y : A) × (get_elem? xs j ≡ some y) × (p y ≡ true))
      → (if p x then some 0 else next_position o) ≡ some i
      → (y : A) × (get_elem? (x ∷ xs) i ≡ some y) × (p y ≡ true)
  get-position p x xs zero o behind h = (x, refl, ground arith)
  get-position p x xs (suc i) o behind h = behind i (ground arith)

  pub position_sound :
      (p : A → Bool) (xs : List A) (i : ℕ)
      → position p xs ≡ some i
      → (x : A) × (get_elem? xs i ≡ some x) × (p x ≡ true)
  position_sound p [] i h = absurd (cc)
  position_sound p (x ∷ xs) i h =
      get-position p x xs i (position p xs) (λ j. position_sound p xs j) h

  -- Where no element passes a test, every element fails it.
  pub none_pass : (p : A → Bool) (xs : List A) → any p xs ≡ false → All (λ x. p x ≡ false) xs
  none_pass p [] h = tt
  none_pass p (x ∷ xs) h = (ground arith, none_pass p xs (ground arith))
