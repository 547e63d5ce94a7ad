-- ===== src/Accept/Chains/Growth.antt =====
-- The rows of one scope of accept/store.rs and accept/activation.rs when a row is added to them, and the last
-- record that a reader makes of them.
use verdant.Base.{
  ℕ, zero, suc, ◌+◌, ◌<◌, ◌≤◌, ◌≡◌, refl, ap, ◌∙◌, subst, String, Bool, true, false, none, some,
  List, [], ◌∷◌, ◌++◌, any, keep, take, length, All, inl, inr, arith, if◌then◌else◌, Option-cases,
}
use verdant.Accept.Store.{AcceptRow, Accepted, ActiveRow, acceptance_eq, pop}
use verdant.Accept.Activation.{Activated, generation_or_initial}
use verdant.Accept.Chains.{
  AcceptsFrom, ActivesFrom, IsAcceptAt, IsActiveAt, accepted_list, activated_list, joins,
}

module _ {A : Type 0} (p : A → Bool) where
  nothing_kept : (xs : List A) → 0 ≡ length xs → [] ≡ xs
  nothing_kept [] h = refl
  nothing_kept (x ∷ xs) h = ground arith

  -- An old reading of rows that has as many of a kind as there are now has all of them.
  pub keep-take :
      (n : ℕ) (xs : List A)
      → length (keep p (take n xs)) ≡ length (keep p xs)
      → keep p (take n xs) ≡ keep p xs
  keep-take zero xs h = nothing_kept (keep p xs) h
  keep-take (suc n) [] h = refl
  keep-take (suc n) (x ∷ xs) h = ground (arith, keep-take n xs)

  pub keep-append :
      (xs : List A) (y : A) → keep p (xs ++ y ∷ []) ≡ keep p xs ++ (if p y then y ∷ [] else [])
  keep-append [] y = refl
  keep-append (x ∷ xs) y = ground (arith, keep-append xs y)

abbrev pub last_revision : ℕ → List ActiveRow → ℕ
last_revision revision [] = revision
last_revision revision (r ∷ rows) = last_revision (suc r.request.acceptance.expected) rows

pub AcceptsFrom-append :
    (scope : String) (k n : ℕ) (rows : List AcceptRow) (r : AcceptRow)
    → n ≡ k + length rows
    → AcceptsFrom scope k rows
    → IsAcceptAt scope n r
    → AcceptsFrom scope k (rows ++ r ∷ [])
AcceptsFrom-append scope k n [] r e h at = (subst (λ j. IsAcceptAt scope j r) (omega arith) at, tt)
AcceptsFrom-append scope k n (q ∷ rows) r e h at =
    (h.0, AcceptsFrom-append scope (suc k) n rows r (omega arith) h.1 at)

pub ActivesFrom-append :
    (scope : String) (k n revision : ℕ) (rows : List ActiveRow) (r : ActiveRow)
    → n ≡ k + length rows
    → ActivesFrom scope k revision rows
    → IsActiveAt scope n r
    → last_revision revision rows ≤ r.request.acceptance.expected
    → ActivesFrom scope k revision (rows ++ r ∷ [])
ActivesFrom-append scope k n revision [] r e h at above =
    (subst (λ j. IsActiveAt scope j r) (omega arith) at, above, tt)
ActivesFrom-append scope k n revision (q ∷ rows) r e h at above = (
  h.0,
  h.1,
  ActivesFrom-append scope (suc k) n (suc q.request.acceptance.expected) rows r (omega arith) h.2 at
      above,
)

-- The last record of a chain is numbered by its length.
pub pop-revision :
    (k : ℕ) (rows : List AcceptRow) (t : Accepted)
    → pop (accepted_list k rows) ≡ some t
    → t.revision ≡ k + length rows
pop-revision k [] t h = absurd (cc)
pop-revision k (r ∷ []) t h = ground arith
pop-revision k (r ∷ q ∷ rows) t h = elim (Option-cases (pop (accepted_list (suc k) (q ∷ rows)))) [
  | inl e ↦ ground arith
  | inr (y, e) ↦
      let same : y ≡ t = ground (arith, h, e) in
      let rest = pop-revision (suc k) (q ∷ rows) t (e ∙ ap some same) in omega arith
]

pub pop-expected :
    (scope : String) (k : ℕ) (rows : List AcceptRow) (t : Accepted)
    → pop (accepted_list k rows) ≡ some t
    → AcceptsFrom scope k rows
    → suc t.request.expected ≡ k + length rows
pop-expected scope k [] t h at = absurd (cc)
pop-expected scope k (r ∷ []) t h at = let here = at.0.expected in ground arith
pop-expected scope k (r ∷ q ∷ rows) t h at =
    elim (Option-cases (pop (accepted_list (suc k) (q ∷ rows)))) [
      | inl e ↦ ground arith
      | inr (y, e) ↦
          let same : y ≡ t = ground (arith, h, e) in
          let rest = pop-expected scope (suc k) (q ∷ rows) t (e ∙ ap some same) at.1 in omega arith
    ]

pub last_joined :
    (r : ActiveRow) (k : ℕ) (rows : List AcceptRow) (t : Accepted)
    → pop (accepted_list k rows) ≡ some t
    → acceptance_eq t.request r.request.acceptance ≡ true
    → All (λ a. a.id < r.id) rows
    → any (joins r) rows ≡ true
last_joined r k [] t h same older = absurd (cc)
last_joined r k (a ∷ rows) t h same older = elim (Option-cases (pop (accepted_list (suc k) rows))) [
  | inl e ↦ ground (arith, h, e, same, older.0)
  | inr (y, e) ↦
      let found : y ≡ t = ground (arith, h, e) in
      ground (arith, last_joined r (suc k) rows t (e ∙ ap some found) same older.1)
]

pub pop-activated :
    (k revision : ℕ) (rows : List ActiveRow) (a : Activated)
    → pop (activated_list k rows) ≡ some a
    → (a.generation ≡ k + length rows) × (a.revision ≡ last_revision revision rows)
pop-activated k revision [] a h = absurd (cc)
pop-activated k revision (r ∷ []) a h = (ground arith, ground arith)
pop-activated k revision (r ∷ q ∷ rows) a h =
    elim (Option-cases (pop (activated_list (suc k) (q ∷ rows)))) [
      | inl e ↦ ground arith
      | inr (y, e) ↦
          let same : y ≡ a = ground (arith, h, e) in
          let rest =
            pop-activated (suc k) (suc r.request.acceptance.expected) (q ∷ rows) a
              (e ∙ ap some same) in
          (omega arith, rest.1)
    ]

pub none_left :
    (k : ℕ) (rows : List ActiveRow) → pop (activated_list k rows) ≡ none → 0 ≡ length rows
none_left k [] e = refl
none_left k (r ∷ rows) e = elim (Option-cases (pop (activated_list (suc k) rows))) [
  | inl f ↦ ground arith
  | inr (y, f) ↦ ground arith
]

pub generation_or_initial-pop :
    (rows : List ActiveRow) → generation_or_initial (pop (activated_list 0 rows)) ≡ length rows
generation_or_initial-pop rows = elim (Option-cases (pop (activated_list 0 rows))) [
  | inl e ↦ rw e (none_left 0 rows e)
  | inr (a, e) ↦ let last = (pop-activated 0 0 rows a e).0 in rw e (omega arith)
]

abbrev pub activated_at : ℕ → ActiveRow → Activated
activated_at k r = record {
  row_id = r.id;
  generation = suc k;
  revision = suc r.request.acceptance.expected;
  request = r.request;
  reconciled = false;
}

pub pop-append :
    (k n : ℕ) (rows : List ActiveRow) (r : ActiveRow)
    → n ≡ k + length rows
    → pop (activated_list k (rows ++ r ∷ [])) ≡ some (activated_at n r)
pop-append k n [] r e = let same : k ≡ n = omega arith in ap (λ j. some (activated_at j r)) same
pop-append k n (q ∷ rows) r e = rw (pop-append (suc k) n rows r (omega arith)) refl
