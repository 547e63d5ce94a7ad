-- ===== src/Accept/Chains.antt =====
-- The chains of accept/store.rs and accept/activation.rs: what their readers make of rows that are in order.
use verdant.Base.{
  ℕ, zero, suc, ◌+◌, ◌<◌, ◌≤◌, ◌≡◌, refl, ap, ◌∙◌, sym, String, Bool, true, false, not, ◌&&◌, inl,
  inr, Option, none, some, List, [], ◌∷◌, ltb, nat_eq, any, length, All, Result, ok, err, is_ok,
  arith, ◌==◌, string_partial_eq, eq_iff, Result-cases,
}
use verdant.Base.Pairwise.{Pairwise}
use verdant.Accept.Store.{
  AcceptRow, AcceptanceRequest, Accepted, ActiveRow, Error, acceptance_eq, accepted_from,
  accepts_of, actives_of, accepted_history, is_repeated, max_accepted, new_revision, next_revision,
  pop,
}
use verdant.Accept.Activation.{
  Activated, activated_from, activation_history, generation_after, is_join, new_generation,
}
pub mod Growth
pub mod Outcomes
pub mod Landing
pub mod Invariant
pub mod Additions
pub mod Accepting
pub mod Runs
pub mod Order

-- The rows read as the records of `history` and of `activation_history`, from the position `k`.
abbrev pub accepted_list : ℕ → List AcceptRow → List Accepted
accepted_list k [] = []
accepted_list k (r ∷ rows) =
    record {
      row_id = r.id;
      revision = suc k;
      request = r.request;
      actor_reference = r.actor;
      reconciled = false;
    }
    ∷ accepted_list (suc k) rows

abbrev pub activated_list : ℕ → List ActiveRow → List Activated
activated_list k [] = []
activated_list k (r ∷ rows) =
    record {
      row_id = r.id;
      generation = suc k;
      revision = suc r.request.acceptance.expected;
      request = r.request;
      reconciled = false;
    }
    ∷ activated_list (suc k) rows

pub record IsAcceptAt (scope : String) (k : ℕ) (r : AcceptRow) : Type 0 where
  pub seq : r.seq ≡ suc k
  pub expected : r.request.expected ≡ k
  pub in_scope : (r.request.scope == scope) ≡ true
  pub id : 0 < r.id

pub record IsActiveAt (scope : String) (k : ℕ) (r : ActiveRow) : Type 0 where
  pub seq : r.seq ≡ suc k
  pub expected : r.request.expected ≡ k
  pub in_scope : (r.request.acceptance.scope == scope) ≡ true
  pub id : 0 < r.id

abbrev pub AcceptsFrom : String → ℕ → List AcceptRow → Type 0
AcceptsFrom scope k [] = Unit
AcceptsFrom scope k (r ∷ rows) = IsAcceptAt scope k r × AcceptsFrom scope (suc k) rows

-- Numbered rows, each of a revision above the one before it, which is `revision` at first.
abbrev pub ActivesFrom : String → ℕ → ℕ → List ActiveRow → Type 0
ActivesFrom scope k revision [] = Unit
ActivesFrom scope k revision (r ∷ rows) =
    IsActiveAt scope k r
    × (revision ≤ r.request.acceptance.expected)
    × ActivesFrom scope (suc k) (suc r.request.acceptance.expected) rows

abbrev pub AcceptsApart : AcceptRow → AcceptRow → Type 0
AcceptsApart a b = (a.request.operation == b.request.operation) ≡ false

abbrev pub ActivesApart : ActiveRow → ActiveRow → Type 0
ActivesApart a b = (a.request.operation == b.request.operation) ≡ false

abbrev pub joins : ActiveRow → AcceptRow → Bool
joins r a = acceptance_eq a.request r.request.acceptance && ltb a.id r.id

-- An activation is of an accepted revision whose row is older.
pub record IsJoined (accepts : List AcceptRow) (r : ActiveRow) : Type 0 where
  pub joined : any (joins r) accepts ≡ true
  pub below : r.request.acceptance.expected < length accepts

fresh_behind :
    (r : AcceptRow) (operations : List String) (rows : List AcceptRow)
    → All (AcceptsApart r) rows
    → All (λ s. is_repeated s.request.operation operations ≡ false) rows
    → All (λ s. is_repeated s.request.operation (r.request.operation ∷ operations) ≡ false) rows
fresh_behind r operations [] apart fresh = tt
fresh_behind r operations (s ∷ rows) apart fresh =
    (ground (arith, apart.0, fresh.0), fresh_behind r operations rows apart.1 fresh.1)

pub accepted_from_lem :
    (scope : String) (k : ℕ) (operations : List String) (rows : List AcceptRow)
    → k + length rows ≤ max_accepted
    → AcceptsFrom scope k rows
    → Pairwise AcceptsApart rows
    → All (λ s. is_repeated s.request.operation operations ≡ false) rows
    → accepted_from scope k operations rows ≡ ok (accepted_list k rows)
unfolding accepted_from new_revision next_revision
accepted_from_lem scope k operations [] bound at apart fresh = refl
accepted_from_lem scope k operations (r ∷ rows) bound at apart fresh =
    let rest =
      accepted_from_lem scope (suc k) (r.request.operation ∷ operations) rows (omega arith) at.1
        apart.1 (fresh_behind r operations rows apart.0 fresh.1) in
    let here = at.0 in
    ground (arith, rest, here.seq, here.expected, here.in_scope, here.id, fresh.0)

-- Conversely, what a reader answers is these records.
pub accepted_from-ok :
    (scope : String) (k : ℕ) (operations : List String) (rows : List AcceptRow)
    (chain : List Accepted)
    → accepted_from scope k operations rows ≡ ok chain
    → chain ≡ accepted_list k rows
unfolding accepted_from new_revision next_revision
accepted_from-ok scope k operations [] chain h = ground arith
accepted_from-ok scope k operations (r ∷ rows) chain h =
    elim (Result-cases (accepted_from scope (suc k) (r.request.operation ∷ operations) rows)) [
      | inl (rest, e) ↦
          let same =
            accepted_from-ok scope (suc k) (r.request.operation ∷ operations) rows rest e in
          ground arith
      | inr (e, p) ↦ ground arith
    ]

-- The reader of activations looks for an activation's acceptance among the records of the accepted rows.
join_found :
    (r : ActiveRow) (k : ℕ) (accepts : List AcceptRow)
    → any (is_join r) (accepted_list k accepts) ≡ any (joins r) accepts
join_found r k [] = refl
join_found r k (a ∷ accepts) = ground (arith, join_found r (suc k) accepts)

fresh_active :
    (r : ActiveRow) (operations : List String) (rows : List ActiveRow)
    → All (ActivesApart r) rows
    → All (λ s. is_repeated s.request.operation operations ≡ false) rows
    → All (λ s. is_repeated s.request.operation (r.request.operation ∷ operations) ≡ false) rows
fresh_active r operations [] apart fresh = tt
fresh_active r operations (s ∷ rows) apart fresh =
    (ground (arith, apart.0, fresh.0), fresh_active r operations rows apart.1 fresh.1)

pub activated_from_lem :
    (scope : String) (accepts : List AcceptRow) (k : ℕ) (operations : List String) (revision : ℕ)
    (rows : List ActiveRow)
    → k + length rows ≤ max_accepted
    → length accepts ≤ max_accepted
    → ActivesFrom scope k revision rows
    → Pairwise ActivesApart rows
    → All (IsJoined accepts) rows
    → All (λ s. is_repeated s.request.operation operations ≡ false) rows
    → activated_from scope (accepted_list 0 accepts) k operations revision rows
      ≡ ok (activated_list k rows)
unfolding activated_from new_revision next_revision new_generation generation_after
activated_from_lem scope accepts k operations revision [] bound most at apart joined fresh = refl
activated_from_lem scope accepts k operations revision (r ∷ rows) bound most at apart joined fresh =
    let rest =
      activated_from_lem scope accepts (suc k) (r.request.operation ∷ operations)
        (suc r.request.acceptance.expected) rows (omega arith) most at.2 apart.1 joined.1
        (fresh_active r operations rows apart.0 fresh.1) in
    let here = at.0 in
    let found = join_found r 0 accepts ∙ joined.0.joined in
    let below = joined.0.below in
    ground
      (arith, rest, here.seq, here.expected, here.in_scope, here.id, fresh.0, found, below, at.1)

pub activated_from-ok :
    (scope : String) (accepted : List Accepted) (k : ℕ) (operations : List String) (revision : ℕ)
    (rows : List ActiveRow) (chain : List Activated)
    → activated_from scope accepted k operations revision rows ≡ ok chain
    → chain ≡ activated_list k rows
unfolding activated_from new_revision next_revision new_generation generation_after
activated_from-ok scope accepted k operations revision [] chain h = ground arith
activated_from-ok scope accepted k operations revision (r ∷ rows) chain h =
    let target = suc r.request.acceptance.expected in
    elim (Result-cases
      (activated_from scope accepted (suc k) (r.request.operation ∷ operations) target rows)) [
        | inl (rest, e) ↦
            let same =
              activated_from-ok scope accepted (suc k) (r.request.operation ∷ operations) target
                rows rest e in
            ground arith
        | inr (e, p) ↦ ground arith
      ]
