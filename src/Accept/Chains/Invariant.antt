-- ===== src/Accept/Chains/Invariant.antt =====
-- The chains of one scope of accept/store.rs and accept/activation.rs: what stays true of them as rows are added.
use verdant.Base.{
  ℕ, suc, ◌<◌, ◌≤◌, ◌≡◌, refl, ◌∙◌, sym, subst, inl, inr, String, Bool, true, false, none, List, [],
  ◌∷◌, ◌++◌, any, find, length, All, All-mono, All-intro, All-append, ok, arith, Bool-cases, ◌==◌,
  string_partial_eq, eq_iff, length-append, any-append,
}
use verdant.Base.Pairwise.{Pairwise, Pairwise-append}
use verdant.Accept.Store.{
  AcceptRow, ActiveRow, accepts_of, actives_of, accepted_history, max_accepted,
}
use verdant.Accept.Tickets.{AcceptanceDatabase, Receipt, is_receipt}
use verdant.Accept.Activation.{activation_history}
use verdant.Accept.Chains.{
  AcceptsApart, AcceptsFrom, ActivesApart, ActivesFrom, IsAcceptAt, IsActiveAt, IsJoined,
  accepted_from_lem, accepted_list, activated_from_lem, activated_list, joins,
}
use verdant.Accept.Chains.Growth.{AcceptsFrom-append, ActivesFrom-append, last_revision}

abbrev Known : List Receipt → String → Type 0
Known receipts operation = any (is_receipt operation) receipts ≡ true

-- The rows of a scope, in a store with these receipts and this last identity.
pub record IsChain (scope : String) (receipts : List Receipt) (last : ℕ) (accepts : List AcceptRow)
    (actives : List ActiveRow) : Type 0 where
  pub accepted : AcceptsFrom scope 0 accepts
  pub accepts_apart : Pairwise AcceptsApart accepts
  pub accepts_bound : length accepts ≤ max_accepted
  pub accepts_known : All (λ r. Known receipts r.request.operation) accepts
  pub older : All (λ r. r.id ≤ last) accepts
  pub activated : ActivesFrom scope 0 0 actives
  pub actives_apart : Pairwise ActivesApart actives
  pub actives_bound : length actives ≤ max_accepted
  pub actives_known : All (λ r. Known receipts r.request.operation) actives
  pub joined : All (IsJoined accepts) actives

abbrev pub IsChained : AcceptanceDatabase → String → Type 0
IsChained db scope =
    IsChain scope db.receipts db.last_id (accepts_of scope db.accepts) (actives_of scope db.actives)

pub accepted_history_lem :
    (db : AcceptanceDatabase) (scope : String)
    → IsChained db scope
    → accepted_history scope db.accepts ≡ ok (accepted_list 0 (accepts_of scope db.accepts))
unfolding accepted_history
accepted_history_lem db scope h =
    let read =
      accepted_from_lem scope 0 [] (accepts_of scope db.accepts) (ground (arith, h.accepts_bound))
        h.accepted h.accepts_apart (All-intro _ (λ r. refl) (accepts_of scope db.accepts)) in
    ground (arith, read, h.accepts_bound)

pub activation_history_lem :
    (db : AcceptanceDatabase) (scope : String)
    → IsChained db scope
    → activation_history scope db.accepts db.actives
      ≡ ok (activated_list 0 (actives_of scope db.actives))
unfolding activation_history
activation_history_lem db scope h =
    let accepts = accepts_of scope db.accepts in
    let read =
      activated_from_lem scope accepts 0 [] 0 (actives_of scope db.actives)
        (ground (arith, h.actives_bound)) h.accepts_bound h.activated h.actives_apart h.joined
        (All-intro _ (λ r. refl) (actives_of scope db.actives)) in
    ground (arith, accepted_history_lem db scope h, read, h.actives_bound)

find-none : (p : Receipt → Bool) (xs : List Receipt) → find p xs ≡ none → any p xs ≡ false
find-none p [] h = refl
find-none p (x ∷ xs) h = ground (arith, find-none p xs)

-- A ticket without a receipt is not of an operation that has one.
Known-distinct :
    (receipts : List Receipt) (operation known : String)
    → find (is_receipt operation) receipts ≡ none
    → Known receipts known
    → (known == operation) ≡ false
Known-distinct receipts operation known fresh h = elim (Bool-cases (known == operation)) [
  | inr e ↦ e
  | inl e ↦
      let same : known ≡ operation = ground (arith, eq_iff known operation) in
      absurd (
        cc (
          sym (find-none (is_receipt operation) receipts fresh)
          ∙ subst (λ o. Known receipts o) same h))
]

pub IsChain-later :
    (scope : String) (receipts : List Receipt) (last : ℕ) (accepts : List AcceptRow)
    (actives : List ActiveRow) (q : Receipt) (id : ℕ)
    → last ≤ id
    → IsChain scope receipts last accepts actives
    → IsChain scope (q ∷ receipts) id accepts actives
IsChain-later scope receipts last accepts actives q id later h = record {
  accepts_known = All-mono (λ r known. ground (arith, known)) accepts h.accepts_known;
  older = All-mono (λ r old. omega arith) accepts h.older;
  actives_known = All-mono (λ r known. ground (arith, known)) actives h.actives_known;
  accepted = h.accepted;
  accepts_apart = h.accepts_apart;
  accepts_bound = h.accepts_bound;
  activated = h.activated;
  actives_apart = h.actives_apart;
  actives_bound = h.actives_bound;
  joined = h.joined;
}

IsJoined-append :
    (accepts : List AcceptRow) (a : AcceptRow) (r : ActiveRow)
    → IsJoined accepts r
    → IsJoined (accepts ++ a ∷ []) r
IsJoined-append accepts a r h = record {
  joined = any-append (joins r) accepts (a ∷ []) h.joined;
  below = let longer = length-append accepts (a ∷ []) in let below = h.below in omega arith;
}

pub IsChain-accept :
    (scope : String) (receipts : List Receipt) (last : ℕ) (accepts : List AcceptRow)
    (actives : List ActiveRow) (r : AcceptRow) (q : Receipt)
    → IsChain scope receipts last accepts actives
    → find (is_receipt r.request.operation) receipts ≡ none
    → q.ticket.operation ≡ r.request.operation
    → last < r.id
    → IsAcceptAt scope (length accepts) r
    → suc (length accepts) ≤ max_accepted
    → IsChain scope (q ∷ receipts) r.id (accepts ++ r ∷ []) actives
IsChain-accept scope receipts last accepts actives r q h fresh receipt newer at bound =
    let grown = IsChain-later scope receipts last accepts actives q r.id (omega arith) h in
    record {
      accepted = AcceptsFrom-append scope 0 (length accepts) accepts r (omega arith) h.accepted at;
      accepts_apart = Pairwise-append AcceptsApart accepts r h.accepts_apart (
          All-mono
            (λ a known. Known-distinct receipts r.request.operation a.request.operation fresh known)
            accepts h.accepts_known);
      accepts_bound = let longer = length-append accepts (r ∷ []) in omega arith;
      accepts_known =
          All-append _ accepts (r ∷ []) grown.accepts_known
            (ground (arith, receipt, eq_iff r.request.operation r.request.operation), tt);
      older = All-append _ accepts (r ∷ []) grown.older (omega arith, tt);
      joined = All-mono (λ b j. IsJoined-append accepts r b j) actives h.joined;
      activated = grown.activated;
      actives_apart = grown.actives_apart;
      actives_bound = grown.actives_bound;
      actives_known = grown.actives_known;
    }

pub IsChain-active :
    (scope : String) (receipts : List Receipt) (last : ℕ) (accepts : List AcceptRow)
    (actives : List ActiveRow) (r : ActiveRow) (q : Receipt)
    → IsChain scope receipts last accepts actives
    → find (is_receipt r.request.operation) receipts ≡ none
    → q.ticket.operation ≡ r.request.operation
    → last < r.id
    → IsActiveAt scope (length actives) r
    → suc (length actives) ≤ max_accepted
    → last_revision 0 actives ≤ r.request.acceptance.expected
    → IsJoined accepts r
    → IsChain scope (q ∷ receipts) r.id accepts (actives ++ r ∷ [])
IsChain-active scope receipts last accepts actives r q h fresh receipt newer at bound above join =
    let grown = IsChain-later scope receipts last accepts actives q r.id (omega arith) h in
    record {
      activated =
          ActivesFrom-append scope 0 (length actives) 0 actives r (omega arith) h.activated at
            above;
      actives_apart = Pairwise-append ActivesApart actives r h.actives_apart (
          All-mono
            (λ a known. Known-distinct receipts r.request.operation a.request.operation fresh known)
            actives h.actives_known);
      actives_bound = let longer = length-append actives (r ∷ []) in omega arith;
      actives_known =
          All-append _ actives (r ∷ []) grown.actives_known
            (ground (arith, receipt, eq_iff r.request.operation r.request.operation), tt);
      joined = All-append _ actives (r ∷ []) h.joined (join, tt);
      accepted = grown.accepted;
      accepts_apart = grown.accepts_apart;
      accepts_bound = grown.accepts_bound;
      accepts_known = grown.accepts_known;
      older = grown.older;
    }
