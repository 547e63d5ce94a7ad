-- ===== src/Accept/Chains/Landing.antt =====
-- What a call of accept/store.rs or accept/activation.rs can do to the store's rows: nothing, or the batch of a
-- ticket that was prepared.
use verdant.Base.{
  ℕ, suc, ◌≤◌, ◌≡◌, refl, ◌⊎◌, inl, inr, String, none, some, List, length, take, ◌>>◌, Result, ok,
  arith, Result-cases,
}
use verdant.Accept.Store.{
  AcceptRow, AcceptanceRequest, Accepted, ActivationRequest, ActiveRow, Error, accepts_of,
  actives_of, max_accepted, new_revision, next_revision,
}
use verdant.Accept.Tickets.{AcceptanceDatabase, Ticket, accepting, activating}
use verdant.Accept.Acceptance.{Answers, Sealed, prepare}
use verdant.Accept.Activation.{check_activation_order, generation_after, new_generation}
use verdant.Accept.Activate.{activate, prepare_activation, reconcile_activation}
use verdant.Accept.Histories.{Call, accept, move, move_now, step}
use verdant.Accept.Chains.Growth.{keep-take}
use verdant.Accept.Chains.Outcomes.{Runs, submit-cases, submit_activation-cases}

-- The batch of an acceptance that `prepare` made.
pub record LandsAccept (db next : AcceptanceDatabase) : Type 0 where
  pub ticket : Ticket
  pub request : AcceptanceRequest
  pub actor : String
  pub runs : Runs db ticket next
  pub operation : ticket.operation ≡ request.operation
  pub body : ticket.body ≡ accepting request actor
  pub bound : suc request.expected ≤ max_accepted

-- The batch of an activation that `prepare_activation` made of the rows that it read, which are all of a scope
-- where they are as many.
pub record LandsActive (db next : AcceptanceDatabase) : Type 0 where
  pub ticket : Ticket
  pub request : ActivationRequest
  pub target : Accepted
  pub accepts : List AcceptRow
  pub actives : List ActiveRow
  pub runs : Runs db ticket next
  pub operation : ticket.operation ≡ request.operation
  pub body : ticket.body ≡ activating request target
  pub bound : suc request.expected ≤ max_accepted
  pub order : check_activation_order request none accepts actives ≡ ok target
  pub all_accepts :
      (scope : String)
      → length (accepts_of scope accepts) ≡ length (accepts_of scope db.accepts)
      → accepts_of scope accepts ≡ accepts_of scope db.accepts
  pub all_actives :
      (scope : String)
      → length (actives_of scope actives) ≡ length (actives_of scope db.actives)
      → actives_of scope actives ≡ actives_of scope db.actives

record Prepared (request : ActivationRequest) (accepts : List AcceptRow) (actives : List ActiveRow)
    (t : Ticket) : Type 0 where
  pub target : Accepted
  pub operation : t.operation ≡ request.operation
  pub body : t.body ≡ activating request target
  pub bound : suc request.expected ≤ max_accepted
  pub order : check_activation_order request none accepts actives ≡ ok target

prepare_activation-Prepared :
    (environment : Result Error (Unit {0})) (seal : Result Error String)
    (request : ActivationRequest) (accepts : List AcceptRow) (actives : List ActiveRow) (t : Ticket)
    → prepare_activation environment seal request accepts actives ≡ ok t
    → Prepared request accepts actives t
unfolding prepare_activation generation_after new_generation
prepare_activation-Prepared environment seal request accepts actives t h =
    elim (Result-cases (check_activation_order request none accepts actives)) [
      | inr (e, p) ↦ ground arith
      | inl (target, p) ↦ record {
        target = target;
        operation = ground arith;
        body = ground arith;
        bound = ground arith;
        order = p;
      }
    ]

record PreparedAccept (request : AcceptanceRequest) (t : Ticket) : Type 0 where
  pub actor : String
  pub operation : t.operation ≡ request.operation
  pub body : t.body ≡ accepting request actor
  pub bound : suc request.expected ≤ max_accepted

prepare-PreparedAccept :
    (answers : Answers) (operation : String) (expected : ℕ) (source : Sealed)
    (rows : List AcceptRow) (request : AcceptanceRequest) (t : Ticket)
    → prepare answers operation expected source rows ≡ ok (request, t)
    → PreparedAccept request t
unfolding prepare new_revision next_revision
prepare-PreparedAccept answers operation expected source rows request t h =
    elim (Result-cases answers.authority) [
      | inr (e, p) ↦ ground arith
      | inl ((actor, guard), p) ↦ record {
        actor = actor;
        operation = ground arith;
        body = ground arith;
        bound = ground arith;
      }
    ]

-- A step leaves the rows, or adds one that a prepared ticket makes.
pub step-cases :
    (db : AcceptanceDatabase) (c : Call)
    → (step db c ≡ db) ⊎ (LandsAccept db (step db c) ⊎ LandsActive db (step db c))
unfolding step activate
step-cases db (accept seen answers operation expected source s) =
    elim (Result-cases (prepare answers operation expected source (take seen db.accepts))) [
      | inr (e, refused) ↦ inl (rw (refused, step) refl)
      | inl ((request, t), done) ↦
          let made =
            prepare-PreparedAccept answers operation expected source (take seen db.accepts) request
              t done in
          elim (submit-cases s request t db) [
            | inl same ↦ inl (rw (done, step) same)
            | inr runs ↦ inr (
                inl (record {
                  ticket = t;
                  request = request;
                  actor = made.actor;
                  runs = rw (done, step) runs;
                  operation = made.operation;
                  body = made.body;
                  bound = made.bound;
                }))
          ]
    ]
step-cases db (move accepts actives environment seal request s) =
    let old_accepts = take accepts db.accepts in
    let old_actives = take actives db.actives in
    elim (Result-cases (prepare_activation environment seal request old_accepts old_actives)) [
      | inr (e, refused) ↦ inl (rw (refused, step) refl)
      | inl (t, done) ↦
          let made =
            prepare_activation-Prepared environment seal request old_accepts old_actives t done in
          elim (submit_activation-cases s request t db) [
            | inl same ↦ inl (rw (done, step) same)
            | inr runs ↦ inr (
                inr (record {
                  ticket = t;
                  request = request;
                  target = made.target;
                  accepts = old_accepts;
                  actives = old_actives;
                  runs = rw (done, step) runs;
                  operation = made.operation;
                  body = made.body;
                  bound = made.bound;
                  order = made.order;
                  all_accepts = λ scope h. keep-take _ accepts db.accepts h;
                  all_actives = λ scope h. keep-take _ actives db.actives h;
                }))
          ]
    ]
step-cases db (move_now fault seal s request) =
    elim (Result-cases (s.environment >> reconcile_activation fault request db)) [
      | inr (e, refused) ↦ inl (rw (refused, step) refl)
      | inl (some found, known) ↦ inl (rw (known, step) refl)
      | inl (none, absent) ↦
          elim (Result-cases
            (prepare_activation s.environment seal request db.accepts db.actives)) [
              | inr (e, refused) ↦ inl (rw (absent, refused, step) refl)
              | inl (t, done) ↦
                  let made =
                    prepare_activation-Prepared s.environment seal request db.accepts db.actives t
                      done in
                  elim (submit_activation-cases s request t db) [
                    | inl same ↦ inl (rw (absent, done, step) same)
                    | inr runs ↦ inr (
                        inr (record {
                          ticket = t;
                          request = request;
                          target = made.target;
                          accepts = db.accepts;
                          actives = db.actives;
                          runs = rw (absent, done, step) runs;
                          operation = made.operation;
                          body = made.body;
                          bound = made.bound;
                          order = made.order;
                          all_accepts = λ scope h. refl;
                          all_actives = λ scope h. refl;
                        }))
                  ]
            ]
    ]
