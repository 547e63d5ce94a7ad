-- ===== src/Accept/Chains/Additions.antt =====
-- The row that a prepared ticket of accept/store.rs or accept/activation.rs adds, and what its caller had read.
use verdant.Base.{
  suc, ◌+◌, ◌<◌, ◌≡◌, refl, inl, inr, String, true, false, none, some, List, [], ◌∷◌, ◌++◌, length,
  ok, arith, Result-cases, string_partial_eq,
}
use verdant.Accept.Store.{
  AcceptRow, AcceptanceRequest, Accepted, ActivationRequest, ActiveRow, acceptance_eq, accepts_of,
  actives_of, current_accepted, accepted_history, pop,
}
use verdant.Accept.Tickets.{AcceptanceDatabase, Receipt, run_body}
use verdant.Accept.Activation.{
  Activated, activation_history, active_revision, check_activation_order, is_active_already,
}
use verdant.Accept.Chains.{accepted_from-ok, accepted_list, activated_from-ok, activated_list}
use verdant.Accept.Chains.Growth.{generation_or_initial-pop}
use verdant.Accept.Chains.Landing.{LandsAccept, LandsActive}

pub record AddsAccept (db next : AcceptanceDatabase) (request : AcceptanceRequest) : Type 0 where
  pub row : AcceptRow
  pub receipt : Receipt
  pub accepts : next.accepts ≡ db.accepts ++ row ∷ []
  pub actives : next.actives ≡ db.actives
  pub receipts : next.receipts ≡ receipt ∷ db.receipts
  pub last : next.last_id ≡ row.id
  pub newer : db.last_id < row.id
  pub entity : row.entity ≡ request.scope
  pub seq : row.seq ≡ suc request.expected
  pub same : row.request ≡ request
  pub operation : receipt.ticket.operation ≡ request.operation
  pub count : length (accepts_of request.scope db.accepts) ≡ request.expected

pub LandsAccept-AddsAccept :
    (db next : AcceptanceDatabase) (l : LandsAccept db next) → AddsAccept db next l.request
unfolding run_body
LandsAccept-AddsAccept db next l =
    let id = suc (db.last_id + l.runs.moment.skipped) in
    let ran = rw l.body at l.runs.ran in
    record {
      row = record {
        id = id;
        entity = l.request.scope;
        seq = suc l.request.expected;
        request = l.request;
        actor = l.actor;
      };
      receipt = record { ticket = l.ticket; row = id };
      accepts = ground (arith, ran);
      actives = ground (arith, ran);
      receipts = ground (arith, ran);
      last = ground (arith, ran);
      newer = omega arith;
      entity = refl;
      seq = refl;
      same = refl;
      operation = l.operation;
      count = ground (arith, ran);
    }

pub record AddsActive (db next : AcceptanceDatabase) (request : ActivationRequest)
    (target : Accepted) : Type 0 where
  pub row : ActiveRow
  pub receipt : Receipt
  pub accepts : next.accepts ≡ db.accepts
  pub actives : next.actives ≡ db.actives ++ row ∷ []
  pub receipts : next.receipts ≡ receipt ∷ db.receipts
  pub last : next.last_id ≡ row.id
  pub newer : db.last_id < row.id
  pub entity : row.entity ≡ request.acceptance.scope
  pub seq : row.seq ≡ suc request.expected
  pub same : row.request ≡ request
  pub operation : receipt.ticket.operation ≡ request.operation
  pub count : length (actives_of request.acceptance.scope db.actives) ≡ request.expected
  pub accepted : length (accepts_of request.acceptance.scope db.accepts) ≡ target.revision

pub LandsActive-AddsActive :
    (db next : AcceptanceDatabase) (l : LandsActive db next) → AddsActive db next l.request l.target
unfolding run_body
LandsActive-AddsActive db next l =
    let id = suc (db.last_id + l.runs.moment.skipped) in
    let ran = rw l.body at l.runs.ran in
    record {
      row = record {
        id = id;
        entity = l.request.acceptance.scope;
        seq = suc l.request.expected;
        request = l.request;
      };
      receipt = record { ticket = l.ticket; row = id };
      accepts = ground (arith, ran);
      actives = ground (arith, ran);
      receipts = ground (arith, ran);
      last = ground (arith, ran);
      newer = omega arith;
      entity = refl;
      seq = refl;
      same = refl;
      operation = l.operation;
      count = ground (arith, ran);
      accepted = ground (arith, ran);
    }

accepted_history-ok :
    (scope : String) (rows : List AcceptRow) (chain : List Accepted)
    → accepted_history scope rows ≡ ok chain
    → chain ≡ accepted_list 0 (accepts_of scope rows)
unfolding accepted_history
accepted_history-ok scope rows chain h =
    accepted_from-ok scope 0 [] (accepts_of scope rows) chain (ground arith)

activation_history-ok :
    (scope : String) (accepts : List AcceptRow) (actives : List ActiveRow) (chain : List Activated)
    → activation_history scope accepts actives ≡ ok chain
    → chain ≡ activated_list 0 (actives_of scope actives)
unfolding activation_history
activation_history-ok scope accepts actives chain h =
    elim (Result-cases (accepted_history scope accepts)) [
      | inr (e, p) ↦ ground arith
      | inl (accepted, p) ↦
          activated_from-ok scope accepted 0 [] 0 (actives_of scope actives) chain (ground arith)
    ]

-- What the check of the order says of the rows that it reads.
pub record IsNext (request : ActivationRequest) (accepts : List AcceptRow)
    (actives : List ActiveRow) (target : Accepted) : Type 0 where
  pub newest : pop (accepted_list 0 accepts) ≡ some target
  pub count : request.expected ≡ length actives
  pub same : acceptance_eq target.request request.acceptance ≡ true
  pub inactive : is_active_already none (pop (activated_list 0 actives)) target.revision ≡ false

pub check_activation_order-IsNext :
    (request : ActivationRequest) (accepts : List AcceptRow) (actives : List ActiveRow)
    (target : Accepted)
    → check_activation_order request none accepts actives ≡ ok target
    → IsNext request
        (accepts_of request.acceptance.scope accepts)
        (actives_of request.acceptance.scope actives)
        target
unfolding check_activation_order active_revision current_accepted
check_activation_order-IsNext request accepts actives target h =
    let scope = request.acceptance.scope in
    elim (Result-cases (activation_history scope accepts actives)) [
      | inr (e, p) ↦ ground arith
      | inl (moves, p) ↦ elim (Result-cases (accepted_history scope accepts)) [
        | inr (e, q) ↦ ground arith
        | inl (chain, q) ↦
            let of_moves = activation_history-ok scope accepts actives moves p in
            let of_chain = accepted_history-ok scope accepts chain q in
            let checked = rw (p, q, of_moves, of_chain) at h in
            record {
              newest = ground (arith, checked);
              count =
                  let by = generation_or_initial-pop (actives_of scope actives) in
                  ground (arith, checked);
              same = ground (arith, checked);
              inactive = ground (arith, checked);
            }
      ]
    ]
