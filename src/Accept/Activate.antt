-- ===== src/Accept/Activate.antt =====
-- src/accept/activation.rs: how an activation is prepared, submitted, repeated and read back; and the stage of a
-- publication, of src/accept/store.rs.
use verdant.Base.{
  ℕ, String, Bool, true, false, ◌&&◌, Option, none, some, List, nat_eq, any, find, Result, ok, err,
  ◌>>=◌, ◌>>◌, ensure, ok_or, ◌==◌, string_partial_eq, if◌then◌else◌, map_err,
}
use verdant.Accept.Store.{
  AcceptRow, ActivationRequest, ActiveRow, Error, Stage, accepted, activated, activation_blocked,
  activation_eq, blocked, conflict, accepted_history, invalid, not_yet, qualified, sealed,
  stale_generation, unknown,
}
use verdant.Accept.Tickets.{
  AcceptanceDatabase, Moment, Outcome, Ticket, activating, activation_acceptance,
  activation_generation, activation_publication, committed_row, check_failed, is_absent,
  reconcile_operation, reconcile_ticket, submit_ticket,
}
use verdant.Accept.Acceptance.{settled}
use verdant.Accept.Activation.{
  Activated, activation_history, active_revision, check_activation_order, generation_after,
  generation_or_initial, superseded_by,
}

unfoldable pub map_blocked : ActivationRequest → Error → Error
map_blocked request (blocked cause) =
    activation_blocked request.acceptance.scope request.acceptance.seal cause
map_blocked request (invalid detail) =
    if detail == "missing/ambiguous staged row"
    then activation_blocked request.acceptance.scope request.acceptance.seal "accepted staged root"
    else invalid detail
map_blocked request e = e

-- `environment` is what `check_environment` answers, and `seal` what reading the staged row and its seal does:
-- the text of its guard.
unfoldable pub prepare_activation :
    Result Error (Unit {0})
    → Result Error String
    → ActivationRequest
    → List AcceptRow
    → List ActiveRow
    → Result Error Ticket
unfolding generation_after check_activation_order map_blocked
prepare_activation environment seal request accepts actives = do
  environment
  generation_after request.expected
  target ← check_activation_order request none accepts actives
  guard ← map_err (map_blocked request) seal
  ok (record { operation = request.operation; guard = guard; body = activating request target })

unfoldable pub read_activation_commit :
    ActivationRequest → ℕ → Bool → AcceptanceDatabase → Result Error Activated
unfolding activation_history
read_activation_commit request row reconciled db = do
  chain ← activation_history request.acceptance.scope db.accepts db.actives
  found ←
      ok_or (find (λ a. nat_eq a.row_id row) chain)
        (conflict "receipt does not identify an activation")
  ensure (activation_eq found.request request)
      (conflict "operation identity reused with different activation")
  ok (record found { reconciled = reconciled })

-- What one submit meets besides the store's rows.
pub record ActivationSubmission : Type 0 where
  pub environment : Result Error (Unit {0})
  pub first : Option String
  pub verified : Result Error (Unit {0})
  pub moment : Moment
  pub last : Option String

-- The row of a batch, or why it failed.
unfoldable pub activation_row : ActivationRequest → AcceptanceDatabase → Outcome → Result Error ℕ
unfolding active_revision check_activation_order superseded_by committed_row
activation_row request db (check_failed activation_generation) = do
  found ← active_revision request.acceptance.scope db.accepts db.actives
  err (stale_generation request.expected (generation_or_initial found))
activation_row request db (check_failed activation_acceptance) = do
  check_activation_order request none db.accepts db.actives
  e ← superseded_by request db.accepts
  err e
activation_row request db (check_failed activation_publication) = do
  check_activation_order request none db.accepts db.actives
  err (
      activation_blocked request.acceptance.scope request.acceptance.seal
        "publication changed during activation admission")
activation_row request db outcome = committed_row outcome

-- A submit of a ticket that has committed before: the order and the seal are checked again.
abbrev pub replay_activation :
    ActivationSubmission → ActivationRequest → Outcome → AcceptanceDatabase → Result Error Activated
replay_activation s request before db = do
  row ← committed_row before
  found ← read_activation_commit request row true db
  check_activation_order request (some found.row_id) db.accepts db.actives
  map_err (map_blocked request) s.verified
  ok found

unfoldable pub submit_activation :
    ActivationSubmission
    → ActivationRequest
    → Ticket
    → AcceptanceDatabase
    → AcceptanceDatabase × Result Error Activated
unfolding check_activation_order map_blocked submit_ticket reconcile_ticket activation_row
    read_activation_commit
submit_activation s request ticket db =
    let before = reconcile_ticket s.first ticket db in
    elim s.environment [
      | err e ↦ (db, err e)
      | ok _ ↦
          if is_absent before
          then elim (do
            check_activation_order request none db.accepts db.actives
            map_err (map_blocked request) s.verified) [
              | err e ↦ (db, err e)
              | ok _ ↦
                  let landed = settled s.last ticket (submit_ticket s.moment ticket db) in
                  (
                    landed.0,
                    do
                      row ← activation_row request landed.0 landed.1.0
                      map_err (λ _. unknown request.operation "committed activation; read failed")
                          (read_activation_commit request row landed.1.1 landed.0),
                  )
            ]
          else (db, replay_activation s request before db)
    ]

unfoldable pub reconcile_activation :
    Option String → ActivationRequest → AcceptanceDatabase → Result Error (Option Activated)
unfolding reconcile_operation committed_row read_activation_commit
reconcile_activation fault request db =
    let outcome = reconcile_operation fault request.operation db in
    if is_absent outcome then ok none else (do
      row ← committed_row outcome
      found ← read_activation_commit request row true db
      ok (some found))

-- `activate`: a request that has committed is checked again and answered; another is prepared and
-- submitted.
unfoldable pub activate :
    Option String
    → Result Error String
    → ActivationSubmission
    → ActivationRequest
    → AcceptanceDatabase
    → AcceptanceDatabase × Result Error Activated
unfolding reconcile_activation check_activation_order map_blocked prepare_activation
    submit_activation
activate fault seal s request db = elim (s.environment >> reconcile_activation fault request db) [
  | err e ↦ (db, err e)
  | ok (some found) ↦ (
    db,
    do
      check_activation_order request (some found.row_id) db.accepts db.actives
      map_err (map_blocked request) seal
      ok found,
  )
  | ok none ↦ elim (prepare_activation s.environment seal request db.accepts db.actives) [
    | err e ↦ (db, err e)
    | ok ticket ↦ submit_activation s request ticket db
  ]
]

-- `AcceptanceStore::status` of a publication, by its identity, its staged operation and its scope.
unfoldable pub stage_of : String → String → String → AcceptanceDatabase → Result Error Stage
unfolding active_revision accepted_history
stage_of identity staged_operation scope db = do
  found ← active_revision scope db.accepts db.actives
  chain ← accepted_history scope db.accepts
  ok (
      if elim found [
        | none ↦ false
        | some a ↦
            a.request.acceptance.seal == identity
            && a.request.acceptance.staged_operation == staged_operation
      ]
      then activated
      else if any
          (λ a. a.request.seal == identity && a.request.staged_operation == staged_operation) chain
      then accepted
      else sealed)

-- `AcceptanceStore::transition`, which never succeeds.
unfoldable pub transition_stage : Stage → Error
transition_stage qualified = not_yet qualified
transition_stage activated = invalid "use activation request API"
transition_stage _ = invalid "use stage/sealed/prepare APIs"
