-- ===== src/Accept/Acceptance.antt =====
-- src/accept/store.rs: how an acceptance is prepared, submitted and read back.
use verdant.Base.{
  ℕ, String, Bool, true, false, Option, none, some, List, nat_eq, find, Result, ok, err, ◌>>=◌,
  ◌>>◌, ensure, ok_or, string_partial_eq, if◌then◌else◌, map_err,
}
use verdant.Accept.Store.{
  AcceptRow, AcceptanceRequest, Accepted, Error, acceptance_eq, conflict, accepted_history,
  next_revision, unknown,
}
use verdant.Accept.Tickets.{
  AcceptanceDatabase, Moment, Outcome, Ticket, accepting, committed_row, is_absent,
  reconcile_operation, reconcile_ticket, submit_ticket, uncertain,
}

unfoldable pub read_commit : AcceptanceRequest → ℕ → Bool → List AcceptRow → Result Error Accepted
unfolding accepted_history
read_commit request row reconciled rows = do
  chain ← accepted_history request.scope rows
  found ←
      ok_or (find (λ a. nat_eq a.row_id row) chain)
        (conflict "receipt does not identify an accepted event")
  ensure (acceptance_eq found.request request)
      (conflict "operation identity reused with different acceptance")
  ok (record found { reconciled = reconciled })

unfoldable pub reconcile :
    Option String → AcceptanceRequest → AcceptanceDatabase → Result Error (Option Accepted)
unfolding reconcile_operation committed_row read_commit
reconcile fault request db =
    let outcome = reconcile_operation fault request.operation db in
    if is_absent outcome then ok none else (do
      row ← committed_row outcome
      found ← read_commit request row true db.accepts
      ok (some found))

-- A publication: its identity, its staged operation, its scope and the text of its guard.
pub record Sealed : Type 0 where
  pub identity : String
  pub staged_operation : String
  pub scope : String
  pub guard : String

-- What the other owners answer to `prepare`: the environment, then the stores, the registry, its revision and
-- the bootstrap reason, then the seal, then the authority with its actor and the text of its guards.
pub record Answers : Type 0 where
  pub environment : Result Error (Unit {0})
  pub registry : Result Error (Unit {0})
  pub verified : Result Error (Unit {0})
  pub authority : Result Error (String × String)

unfoldable pub prepare :
    Answers → String → ℕ → Sealed → List AcceptRow → Result Error (AcceptanceRequest × Ticket)
unfolding next_revision accepted_history
prepare answers operation expected source rows = do
  answers.environment
  next_revision expected
  answers.registry
  accepted_history source.scope rows
  answers.verified
  (actor_reference, guard) ← answers.authority
  let request : AcceptanceRequest = record {
    operation = operation;
    expected = expected;
    scope = source.scope;
    staged_operation = source.staged_operation;
    seal = source.identity;
  }
  ok (
    request,
    record { operation = operation; guard = guard; body = accepting request actor_reference },
  )

-- The answer of the store to a submit; one that is lost is reconciled, which may fail too.
abbrev pub settled :
    Option String → Ticket → AcceptanceDatabase × Outcome → AcceptanceDatabase × (Outcome × Bool)
settled fault t (db, uncertain operation detail) = (db, (reconcile_ticket fault t db, true))
settled fault t (db, outcome) = (db, (outcome, false))

-- What one submit meets: the first reconciliation, the environment and the seal, the batch, and the last
-- reconciliation.
pub record Submission : Type 0 where
  pub environment : Result Error (Unit {0})
  pub first : Option String
  pub verified : Result Error (Unit {0})
  pub moment : Moment
  pub last : Option String

abbrev read_failed : String → Error → Error
read_failed operation (conflict detail) = conflict detail
read_failed operation e = unknown operation "committed event; read failed"

unfoldable pub submit :
    Submission
    → AcceptanceRequest × Ticket
    → AcceptanceDatabase
    → AcceptanceDatabase × Result Error Accepted
unfolding submit_ticket reconcile_ticket committed_row read_commit
submit s (request, ticket) db =
    let before = reconcile_ticket s.first ticket db in
    elim s.environment [
      | err e ↦ (db, err e)
      | ok _ ↦
          if is_absent before
          then elim s.verified [
            | err e ↦ (db, err e)
            | ok _ ↦
                let landed = settled s.last ticket (submit_ticket s.moment ticket db) in
                (
                  landed.0,
                  do
                    row ← committed_row landed.1.0
                    map_err (read_failed request.operation)
                        (read_commit request row landed.1.1 landed.0.accepts),
                )
          ]
          else (db, do row ← committed_row before; read_commit request row true db.accepts)
    ]
