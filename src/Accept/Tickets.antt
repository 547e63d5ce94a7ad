-- ===== src/Accept/Tickets.antt =====
-- src/accept/store.rs and src/accept/activation.rs: the tickets that add an event, with their guards, and what
-- src/storage/sqlite/mutation.rs answers to them. The guards on other owners' rows are a text that holds or
-- not when a batch runs.
use verdant.Base.{
  ℕ, suc, ◌+◌, String, Bool, true, false, ◌&&◌, Option, none, some, List, [], ◌∷◌, ◌++◌, nat_eq,
  any, find, length, Result, ok, err, ◌>>◌, ensure, refuse_if, ◌==◌, string_partial_eq,
  if◌then◌else◌,
}
use verdant.Storage.Mutation.{StorageError, sqlite_failure}
use verdant.Storage.Mutation
use verdant.Accept.Store.{
  AcceptRow, AcceptanceRequest, Accepted, ActivationRequest, ActiveRow, Error, acceptance_eq,
  accepts_of, activation_eq, actives_of, conflict, invalid, storage, unknown,
}

-- What a ticket's body does: the guards and the event of `prepare`, and those of `prepare_activation`,
-- which names the acceptance that it read.
pub data Body : Type 0 where
  accepting : AcceptanceRequest → String → Body
  activating : ActivationRequest → Accepted → Body

abbrev pub body_eq : Body → Body → Bool
body_eq (accepting a actor) (accepting b bactor) = acceptance_eq a b && actor == bactor
body_eq (activating a x) (activating b y) =
    activation_eq a b
    && nat_eq x.revision y.revision
    && nat_eq x.row_id y.row_id
    && acceptance_eq x.request y.request
    && x.actor_reference == y.actor_reference
body_eq _ _ = false

pub record Ticket : Type 0 where
  pub operation : String
  pub guard : String
  pub body : Body

pub record Receipt : Type 0 where
  pub ticket : Ticket
  pub row : ℕ

pub record AcceptanceDatabase : Type 0 where
  pub accepts : List AcceptRow
  pub actives : List ActiveRow
  pub receipts : List Receipt
  pub last_id : ℕ

-- The constraints that a batch can fail.
pub data Check : Type 0 where
  expected_changed guard_unchanged : Check
  activation_generation activation_acceptance activation_publication : Check

pub data Outcome : Type 0 where
  committed : ℕ → Outcome
  check_failed : Check → Outcome
  not_committed : StorageError → Outcome
  clashed : String → Outcome
  uncertain : String → String → Outcome

pub data CommitFate : Type 0 where
  commits : CommitFate
  refuses : StorageError → CommitFate
  loses : Bool → String → CommitFate

-- When a batch runs: how many rows other owners added, whether the guards on their rows hold, and how
-- the store answers.
pub record Moment : Type 0 where
  pub skipped : ℕ
  pub guard_holds : Bool
  pub fate : CommitFate

abbrev pub is_event : Accepted → AcceptRow → Bool
is_event a r =
    nat_eq r.id a.row_id && acceptance_eq r.request a.request && r.actor == a.actor_reference

-- The batch of a ticket, inside its transaction: the tables that it leaves.
unfoldable pub run_body :
    Moment → Ticket → Body → AcceptanceDatabase → Result Check AcceptanceDatabase
run_body m t (accepting request actor) db = do
  ensure m.guard_holds guard_unchanged
  ensure (nat_eq (length (accepts_of request.scope db.accepts)) request.expected) expected_changed
  let id = suc (db.last_id + m.skipped)
  ok (record db {
    accepts =
        db.accepts
        ++ record {
          id = id;
          entity = request.scope;
          seq = suc request.expected;
          request = request;
          actor = actor;
        }
          ∷ [];
    receipts = record { ticket = t; row = id } ∷ db.receipts;
    last_id = id;
  })
run_body m t (activating request target) db = do
  let scope = request.acceptance.scope
  ensure (nat_eq (length (actives_of scope db.actives)) request.expected) activation_generation
  ensure
      (nat_eq (length (accepts_of scope db.accepts)) target.revision
        && any (is_event target) db.accepts)
      activation_acceptance
  ensure m.guard_holds activation_publication
  let id = suc (db.last_id + m.skipped)
  ok (record db {
    actives =
        db.actives
        ++ record { id = id; entity = scope; seq = suc request.expected; request = request } ∷ [];
    receipts = record { ticket = t; row = id } ∷ db.receipts;
    last_id = id;
  })

abbrev pub is_receipt : String → Receipt → Bool
is_receipt operation r = r.ticket.operation == operation

abbrev pub ticket_eq : Ticket → Ticket → Bool
ticket_eq a b = a.operation == b.operation && a.guard == b.guard && body_eq a.body b.body

abbrev pub answered_ticket :
    CommitFate
    → Ticket
    → AcceptanceDatabase
    → Result Check AcceptanceDatabase
    → AcceptanceDatabase × Outcome
answered_ticket (refuses e) t db result = (db, not_committed e)
answered_ticket commits t db (ok next) = (next, committed next.last_id)
answered_ticket commits t db (err c) = (db, check_failed c)
answered_ticket (loses applied detail) t db (err c) = (db, check_failed c)
answered_ticket (loses true detail) t db (ok next) = (next, uncertain t.operation detail)
answered_ticket (loses false detail) t db (ok next) = (db, uncertain t.operation detail)

abbrev pub replayed : Ticket → Receipt → Outcome
replayed t r = if ticket_eq r.ticket t then committed r.row else clashed "operation identity reused"

-- `SqliteStore::submit` of a ticket, whose receipt is looked up first.
unfoldable pub submit_ticket : Moment → Ticket → AcceptanceDatabase → AcceptanceDatabase × Outcome
unfolding run_body
submit_ticket m t db = elim (find (is_receipt t.operation) db.receipts) [
  | some r ↦ (db, replayed t r)
  | none ↦ answered_ticket m.fate t db (run_body m t t.body db)
]

-- `SqliteStore::reconcile`, which may fail to read, and `reconcile_operation`, which has no ticket.
unfoldable pub reconcile_ticket : Option String → Ticket → AcceptanceDatabase → Outcome
reconcile_ticket (some fault) t db = uncertain t.operation fault
reconcile_ticket none t db = elim (find (is_receipt t.operation) db.receipts) [
  | some r ↦ replayed t r
  | none ↦ not_committed (sqlite_failure "no receipt at writer barrier")
]

unfoldable pub reconcile_operation : Option String → String → AcceptanceDatabase → Outcome
reconcile_operation (some fault) operation db = uncertain operation fault
reconcile_operation none operation db = elim (find (is_receipt operation) db.receipts) [
  | some r ↦ committed r.row
  | none ↦ not_committed (sqlite_failure "no receipt at writer barrier")
]

abbrev from_storage : StorageError → Error
from_storage (Mutation.conflict detail) = conflict detail
from_storage e = storage e

unfoldable pub committed_row : Outcome → Result Error ℕ
committed_row (committed row) = do refuse_if (nat_eq row 0) (invalid "accept receipt row"); ok row
committed_row (check_failed expected_changed) =
    err (conflict "zero affected rows: expected accepted revision lost")
committed_row (check_failed guard_unchanged) =
    err (conflict "authority, binding or publication changed")
committed_row (check_failed c) = err (storage (sqlite_failure "CHECK constraint failed"))
committed_row (not_committed e) = err (from_storage e)
committed_row (clashed detail) = err (conflict detail)
committed_row (uncertain operation detail) = err (unknown operation detail)

abbrev pub is_absent : Outcome → Bool
is_absent (check_failed c) = true
is_absent (not_committed e) = true
is_absent _ = false
