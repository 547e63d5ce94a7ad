-- ===== src/Storage/Mutation.antt =====
-- src/storage/sqlite/mutation.rs: tickets, their receipts, and what a submit or a reconcile reports.
-- The statements of a ticket run in SQLite: `exec` says what a body does to the tables `D` inside
-- its transaction. The decoder of an outbox row (src/storage/sqlite/mod.rs) is the parameter
-- `decode_row`. Receipts hold typed requests and rows; their hex text is not modelled.
use verdant.Base.{
  ℕ, Bool, true, false, not, ◌&&◌, ◌||◌, Option, none, some, List, [], ◌∷◌, String, ltb, nat_eq,
  ◌==◌, string_partial_eq, if◌then◌else◌, find, Result, ok, err, ◌>>=◌, ◌>>◌, ensure, refuse_if,
  u64_max, saturating_add, ◌+◌, ◌*◌, ◌-◌, leb, i64_max,
}
use verdant.Domain.Ids.{codes}
pub mod Receipts
pub mod Outcomes
pub mod Reconcile

pub data Shape : Type 0 where
  insert rows change : Shape

abbrev pub shape_eq : Shape → Shape → Bool
shape_eq insert insert = true
shape_eq rows rows = true
shape_eq change change = true
shape_eq _ _ = false

-- src/storage/mod.rs `StorageError`, the variants that a mutation tells apart.
pub data StorageError : Type 0 where
  sqlite_failure maintenance_required space_exhausted conflict invalid_record :
      String → StorageError
  value_too_large : ℕ → ℕ → StorageError

abbrev pub Rows : Type 0
Rows = List (List String)

-- `PreparedMutation`; `attempted` is the flag that its clones share.
pub record PreparedMutation : Type 0 where
  pub operation : String
  pub store : String
  pub body : String
  pub shape : Shape
  pub payload_bytes : ℕ
  pub attempted : Bool

-- The flag that a submit sets (`attempted.swap(true)`), as a later submit of the ticket sees it.
unfoldable pub mark_attempted : PreparedMutation → PreparedMutation
mark_attempted p = record p { attempted = true }

-- What `PreparedMutation::request` encodes.
pub record Request : Type 0 where
  pub shape : Shape
  pub store : String
  pub body : String

abbrev pub request : PreparedMutation → Request
request p = record { shape = p.shape; store = p.store; body = p.body }

abbrev pub request_eq : Request → Request → Bool
request_eq a b = shape_eq a.shape b.shape && a.store == b.store && a.body == b.body

pub record Receipt : Type 0 where
  pub operation : String
  pub request : Request
  pub response : Rows

-- The detail of an unknown outcome is its error's text; the error stands for it.
pub data MutationOutcome : Type 0 where
  committed : String → Rows → MutationOutcome
  not_committed : String → StorageError → MutationOutcome
  conflicted : String → String → MutationOutcome
  unknown : String → StorageError → MutationOutcome

-- The identity and the bounds of the opened store.
pub record Inner : Type 0 where
  pub identity : String
  pub max_value_bytes : ℕ
  pub max_db_bytes : ℕ

-- The answer to a COMMIT: `Ok`, or an error that may hide a commit.
pub data CommitAnswer : Type 0 where
  acknowledged : CommitAnswer
  lost : Bool → StorageError → CommitAnswer

-- What the files and the child process answer during one call.
pub record Environment : Type 0 where
  pub admission : Option StorageError
  pub lookup : Option StorageError
  pub maintenance_reason : Option String
  pub db_size_bytes : ℕ
  pub recording : Option StorageError
  pub commit : CommitAnswer

abbrev pub answered : Option StorageError → Result StorageError (Unit {0})
answered none = ok tt
answered (some e) = err e

abbrev digit : ℕ → Option ℕ
digit c = if leb b'0' c && leb c b'9' then some (c - b'0') else none

abbrev digits : ℕ → List ℕ → Option ℕ
digits n [] = some n
digits n (c ∷ cs) = elim (digit c) [ none ↦ none | some d ↦ digits (n * 10 + d) cs ]

abbrev unsigned_digits : List ℕ → Option ℕ
unsigned_digits [] = none
unsigned_digits (c ∷ cs) = digits 0 (c ∷ cs)

abbrev unsign : List ℕ → List ℕ
unsign [] = []
unsign (c ∷ cs) = if nat_eq c b'+' then cs else c ∷ cs

abbrev is_positive : Option ℕ → Bool
is_positive none = false
is_positive (some n) = ltb 0 n && leb n i64_max

-- `parse::<i64>().ok().filter(|n| *n > 0).is_some()`
unfoldable pub parses_positive : String → Bool
parses_positive s = is_positive (unsigned_digits (unsign (codes s)))

abbrev pub scalar : Rows → Result StorageError String
scalar ((cell ∷ []) ∷ []) = ok cell
scalar _ = err (sqlite_failure "expected exactly one scalar")

abbrev pub is_one : List String → Bool
is_one (cell ∷ []) = cell == "1"
is_one _ = false

unfoldable pub check_id : Result StorageError String → Bool → Result StorageError (Unit {0})
unfolding parses_positive
check_id (err e) last = err e
check_id (ok cell) last =
    ensure (parses_positive cell && last) (sqlite_failure "malformed insert response")

abbrev pub every_row :
    (List String → Result StorageError (Unit {0})) → Rows → Result StorageError (Unit {0})
every_row decode [] = ok tt
every_row decode (r ∷ rs) = decode r >> every_row decode rs

-- `shape == Change && rows == [["0"]]`
abbrev pub is_zero : Rows → Bool
is_zero ((cell ∷ []) ∷ []) = cell == "0"
is_zero _ = false

-- `fn outcome`.
unfoldable pub outcome : Shape → String → Rows → MutationOutcome
outcome shape operation body_rows =
    if shape_eq shape change && is_zero body_rows
    then conflicted operation "zero affected rows (claim owner/state or entity mismatch)"
    else committed operation body_rows

abbrev pub records : String → Receipt → Bool
records operation r = r.operation == operation

module _ (decode_row : List String → Result StorageError (Unit {0})) where
  unfoldable pub validate_rows : Shape → Rows → Result StorageError (Unit {0})
  validate_rows insert (first ∷ second ∷ []) = check_id (scalar (first ∷ [])) (is_one second)
  validate_rows insert _ = err (sqlite_failure "malformed insert response")
  validate_rows rows body_rows = every_row decode_row body_rows
  validate_rows change body_rows = do
    value ← scalar body_rows
    ensure (value == "0" || value == "1") (sqlite_failure "malformed changes response")

-- The tables that mutations are about, with the receipts, the newest first.
pub record Database (D : Type 0) : Type 0 where
  pub tables : D
  pub receipts : List Receipt

-- The space and size gates of an insert, rechecked under the writer lock.
unfoldable pub check_capacity :
    Inner → Environment → PreparedMutation → Result StorageError (Unit {0})
check_capacity inner env p = elim p.shape [
  | rows ↦ ok tt
  | change ↦ ok tt
  | insert ↦ do
    refuse_if (ltb inner.max_value_bytes p.payload_bytes)
        (value_too_large p.payload_bytes inner.max_value_bytes)
    elim env.maintenance_reason [ none ↦ ok tt | some detail ↦ err (maintenance_required detail) ]
    refuse_if (ltb inner.max_db_bytes (saturating_add u64_max env.db_size_bytes p.payload_bytes))
        (space_exhausted "synthetic writer-admission space budget")
]

module _ {D : Type 0} (exec : String → D → Result StorageError (Rows × D))
    (decode_row : List String → Result StorageError (Unit {0})) where
  -- The receipt that `submit` finds, after its barrier.
  unfoldable pub receipt : Database D → Environment → String → Result StorageError (Option Receipt)
  receipt db env operation = do answered env.lookup; ok (find (records operation) db.receipts)

  -- A receipt that is found replays its rows.
  unfoldable pub replay : PreparedMutation → Receipt → Result StorageError Rows
  unfolding validate_rows
  replay p r = do
    ensure (request_eq r.request (request p))
        (conflict "operation identity reused with different request")
    validate_rows decode_row p.shape r.response
    ok r.response

  -- A fresh ticket runs its body and records its receipt, in the transaction that is still open.
  unfoldable pub execute :
      Inner → Database D → Environment → PreparedMutation → Result StorageError (Rows × Database D)
  unfolding validate_rows check_capacity
  execute inner db env p = do
    check_capacity inner env p
    result ← exec p.body db.tables
    validate_rows decode_row p.shape result.0
    answered env.recording
    ok (
      result.0,
      record {
        tables = result.1;
        receipts =
            record { operation = p.operation; request = request p; response = result.0 }
            ∷ db.receipts;
      },
    )

  -- An error of a staged ticket, by whether a receipt is known to be absent.
  abbrev pub failed : Bool → String → StorageError → MutationOutcome
  failed absent operation (conflict detail) = conflicted operation detail
  failed true operation e = not_committed operation e
  failed false operation e = unknown operation e

  abbrev pub committed_or_lost :
      CommitAnswer
      → Database D
      → Rows × Database D
      → PreparedMutation
      → MutationOutcome × Database D
  committed_or_lost acknowledged db staged p = (outcome p.shape p.operation staged.0, staged.1)
  committed_or_lost (lost applied e) db staged p =
      (unknown p.operation e, if applied then staged.1 else db)

  unfoldable pub after_execute :
      Environment
      → PreparedMutation
      → Database D
      → Result StorageError (Rows × Database D)
      → MutationOutcome × Database D
  unfolding outcome
  after_execute env p db (ok staged) = committed_or_lost env.commit db staged p
  after_execute env p db (err e) = (failed true p.operation e, db)

  unfoldable pub submit_staged :
      Inner
      → Database D
      → Environment
      → PreparedMutation
      → Result StorageError (Option Receipt)
      → MutationOutcome × Database D
  unfolding replay execute outcome
  submit_staged inner db env p (err e) = (failed false p.operation e, db)
  submit_staged inner db env p (ok (some r)) = elim (replay p r) [
    | ok body_rows ↦ (outcome p.shape p.operation body_rows, db)
    | err e ↦ (failed false p.operation e, db)
  ]
  submit_staged inner db env p (ok none) = after_execute env p db (execute inner db env p)

  abbrev pub unadmitted : PreparedMutation → StorageError → MutationOutcome
  unadmitted p e = if p.attempted then unknown p.operation e else not_committed p.operation e

  -- `SqliteStore::submit`; it also sets the ticket's `attempted`.
  unfoldable pub submit :
      Inner → Database D → Environment → PreparedMutation → MutationOutcome × Database D
  unfolding receipt
  submit inner db env p =
      if not (p.store == inner.identity)
      then (conflicted p.operation "request belongs to a different store", db)
      else elim env.admission [
        | some e ↦ (unadmitted p e, db)
        | none ↦ submit_staged inner db env p (receipt db env p.operation)
      ]

  unfoldable pub reconciled : Inner → PreparedMutation → Option Receipt → MutationOutcome
  unfolding validate_rows outcome
  reconciled inner p none =
      if p.store == inner.identity
      then not_committed p.operation (sqlite_failure "no receipt at writer barrier")
      else conflicted p.operation "request belongs to a different store"
  reconciled inner p (some r) =
      if request_eq r.request (request p) && p.store == inner.identity
      then elim (validate_rows decode_row p.shape r.response) [
        | ok _ ↦ outcome p.shape p.operation r.response
        | err e ↦ unknown p.operation e
      ]
      else conflicted p.operation "operation identity/request mismatch"

  -- `SqliteStore::reconcile`: evidence only.
  unfoldable pub reconcile : Inner → Database D → Environment → PreparedMutation → MutationOutcome
  unfolding receipt
  reconcile inner db env p = elim env.admission [
    | some e ↦ unknown p.operation e
    | none ↦ elim (receipt db env p.operation) [
      | err e ↦ unknown p.operation e
      | ok found ↦ reconciled inner p found
    ]
  ]
