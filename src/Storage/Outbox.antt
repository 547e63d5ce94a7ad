-- ===== src/Storage/Outbox.antt =====
-- src/storage/sqlite/mod.rs: the outbox queue and the dirty marks. The statements are modelled by what
-- SQLite documents of them: `UPDATE … WHERE id IN (SELECT … ORDER BY id LIMIT n) RETURNING` changes
-- and returns the first n rows that match, `changes()` counts the rows changed. A call's `Fault` is
-- what the store may do instead of answering: refuse before the commit, or lose the answer to it.
-- Rows hold typed columns; `value_json` is the text of the value.
pub mod Claims
pub mod Queue
pub mod Lifecycle
use verdant.Base.{
  ℕ, ◌+◌, ◌-◌, Bool, true, false, ◌&&◌, ◌||◌, Option, none, some, List, [], ◌∷◌, ◌++◌, String, len,
  if◌then◌else◌, ltb, leb, nat_eq, ◌==◌, string_partial_eq, any, all, keep, map, length, min, max,
  Result, ok, err, ◌>>=◌, ◌>>◌, refuse_if, ensure, u64_max, saturating_add, zero, suc, take,
}
use verdant.Domain.Clock.{TimeTriple}
use verdant.Domain.Ids.{codes}
use verdant.Observation.Records.{RecordIdentity}

-- src/storage/mod.rs `StorageError`, the variants that these operations tell apart.
pub data OutboxError : Type 0 where
  sqlite_failure maintenance_required space_exhausted conflict : String → OutboxError
  invalid_input : String → String → OutboxError
  value_too_large : ℕ → ℕ → OutboxError

pub data OutboxStatus : Type 0 where
  queued claimed acked : OutboxStatus

abbrev pub status_eq : OutboxStatus → OutboxStatus → Bool
status_eq queued queued = true
status_eq claimed claimed = true
status_eq acked acked = true
status_eq _ _ = false

pub record OutboxRow : Type 0 where
  pub id : ℕ
  pub operation : String
  pub entity : String
  pub sensor : String
  pub value_json : String
  pub unit : String
  pub times : TimeTriple
  pub record_identity : RecordIdentity
  pub status : OutboxStatus
  pub claimed_by : Option String

pub record DerivedMark : Type 0 where
  pub entity : String
  pub dirty : Bool
  pub checked_generation : ℕ

-- The tables, the rows by ascending id; `last_id` is what AUTOINCREMENT has given out.
pub record Outbox : Type 0 where
  pub rows : List OutboxRow
  pub last_id : ℕ
  pub marks : List DerivedMark

pub data Fault : Type 0 where
  answered : Fault
  refused lost : OutboxError → Fault

-- The answer of a statement and the tables behind it, under a fault.
unfoldable pub committed :
    {A : Type 0} → Fault → Outbox → A → Outbox → Result OutboxError A × Outbox
committed answered db a db' = (ok a, db')
committed (refused e) db a db' = (err e, db)
committed (lost e) db a db' = (err e, db')

-- src/storage/mod.rs `StoreBounds`, and what the files and settings of the store say.
pub record StoreBounds : Type 0 where
  pub max_value_bytes : ℕ
  pub max_replay_rows : ℕ
  pub max_wal_bytes : ℕ
  pub max_db_bytes : ℕ

pub record Sizes : Type 0 where
  pub wal_size_bytes : ℕ
  pub capacity_bytes : ℕ

abbrev pub schema_generation : ℕ
schema_generation = 1

unfoldable pub maintenance_reason : StoreBounds → Sizes → Option String
maintenance_reason bounds sizes =
    if ltb bounds.max_wal_bytes sizes.wal_size_bytes
    then some "wal exceeds max_wal_bytes"
    else if ltb bounds.max_db_bytes sizes.capacity_bytes
    then some "capacity exceeds max_db_bytes"
    else none

abbrev pub maintained : Option String → Result OutboxError (Unit {0})
maintained none = ok tt
maintained (some reason) = err (maintenance_required reason)

abbrev pub is_sentinel : String → Bool
is_sentinel raw = raw == "VERDANT_BEGIN" || raw == "VERDANT_DATA" || raw == "VERDANT_END"

unfoldable pub envelope_framing_refusal : String → Option String
envelope_framing_refusal raw =
    if any (nat_eq 0x1f) (codes raw)
    then some "column separator"
    else if any (nat_eq b'\n') (codes raw)
    then some "line feed"
    else if any (nat_eq b'\r') (codes raw)
    then some "carriage return"
    else if is_sentinel raw
    then some "envelope sentinel"
    else none

abbrev pub unframed : String → Option String → Result OutboxError (Unit {0})
unframed what none = ok tt
unframed what (some reason) = err (invalid_input what reason)

unfoldable pub validate_unit : String → Result OutboxError (Unit {0})
validate_unit unit = unframed "unit" (envelope_framing_refusal unit)

unfoldable pub validate_token : String → Result OutboxError String
validate_token raw = do
  refuse_if (raw == "") (invalid_input "claim token" "token must not be empty")
  refuse_if (ltb 128 (len raw)) (invalid_input "claim token" "token is too long")
  unframed "claim token" (envelope_framing_refusal raw)
  ok raw

-- `INSERT INTO derived_marks … ON CONFLICT(entity) DO UPDATE SET dirty = 1`.
unfoldable pub mark_dirty : String → List DerivedMark → List DerivedMark
mark_dirty entity [] = record { entity = entity; dirty = true; checked_generation = 0 } ∷ []
mark_dirty entity (m ∷ ms) =
    let rest = mark_dirty entity ms in
    if m.entity == entity then record m { dirty = true } ∷ ms else m ∷ rest

unfoldable pub prepare_insert :
    StoreBounds → Sizes → String → String → Result OutboxError (Unit {0})
unfolding maintenance_reason validate_unit
prepare_insert bounds sizes value_json unit = do
  refuse_if (ltb bounds.max_value_bytes (len value_json))
      (value_too_large (len value_json) bounds.max_value_bytes)
  maintained (maintenance_reason bounds sizes)
  refuse_if (ltb bounds.max_db_bytes (saturating_add u64_max sizes.capacity_bytes (len value_json)))
      (space_exhausted "synthetic space budget")
  validate_unit unit

abbrev pub inserted : Outbox → (ℕ → OutboxRow) → String → Outbox
inserted db new entity = record {
  rows = db.rows ++ new (db.last_id + 1) ∷ [];
  last_id = db.last_id + 1;
  marks = mark_dirty entity db.marks;
}

unfoldable pub insert :
    StoreBounds
    → Sizes
    → Fault
    → Outbox
    → String
    → String
    → String
    → String
    → String
    → TimeTriple
    → RecordIdentity
    → Result OutboxError ℕ × Outbox
insert bounds sizes fault db operation entity sensor value_json unit times identity =
    elim (prepare_insert bounds sizes value_json unit) [
      | err e ↦ (err e, db)
      | ok _ ↦ committed fault db (db.last_id + 1) (
          inserted db
            (λ id. record {
              id = id;
              operation = operation;
              entity = entity;
              sensor = sensor;
              value_json = value_json;
              unit = unit;
              times = times;
              record_identity = identity;
              status = queued;
              claimed_by = none;
            })
            entity)
    ]

abbrev pub is_status : OutboxStatus → OutboxRow → Bool
is_status s r = status_eq r.status s

abbrev pub with_claim : String → OutboxRow → OutboxRow
with_claim token r = record r { status = claimed; claimed_by = some token }

-- The rows behind the statement, which claims the first `n` queued ones, and the rows that it claims, listed
-- as they stand in the table.
unfoldable pub claim_first : String → ℕ → List OutboxRow → List OutboxRow × List OutboxRow
claim_first token zero rows = (rows, [])
claim_first token (suc n) [] = ([], [])
claim_first token (suc n) (r ∷ rs) =
    let taken = claim_first token n rs in
    let skipped = claim_first token (suc n) rs in
    if is_status queued r
    then (with_claim token r ∷ taken.0, with_claim token r ∷ taken.1)
    else (r ∷ skipped.0, skipped.1)

abbrev pub effective_limit : StoreBounds → ℕ → ℕ
effective_limit bounds limit = max (min limit bounds.max_replay_rows) 1

abbrev pub claimed_rows :
    (List OutboxRow → List OutboxRow)
    → Fault
    → Outbox
    → List OutboxRow × List OutboxRow
    → Result OutboxError (List OutboxRow) × Outbox
claimed_rows order fault db (rows, returned) =
    committed fault db (order returned) (record db { rows = rows })

-- `order` is the order in which SQLite returns the rows of `RETURNING`, which may be any.
unfoldable pub claim_queued :
    (List OutboxRow → List OutboxRow)
    → StoreBounds
    → Fault
    → Outbox
    → ℕ
    → String
    → Result OutboxError (List OutboxRow) × Outbox
claim_queued order bounds fault db limit claimed_by =
    if nat_eq limit 0
    then (err (invalid_input "claim limit" "limit must be at least 1"), db)
    else elim (validate_token claimed_by) [
      | err e ↦ (err e, db)
      | ok token ↦
          claimed_rows order fault db (claim_first token (effective_limit bounds limit) db.rows)
    ]

abbrev pub token_is : Option String → String → Bool
token_is none token = false
token_is (some t) token = t == token

-- `WHERE id = {id} AND status = 'claimed' AND claimed_by = {token}`.
unfoldable pub holds_claim : ℕ → String → OutboxRow → Bool
holds_claim id token r = nat_eq r.id id && is_status claimed r && token_is r.claimed_by token

unfoldable pub update :
    (OutboxRow → Bool) → (OutboxRow → OutboxRow) → List OutboxRow → List OutboxRow
update matches f [] = []
update matches f (r ∷ rs) =
    let rest = update matches f rs in if matches r then f r ∷ rest else r ∷ rest

-- `SELECT changes()`.
unfoldable pub changes : (OutboxRow → Bool) → List OutboxRow → ℕ
changes matches rows = length (keep matches rows)

abbrev pub one_changed : String → Result OutboxError ℕ → Result OutboxError (Unit {0})
one_changed detail (err e) = err e
one_changed detail (ok changed) = if nat_eq changed 1 then ok tt else err (conflict detail)

abbrev pub answer : String → Result OutboxError ℕ × Outbox → Result OutboxError (Unit {0}) × Outbox
answer detail (r, db) = (one_changed detail r, db)

abbrev pub set_acked : OutboxRow → OutboxRow
set_acked r = record r { status = acked }

abbrev pub set_queued : OutboxRow → OutboxRow
set_queued r = record r { status = queued; claimed_by = none }

unfoldable pub change_held :
    String
    → (OutboxRow → OutboxRow)
    → Fault
    → Outbox
    → ℕ
    → String
    → Result OutboxError (Unit {0}) × Outbox
change_held detail f fault db id expected_token = elim (validate_token expected_token) [
  | err e ↦ (err e, db)
  | ok token ↦ answer detail (
      committed fault db (changes (holds_claim id token) db.rows)
        (record db { rows = update (holds_claim id token) f db.rows }))
]

unfoldable pub acknowledge : Fault → Outbox → ℕ → String → Result OutboxError (Unit {0}) × Outbox
unfolding change_held
acknowledge fault db id token = change_held "not claimed by this token" set_acked fault db id token

unfoldable pub requeue_claim : Fault → Outbox → ℕ → String → Result OutboxError (Unit {0}) × Outbox
unfolding change_held
requeue_claim fault db id token =
    change_held "not dangling under this token" set_queued fault db id token

pub record ReplayReport : Type 0 where
  pub rows : List OutboxRow
  pub requested : ℕ
  pub served : ℕ
  pub truncated : Bool

unfoldable pub replay_queued : StoreBounds → Outbox → ℕ → Result OutboxError ReplayReport
replay_queued bounds db limit =
    let effective = effective_limit bounds limit in
    let rows = take effective (keep (is_status queued) db.rows) in
    if nat_eq limit 0
    then err (invalid_input "replay limit" "limit must be at least 1")
    else ok (record {
      rows = rows;
      requested = limit;
      served = length rows;
      truncated = ltb effective limit;
    })

unfoldable pub dangling_claims : Outbox → List OutboxRow
dangling_claims db = keep (is_status claimed) db.rows

unfoldable pub dirty_entities : Outbox → List String
dirty_entities db = map (λ m. m.entity) (keep (λ m. m.dirty) db.marks)

unfoldable pub clear_mark : String → ℕ → List DerivedMark → List DerivedMark
clear_mark entity generation [] = []
clear_mark entity generation (m ∷ ms) =
    let rest = clear_mark entity generation ms in
    if m.entity == entity
    then record m { dirty = false; checked_generation = generation } ∷ rest
    else m ∷ rest

unfoldable pub mark_recalculated :
    Fault → Outbox → String → ℕ → Result OutboxError (Unit {0}) × Outbox
mark_recalculated fault db entity generation =
    if nat_eq generation schema_generation
    then answer "no derived mark" (
        committed fault db (length (keep (λ m. m.entity == entity) db.marks))
          (record db { marks = clear_mark entity generation db.marks }))
    else (err (invalid_input "recalculation generation" "dirty flag preserved"), db)
