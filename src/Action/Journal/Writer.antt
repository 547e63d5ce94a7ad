-- ===== src/Action/Journal/Writer.antt =====
-- The assigned writer of src/action_journal/mod.rs: prepare, submit, reconcile and
-- transition. The commit boundary of the store is an input, `Fate`; it says how a ticket's
-- transaction ended and whether a lost one took effect.
use Prim.Native.String.{◌++◌ as text_append}
use verdant.Base.{
  ℕ, ◌+◌, Bool, true, false, not, ◌&&◌, ◌||◌, Option, none, some, List, [], ◌∷◌, ◌++◌, String, len,
  ltb, nat_eq, bool_eq, ◌==◌, string_partial_eq, if◌then◌else◌, length, checked_add, u32_max,
  Result, ok, err, ◌>>=◌, ◌>>◌, ensure, refuse_if, ok_or,
}
use verdant.Base.Int.{ℤ}
use verdant.Action.Journal.{
  WriterError, invalid, invalid_detail, conflict, scope_denied, stale_generation, rate_exceeded,
  storage, unknown, LifecycleState, terminal, lifecycle_eq, is_terminal, ActionKind, set, release,
  kind_eq, Admitted, owned_rate_max_per_hour, owned_deadline_secs, cleanup_horizon_secs, RoleKind,
  check_ceiling, check_actor,
}
use verdant.Action.Journal.Tables.{
  JournalRow, Tables, Rollback, generation_guard, rate_guard, operation_taken, check_failed,
  no_change, current_generation, rate_used, admission_body, transition_body,
}
use verdant.Action.Journal.Rows.{read_row}

-- What the writer reads of a preview (accessors of src/action_preview/preview.rs).
pub record Preview : Type 0 where
  pub scope : String
  pub equipment : String
  pub binding_revision : ℕ
  pub accepted_revision : ℕ
  pub wire_bits : ℕ
  pub release_admitted : Bool
  pub release_target : String
  pub canonical_bytes : String
  pub apdu_retries : ℕ
  pub duration_secs : ℕ
  pub deadline_secs : ℕ
  pub rate_per_hour : ℕ

unfoldable pub kind_from_preview : Preview → ActionKind
kind_from_preview p = if p.release_admitted then release else set

abbrev pub is_release : ActionKind → Bool
is_release release = true
is_release set = false

-- `format`, `is_reservation`, `is_dispatch` and `is_qualified` of a preview are constants that pass.
unfoldable pub check_preview : Preview → Result WriterError (Unit {0})
unfolding kind_from_preview
check_preview p = do
  ensure (nat_eq p.apdu_retries 0) (invalid "apdu_retries frozen")
  ensure (nat_eq p.duration_secs cleanup_horizon_secs) (invalid "duration 15min")
  ensure (nat_eq p.deadline_secs owned_deadline_secs) (invalid "deadline 5s")
  ensure (nat_eq p.rate_per_hour owned_rate_max_per_hour) (invalid "rate bound")
  ensure (bool_eq p.release_admitted (is_release (kind_from_preview p)))
      (invalid "release admission/kind mismatch")

pub record PendingAdmission : Type 0 where
  pub operation : String
  pub scope : String
  pub equipment : String
  pub binding_revision : ℕ
  pub accepted_revision : ℕ
  pub expected_generation : ℕ
  pub target_generation : ℕ
  pub payload : String
  pub wire_bits : ℕ
  pub kind : ActionKind
  pub release_admitted : Bool
  pub release_target : String
  pub deadline_secs : ℕ
  pub ceiling : ℕ
  pub actor : String
  pub predecessor : Option String

unfoldable pub prepare_with_predecessor :
    ℕ
    → String
    → String
    → ℕ
    → RoleKind
    → String
    → Preview
    → ℕ
    → Option String
    → Result WriterError PendingAdmission
unfolding check_preview
prepare_with_predecessor max_value_bytes operation scope ceiling role actor preview expected
      predecessor =
    do
      check_ceiling ceiling role
      actor' ← check_actor actor
      check_preview preview
      ensure (preview.scope == scope) (scope_denied preview.scope scope)
      target ← ok_or (checked_add u32_max expected 1) (invalid "target generation overflow")
      refuse_if (preview.canonical_bytes == "" || ltb max_value_bytes (len preview.canonical_bytes))
          (invalid_detail "payload")
      ok (record {
        operation = operation;
        scope = scope;
        equipment = preview.equipment;
        binding_revision = preview.binding_revision;
        accepted_revision = preview.accepted_revision;
        expected_generation = expected;
        target_generation = target;
        payload = preview.canonical_bytes;
        wire_bits = preview.wire_bits;
        kind = kind_from_preview preview;
        release_admitted = preview.release_admitted;
        release_target = preview.release_target;
        deadline_secs = preview.deadline_secs;
        ceiling = ceiling;
        actor = actor';
        predecessor = predecessor;
      })

-- The readings of the database's clock by one submit: in the rate guard, in the insert, and in the count that a
-- refusal reports. Each statement reads it for itself.
pub record DatabaseTimes : Type 0 where
  pub checked : ℤ
  pub inserted : ℤ
  pub reported : ℤ

-- The journal row that the admission batch inserts at the database's second `now`.
unfoldable pub row_of : PendingAdmission → ℤ → JournalRow
row_of p now = record {
  operation = p.operation;
  scope = p.scope;
  equipment = p.equipment;
  binding_revision = p.binding_revision;
  accepted_revision = p.accepted_revision;
  expected_generation = p.expected_generation;
  target_generation = p.target_generation;
  payload = p.payload;
  deadline_secs = p.deadline_secs;
  ceiling = p.ceiling;
  actor = p.actor;
  attempt = p.operation;
  created = now;
  wire_bits = some p.wire_bits;
  action_kind = some p.kind;
  release_admitted = some p.release_admitted;
  release_target = some p.release_target;
}

abbrev pub option_eq {ℓ} : {A : Type ℓ} → (A → A → Bool) → Option A → Option A → Bool
option_eq eq none none = true
option_eq eq none (some b) = false
option_eq eq (some a) none = false
option_eq eq (some a) (some b) = eq a b

-- Lossless identical-retry comparison.
unfoldable pub require_identical : PendingAdmission → Admitted → Result WriterError (Unit {0})
require_identical p found = do
  ensure (found.payload == p.payload) (conflict "operation identity reused with different payload")
  found_bits ←
      ok_or found.wire_bits
        (conflict "operation identity reused: legacy rounded payload vs lossless identity")
  ensure
      (nat_eq found_bits p.wire_bits
        && option_eq kind_eq found.action_kind (some p.kind)
        && option_eq bool_eq found.release_admitted (some p.release_admitted)
        && option_eq (λ a b. a == b) found.release_target (some p.release_target))
      (conflict "operation identity reused with different lossless identity (bits/kind/target)")
  ensure (option_eq (λ a b. a == b) found.predecessor p.predecessor)
      (conflict "operation identity reused with different predecessor obligation link")

-- How the store ended a ticket. A lost answer may hide a commit.
pub data Fate : Type 0 where
  commits : Fate
  refused conflicts : String → Fate
  lost : Bool → String → Fate

-- What the receipt of the ticket says before the submit.
pub data Receipt : Type 0 where
  absent recorded : Receipt
  mismatched unreadable : String → Receipt

-- The bounded channel of `Handoff` (src/storage/mod.rs) with the counts of its sender half.
pub record Handoff (A : Type 0) : Type 0 where
  pub capacity : ℕ
  pub queued : List A
  pub connected : Bool
  pub announced : ℕ
  pub refusals : ℕ

unfoldable pub announce : {A : Type 0} → Handoff A → A → Handoff A
announce h item =
    if h.connected && ltb (length h.queued) h.capacity
    then record h { queued = h.queued ++ item ∷ []; announced = h.announced + 1 }
    else record h { refusals = h.refusals + 1 }

pub record Journal : Type 0 where
  pub tables : Tables
  pub essential : Handoff Admitted
  pub history : Handoff String
  pub max_replay_rows : ℕ

unfoldable pub reconcile : Journal → String → String → Result WriterError Admitted
reconcile j operation scope = do
  found ← read_row j.tables operation scope
  ok (record found { reconciled = true })

-- The refusal that a rolled back admission is reported as.
unfoldable pub map_rollback : Tables → DatabaseTimes → PendingAdmission → Rollback → WriterError
map_rollback t now p generation_guard =
    stale_generation p.expected_generation (current_generation t.targets p.scope p.equipment)
map_rollback t now p rate_guard =
    rate_exceeded (rate_used t.journal p.scope p.equipment now.reported) owned_rate_max_per_hour
map_rollback t now p operation_taken = conflict "journal operation already recorded with this store"
map_rollback t now p check_failed = storage "sqlite-failure"
map_rollback t now p no_change = storage "sqlite-failure"

-- `format!("journal {} scope={} target={}", …)`
abbrev history_line : Admitted → String
history_line a = text_append "journal " (
    text_append a.operation
      (text_append " scope=" (text_append a.scope (text_append " target=" a.equipment))))

-- `essential` then `history`; a full queue refuses the announcement and keeps the row.
unfoldable pub announce_admitted : Journal → Admitted → Journal
unfolding announce
announce_admitted j a = record j {
  essential = announce j.essential a;
  history = announce j.history (history_line a);
}

abbrev pub checked_row : Tables → PendingAdmission → Result WriterError Admitted
checked_row t p = do found ← read_row t p.operation p.scope; require_identical p found; ok found

abbrev pub after_checked :
    Journal → Tables → Result WriterError Admitted → Result WriterError Admitted × Journal
after_checked j t (ok a) = (ok a, announce_admitted (record j { tables = t }) a)
after_checked j t (err e) = (err e, record j { tables = t })

abbrev pub after_commit :
    Journal
    → DatabaseTimes
    → PendingAdmission
    → Result Rollback Tables
    → Result WriterError Admitted × Journal
after_commit j now p (ok t) = after_checked j t (checked_row t p)
after_commit j now p (err r) = (err (map_rollback j.tables now p r), j)

abbrev applied_or : Bool → Result Rollback Tables → Tables → Tables
applied_or true (ok t') t = t'
applied_or _ _ t = t

abbrev pub submit_fresh :
    Journal → DatabaseTimes → PendingAdmission → Fate → Result WriterError Admitted × Journal
submit_fresh j now p commits =
    after_commit j now p (admission_body j.tables now.checked (row_of p now.inserted) p.predecessor)
submit_fresh j now p (refused e) = (err (storage e), j)
submit_fresh j now p (conflicts d) = (err (conflict d), j)
submit_fresh j now p (lost applied d) = (
  err (unknown p.operation d),
  record j {
    tables =
        applied_or applied
          (admission_body j.tables now.checked (row_of p now.inserted) p.predecessor) j.tables;
  },
)

abbrev pub mark_reconciled : Result WriterError Admitted → Result WriterError Admitted
mark_reconciled (ok a) = ok (record a { reconciled = true })
mark_reconciled (err e) = err e

unfoldable pub submit :
    Journal
    → DatabaseTimes
    → PendingAdmission
    → Receipt
    → Fate
    → Result WriterError Admitted × Journal
submit j now p recorded fate = (mark_reconciled (checked_row j.tables p), j)
submit j now p (mismatched d) fate = (err (conflict d), j)
submit j now p (unreadable d) fate = (err (unknown p.operation d), j)
submit j now p absent fate = submit_fresh j now p fate

abbrev commit_transition :
    Journal → String → String → LifecycleState → Fate → Result WriterError Admitted × Journal
commit_transition j operation scope state commits =
    elim (transition_body j.tables operation state) [
      | ok t ↦ (read_row t operation scope, record j { tables = t })
      | err r ↦ (err (storage "sqlite-failure"), j)
    ]
commit_transition j operation scope state (refused e) = (err (storage e), j)
commit_transition j operation scope state (conflicts d) = (err (conflict d), j)
commit_transition j operation scope state (lost applied d) = (
  err (unknown operation d),
  record j { tables = applied_or applied (transition_body j.tables operation state) j.tables },
)

-- `Journal::transition`: `seen` is what its read finds. Its batch has no guard, so it runs on whatever the tables
-- hold by then, which another handle may have written.
unfoldable pub transition :
    Tables
    → Journal
    → String
    → String
    → LifecycleState
    → Fate
    → Result WriterError Admitted × Journal
transition seen j operation scope state fate = elim (read_row seen operation scope) [
  | err e ↦ (err e, j)
  | ok current ↦
      if is_terminal current.lifecycle && not (lifecycle_eq state terminal)
      then (err (conflict "lifecycle terminal is final; reconcile history, do not resend"), j)
      else if lifecycle_eq current.lifecycle state
      then (ok current, j)
      else commit_transition j operation scope state fate
]
