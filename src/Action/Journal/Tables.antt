-- ===== src/Action/Journal/Tables.antt =====
-- The durable tables of migrations 0004 to 0006, and what the SQL bodies of identity.rs, rate.rs and
-- lifecycle.rs do to them in one transaction of the single writer. Numbers of rows are unbounded.
use verdant.Base.{
  ℕ, Bool, true, false, not, ◌&&◌, ◌||◌, Option, none, some, List, [], ◌∷◌, String, ltb, nat_eq,
  ◌==◌, string_partial_eq, if◌then◌else◌, length, keep, find, any, Result, ok, err, ◌>>◌, ensure,
  refuse_if,
}
use verdant.Base.Int.{ℤ, pos, ◌-ℤ◌, ltb_ℤ}
use verdant.Action.Journal.{
  LifecycleState, admitted, ActionKind, set, release, owned_rate_max_per_hour, owned_deadline_secs,
  rate_window_secs,
}

pub record JournalRow : Type 0 where
  pub operation : String
  pub scope : String
  pub equipment : String
  pub binding_revision : ℕ
  pub accepted_revision : ℕ
  pub expected_generation : ℕ
  pub target_generation : ℕ
  pub payload : String
  pub deadline_secs : ℕ
  pub ceiling : ℕ
  pub actor : String
  pub attempt : String
  pub created : ℤ
  pub wire_bits : Option ℕ
  pub action_kind : Option ActionKind
  pub release_admitted : Option Bool
  pub release_target : Option String

pub record TargetRow : Type 0 where
  pub scope : String
  pub equipment : String
  pub current_generation : ℕ

pub record LifecycleRow : Type 0 where
  pub operation : String
  pub attempt : String
  pub state : LifecycleState
  pub predecessor : Option String

pub record Tables : Type 0 where
  pub journal : List JournalRow
  pub targets : List TargetRow
  pub lifecycle : List LifecycleRow

abbrev pub is_target : String → String → TargetRow → Bool
is_target scope equipment t = t.scope == scope && t.equipment == equipment

-- `COALESCE((SELECT current_generation …), 0)`.
abbrev pub generation_of : Option TargetRow → ℕ
generation_of none = 0
generation_of (some t) = t.current_generation

unfoldable pub current_generation : List TargetRow → String → String → ℕ
current_generation targets scope equipment =
    generation_of (find (is_target scope equipment) targets)

-- A SET, or a legacy row of unknown kind.
abbrev pub counts_as_set : Option ActionKind → Bool
counts_as_set none = true
counts_as_set (some set) = true
counts_as_set (some release) = false

-- `created >= now - 3600`.
unfoldable pub in_rate_window : ℤ → ℤ → Bool
in_rate_window created now = not (ltb_ℤ created (now -ℤ pos rate_window_secs))

unfoldable pub is_rate_row : String → String → ℤ → JournalRow → Bool
unfolding in_rate_window
is_rate_row scope equipment now r =
    r.scope == scope
    && r.equipment == equipment
    && in_rate_window r.created now
    && counts_as_set r.action_kind

unfoldable pub rate_used : List JournalRow → String → String → ℤ → ℕ
rate_used journal scope equipment now = length (keep (is_rate_row scope equipment now) journal)

unfoldable pub upsert_target : String → String → ℕ → List TargetRow → List TargetRow
upsert_target scope equipment generation [] =
    record { scope = scope; equipment = equipment; current_generation = generation } ∷ []
upsert_target scope equipment generation (t ∷ ts) =
    if is_target scope equipment t
    then record t { current_generation = generation } ∷ ts
    else t ∷ upsert_target scope equipment generation ts

abbrev pub journals : String → JournalRow → Bool
journals operation r = r.operation == operation

abbrev pub tracks : String → LifecycleRow → Bool
tracks operation l = l.operation == operation

-- Why a transaction rolls back: a guard table's CHECK, a key, a column's CHECK or a reference, or
-- a batch that changes no row.
pub data Rollback : Type 0 where
  generation_guard rate_guard operation_taken check_failed no_change : Rollback

abbrev pub references : Option String → String → List JournalRow → Bool
references none operation journal = true
references (some p) operation journal = p == operation || any (journals p) journal

abbrev pub is_set : Option ActionKind → Bool
is_set (some set) = true
is_set _ = false

-- `admission_body_v2`: guards, journal row, target watermark and lifecycle row in one transaction. `checked`
-- is the clock of the rate guard's statement; the row has that of the insert, which reads the clock again.
unfoldable pub admission_body : Tables → ℤ → JournalRow → Option String → Result Rollback Tables
unfolding current_generation rate_used
admission_body t checked row predecessor = do
  ensure (nat_eq (current_generation t.targets row.scope row.equipment) row.expected_generation)
      generation_guard
  refuse_if
      (is_set row.action_kind
        && not (ltb (rate_used t.journal row.scope row.equipment checked) owned_rate_max_per_hour))
      rate_guard
  refuse_if (any (journals row.operation) t.journal) operation_taken
  ensure
      (ltb row.expected_generation row.target_generation
        && nat_eq row.deadline_secs owned_deadline_secs)
      check_failed
  refuse_if (any (tracks row.operation) t.lifecycle) operation_taken
  ensure (references predecessor row.operation t.journal) check_failed
  ok (record {
    journal = row ∷ t.journal;
    targets = upsert_target row.scope row.equipment row.target_generation t.targets;
    lifecycle =
        record {
          operation = row.operation;
          attempt = row.attempt;
          state = admitted;
          predecessor = predecessor;
        }
        ∷ t.lifecycle;
  })

-- `INSERT … ON CONFLICT(operation) DO UPDATE SET state`: the predecessor link of a row stays.
unfoldable pub upsert_lifecycle :
    String → String → LifecycleState → List LifecycleRow → List LifecycleRow
upsert_lifecycle operation attempt state [] =
    record { operation = operation; attempt = attempt; state = state; predecessor = none } ∷ []
upsert_lifecycle operation attempt state (l ∷ ls) =
    if tracks operation l
    then record l { state = state } ∷ ls
    else l ∷ upsert_lifecycle operation attempt state ls

unfoldable pub transition_body : Tables → String → LifecycleState → Result Rollback Tables
transition_body t operation state = elim (find (journals operation) t.journal) [
  | none ↦ err no_change
  | some row ↦
      ok (record t { lifecycle = upsert_lifecycle operation row.attempt state t.lifecycle })
]
