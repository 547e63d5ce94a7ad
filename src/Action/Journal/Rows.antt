-- ===== src/Action/Journal/Rows.antt =====
-- Reading the journal back: the joined row of `read_row`, with the checks of `decode_row` in
-- src/action_journal/lifecycle.rs. Columns are typed values here; the parsing of their text is not
-- modelled.
use verdant.Base.{
  Bool, false, not, ◌&&◌, ◌||◌, Option, none, some, String, nat_eq, ◌==◌, string_partial_eq, find,
  is_some, checked_add, u32_max, Result, ok, ◌>>=◌, ◌>>◌, ensure, refuse_if, ok_or,
}
use verdant.Action.Journal.{
  WriterError, invalid, not_found, scope_denied, LifecycleState, admitted, Admitted,
  owned_deadline_secs, check_actor,
}
use verdant.Action.Journal.Tables.{JournalRow, LifecycleRow, Tables, tracks}

abbrev pub state_of : Option LifecycleRow → LifecycleState
state_of none = admitted
state_of (some l) = l.state

abbrev pub predecessor_of : Option LifecycleRow → Option String
predecessor_of none = none
predecessor_of (some l) = l.predecessor

-- The four lossless columns are all there (`complete`) or not all there (`legacy`); a row that is
-- neither is refused.
abbrev pub is_complete : JournalRow → Bool
is_complete r =
    is_some r.wire_bits
    && is_some r.action_kind
    && is_some r.release_admitted
    && is_some r.release_target

abbrev pub is_legacy_row : JournalRow → Bool
is_legacy_row r =
    not (is_some r.wire_bits)
    || not (is_some r.action_kind)
    || not (is_some r.release_admitted)
    || not (is_some r.release_target)

unfoldable pub decode_row : JournalRow → Option LifecycleRow → String → Result WriterError Admitted
decode_row r l scope = do
  ensure (r.scope == scope) (scope_denied scope r.scope)
  successor ←
      ok_or (checked_add u32_max r.expected_generation 1) (invalid "journal generation order")
  ensure (nat_eq r.target_generation successor) (invalid "journal generation order")
  refuse_if (r.payload == "") (invalid "journal payload")
  ensure (nat_eq r.deadline_secs owned_deadline_secs) (invalid "deadline 5s")
  _ ← check_actor r.actor
  ensure (is_legacy_row r || is_complete r) (invalid "journal identity partial")
  ok (record {
    operation = r.operation;
    scope = scope;
    equipment = r.equipment;
    binding_revision = r.binding_revision;
    accepted_revision = r.accepted_revision;
    expected_generation = r.expected_generation;
    target_generation = r.target_generation;
    payload = r.payload;
    deadline_secs = r.deadline_secs;
    ceiling = r.ceiling;
    actor = r.actor;
    attempt = r.attempt;
    reconciled = false;
    wire_bits = r.wire_bits;
    action_kind = r.action_kind;
    release_admitted = r.release_admitted;
    release_target = r.release_target;
    lifecycle = state_of l;
    predecessor = predecessor_of l;
    created_secs = r.created;
  })

abbrev pub is_row : String → String → JournalRow → Bool
is_row operation scope r = r.operation == operation && r.scope == scope

unfoldable pub read_row : Tables → String → String → Result WriterError Admitted
read_row t operation scope = do
  r ← ok_or (find (is_row operation scope) t.journal) (not_found operation)
  decode_row r (find (tracks r.operation) t.lifecycle) scope
