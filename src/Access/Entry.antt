-- ===== src/Access/Entry.antt =====
-- The readings of src/access/gate.rs: authentication into the actor of context.rs, the two ways to enter,
-- and the questions that the admission rows answer.
use verdant.Base.{
  ℕ, String, Bool, true, false, ◌&&◌, Option, none, some, List, [], ◌∷◌, ltb, find, Result, ok, err,
  ◌>>=◌, ◌>>◌, ensure, refuse_if, map_err, ◌==◌, string_partial_eq,
}
use verdant.Base.Int.{ℤ}
use verdant.Domain.Ids
use verdant.Access.{
  AccessError, anonymous_denied, invalid_record, ceiling_exceeded, role_denied, Credential,
  RoleKind, reviewer, publisher, parse_role,
}
use verdant.Access.Policy.{CredentialCeiling, credential_ceiling}
use verdant.Access.Records.{
  Log, IssueRow, read_state, checked, latest, has_revoked, require_bootstrapped, BootstrapRow,
  RevokeRow,
}

pub record ActorContext : Type 0 where
  pub row : IssueRow
  pub bound : CredentialCeiling
  pub role : RoleKind

abbrev bad : {E A : Type 0} → Result E A → Result AccessError A
bad r = map_err (λ _. invalid_record "actor") r

unfoldable pub from_checked : IssueRow → Result AccessError ActorContext
unfolding credential_ceiling parse_role
from_checked row = do
  scope ← bad (Ids.parse "scope-id" row.scope)
  bound ← bad (credential_ceiling scope row.ceiling)
  role ← bad (parse_role row.role)
  ok (record { row = row; bound = bound; role = role })

unfoldable pub authenticate :
    ℕ → Log → Option Credential → String → Result AccessError ℤ → Result AccessError ActorContext
unfolding checked from_checked
authenticate max_replay_rows log none scope clock =
    err (anonymous_denied "anonymous entry is refused; present a named capability credential")
authenticate max_replay_rows log (some credential) scope clock = do
  state ← read_state max_replay_rows log
  row ← checked state credential (some scope) false clock
  from_checked row

abbrev pub required_level : RoleKind → ℕ
required_level reviewer = 1
required_level publisher = 2

abbrev pub admits : RoleKind → RoleKind → Bool
admits publisher required = true
admits reviewer reviewer = true
admits reviewer publisher = false

-- `EnterReport`: what the entry was granted.
pub record EnterReport : Type 0 where
  pub capability : String
  pub scope : String
  pub ceiling : ℕ
  pub role : String
  pub cap_generation : ℕ
  pub actor : ActorContext

unfoldable pub report : ActorContext → EnterReport
report self = record {
  capability = self.row.cap;
  scope = self.row.scope;
  ceiling = self.row.ceiling;
  role = self.row.role;
  cap_generation = self.row.capgen;
  actor = self;
}

unfoldable pub enter :
    ℕ
    → Log
    → Option Credential
    → String
    → RoleKind
    → Result AccessError ℤ
    → Result AccessError EnterReport
unfolding authenticate report
enter max_replay_rows log credential scope required clock = do
  actor ← authenticate max_replay_rows log credential scope clock
  refuse_if (ltb actor.bound.level (required_level required))
      (ceiling_exceeded actor.bound.level (required_level required))
  ensure (admits actor.role required) (role_denied "reviewer" "publisher")
  ok (report actor)

unfoldable pub enter_review :
    ℕ → Log → Option Credential → String → Result AccessError ℤ → Result AccessError EnterReport
unfolding enter
enter_review max_replay_rows log credential scope clock =
    enter max_replay_rows log credential scope reviewer clock

unfoldable pub enter_publish :
    ℕ → Log → Option Credential → String → Result AccessError ℤ → Result AccessError EnterReport
unfolding enter
enter_publish max_replay_rows log credential scope clock =
    enter max_replay_rows log credential scope publisher clock

unfoldable pub is_revoked : ℕ → Log → String → String → Result AccessError Bool
is_revoked max_replay_rows log capability key_id = do
  state ← read_state max_replay_rows log
  ok (has_revoked capability key_id state.revokes)

abbrev reason_of : Option RevokeRow → Option String
reason_of none = none
reason_of (some r) = some r.reason

unfoldable pub revocation_reason : ℕ → Log → String → String → Result AccessError (Option String)
revocation_reason max_replay_rows log capability key_id = do
  state ← read_state max_replay_rows log
  ok (reason_of (find (λ r. r.cap == capability && r.key_id == key_id) state.revokes))

abbrev first_reason : List BootstrapRow → String
first_reason [] = ""
first_reason (b ∷ bs) = b.reason

-- The index is in range behind `require_bootstrapped`.
unfoldable pub bootstrap_reason : ℕ → Log → Result AccessError String
unfolding require_bootstrapped
bootstrap_reason max_replay_rows log = do
  state ← read_state max_replay_rows log
  require_bootstrapped state
  ok (first_reason state.bootstraps)

unfoldable pub label_of : ℕ → Log → String → Result AccessError String
unfolding latest
label_of max_replay_rows log capability = do
  state ← read_state max_replay_rows log
  row ← latest state capability
  ok row.label

unfoldable pub issue_reason : ℕ → Log → String → Result AccessError String
unfolding latest
issue_reason max_replay_rows log capability = do
  state ← read_state max_replay_rows log
  row ← latest state capability
  ok row.reason

unfoldable pub admission_count : ℕ → Log → Result AccessError ℕ
admission_count max_replay_rows log = do state ← read_state max_replay_rows log; ok state.count
