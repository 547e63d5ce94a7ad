-- ===== src/Access/Records.antt =====
-- The admission rows of src/access/mod.rs, which the outbox keeps, and the snapshot that
-- src/access/state.rs reads of them. A row's descriptor is the record that its text encodes.
pub mod Snapshot
pub mod Checks
use verdant.Base.{
  ℕ, String, len, Bool, true, false, not, ◌&&◌, ◌||◌, Option, none, some, List, [], ◌∷◌, ◌++◌, ltb,
  leb, nat_eq, any, all, find, take, length, Result, ok, err, ◌>>=◌, ◌>>◌, ensure, refuse_if, ok_or,
  map_err, ◌==◌, string_partial_eq, list_partial_eq, nat_partial_eq, if◌then◌else◌, u32_max, is_ok,
}
use verdant.Base.Int.{ℤ, in_i64}
use verdant.Base.Bytes.{Bytes}
use verdant.Domain.Ids
use verdant.Access.{
  AccessError, invalid_record, not_bootstrapped, unknown_capability, forged_credential,
  unknown_issuer, scope_denied, stale_generation, revoked_credential, parse_role,
  validate_token_text, Credential, fingerprint_str,
}
use verdant.Access.Policy.{CapabilityPolicy, administrator, require_live, max_ceiling_level}

abbrev pub bootstrap_issuer : String
bootstrap_issuer = "bootstrap-issuer-1"

abbrev pub synthetic_user : String
synthetic_user = "synthetic-operator-1"

abbrev pub reviewer_cap : String
reviewer_cap = "reviewer-1"

abbrev pub publisher_cap : String
publisher_cap = "publisher-1"

pub record IssueRow : Type 0 where
  pub cap : String
  pub scope : String
  pub ceiling : ℕ
  pub role : String
  pub key_id : String
  pub key_fp : Bytes
  pub issuer : String
  pub capgen : ℕ
  pub user : String
  pub reason : String
  pub label : String
  pub policy : CapabilityPolicy

pub record RevokeRow : Type 0 where
  pub cap : String
  pub key_id : String
  pub capgen : ℕ
  pub issuer : String
  pub reason : String

pub record BootstrapRow : Type 0 where
  pub user : String
  pub issuer : String
  pub reason : String
  pub generation : ℕ

pub data Descriptor : Type 0 where
  bootstrap : BootstrapRow → Descriptor
  issue : IssueRow → Descriptor
  revoke : RevokeRow → Descriptor

-- A row of the outbox whose operation begins with `access-`.
pub record AdmissionRow : Type 0 where
  pub id : ℕ
  pub operation : String
  pub entity : String
  pub descriptor : Descriptor

-- Those rows, by their ids.
abbrev pub Log : Type 0
Log = List AdmissionRow

pub record State : Type 0 where
  pub issues : List IssueRow
  pub revokes : List RevokeRow
  pub bootstraps : List BootstrapRow
  pub count : ℕ
  pub guard : Log

abbrev bad : {E A : Type 0} → AccessError → Result E A → Result AccessError A
bad e r = map_err (λ _. e) r

abbrev in_u32 : ℕ → Bool
in_u32 n = leb n u32_max

unfoldable pub decode_policy : ℕ → CapabilityPolicy → Result AccessError CapabilityPolicy
unfolding administrator
decode_policy ceiling policy = do
  ensure (elim policy.expires_at_ms [ none ↦ true | some end ↦ in_i64 end ])
      (invalid_record "invalid expiry")
  elim policy.admin_ceiling [
    | none ↦ do
      ensure (nat_eq (length policy.scopes) 0)
          (invalid_record "entry-only policy has administrative scopes")
      ok policy
    | some admin ↦ do
      refuse_if (ltb ceiling admin)
          (invalid_record "administrative ceiling exceeds credential ceiling")
      ensure (all (λ s. is_ok (Ids.parse "scope-id" s)) policy.scopes)
          (invalid_record "administrative scope")
      bad (invalid_record "administrative policy")
          (administrator policy.scopes admin policy.expires_at_ms)
  ]

unfoldable pub decode_issue : IssueRow → Result AccessError IssueRow
unfolding decode_policy
decode_issue row = do
  refuse_if (ltb max_ceiling_level row.ceiling) (invalid_record "issue ceiling exceeds max")
  bad (invalid_record "issue scope invalid") (Ids.parse "scope-id" row.scope)
  bad (invalid_record "issue role invalid") (parse_role row.role)
  bad (invalid_record "issue key id") (validate_token_text "key-id" row.key_id)
  bad (invalid_record "issue capability") (validate_token_text "capability-name" row.cap)
  refuse_if (nat_eq (length row.key_fp) 0 || ltb 64 (length row.key_fp))
      (invalid_record "issue key fingerprint has an unexpected shape")
  bad (invalid_record "issue issuer") (validate_token_text "issuer-id" row.issuer)
  ensure (in_u32 row.capgen) (invalid_record "issue capgen unreadable")
  refuse_if (nat_eq row.capgen 0) (invalid_record "issue capgen must be at least 1")
  bad (invalid_record "issue user") (validate_token_text "user-id" row.user)
  refuse_if (row.reason == "") (invalid_record "issue reason must not be empty")
  refuse_if (row.label == "") (invalid_record "issue label must not be empty")
  policy ← decode_policy row.ceiling row.policy
  ok (record row { policy = policy })

unfoldable pub decode_revoke : RevokeRow → Result AccessError RevokeRow
decode_revoke row = do
  bad (invalid_record "revoke capability") (validate_token_text "capability-name" row.cap)
  bad (invalid_record "revoke key id") (validate_token_text "key-id" row.key_id)
  ensure (in_u32 row.capgen) (invalid_record "revoke capgen unreadable")
  refuse_if (nat_eq row.capgen 0) (invalid_record "revoke capgen must be at least 1")
  bad (invalid_record "revoke issuer") (validate_token_text "issuer-id" row.issuer)
  refuse_if (row.reason == "") (invalid_record "revoke reason must not be empty")
  ok row

unfoldable pub decode_bootstrap : BootstrapRow → Result AccessError BootstrapRow
decode_bootstrap row = do
  bad (invalid_record "bootstrap user") (validate_token_text "user-id" row.user)
  bad (invalid_record "bootstrap issuer") (validate_token_text "issuer-id" row.issuer)
  refuse_if (row.reason == "") (invalid_record "bootstrap reason must not be empty")
  ensure (nat_eq row.generation 1) (invalid_record "bootstrap generation")
  ok row

abbrev pub clashes : IssueRow → IssueRow → Bool
clashes row r = r.cap == row.cap && (nat_eq r.capgen row.capgen || r.key_id == row.key_id)

-- One round of the scan: the decoded record joins the snapshot, and names the row's entity.
unfoldable pub scan_row : State → AdmissionRow → Descriptor → Result AccessError State
unfolding decode_issue decode_revoke decode_bootstrap
scan_row state r (bootstrap b) = do
  ensure (r.operation == "access-bootstrap") (invalid_record "admission operation/kind mismatch")
  row ← decode_bootstrap b
  ensure (row.user == r.entity) (invalid_record "admission entity/descriptor mismatch")
  ok (record state { bootstraps = state.bootstraps ++ row ∷ [] })
scan_row state r (issue i) = do
  ensure (r.operation == "access-issue") (invalid_record "admission operation/kind mismatch")
  row ← decode_issue i
  refuse_if (any (clashes row) state.issues)
      (invalid_record "duplicate capability generation or key identity")
  ensure (row.cap == r.entity) (invalid_record "admission entity/descriptor mismatch")
  ok (record state { issues = state.issues ++ row ∷ [] })
scan_row state r (revoke v) = do
  ensure (r.operation == "access-revoke") (invalid_record "admission operation/kind mismatch")
  row ← decode_revoke v
  ensure (row.cap == r.entity) (invalid_record "admission entity/descriptor mismatch")
  ok (record state { revokes = state.revokes ++ row ∷ [] })

unfoldable pub scan : State → Log → Result AccessError State
unfolding scan_row
scan state [] = ok state
scan state (r ∷ rows) = scan_row state r r.descriptor >>= λ next. scan next rows

-- `State::read` of the rows that the store answers, of which it asks for one more than the horizon.
unfoldable pub read_state : ℕ → Log → Result AccessError State
unfolding scan
read_state max_replay_rows log = do
  refuse_if (ltb max_replay_rows (length log))
      (invalid_record "access history exceeds bounded replay horizon; no truncated authorization")
  scan (record { issues = []; revokes = []; bootstraps = []; count = length log; guard = log }) log

abbrev is_bootstrap : List BootstrapRow → Bool
is_bootstrap (b ∷ []) = b.user == synthetic_user && b.issuer == bootstrap_issuer
is_bootstrap _ = false

abbrev pub has_cap : String → List IssueRow → Bool
has_cap cap issues = any (λ r. r.cap == cap) issues

unfoldable pub require_bootstrapped : State → Result AccessError (Unit {0})
require_bootstrapped self = do
  refuse_if (nat_eq self.count 0) (not_bootstrapped "no admission records; bootstrap first")
  ensure
      (is_bootstrap self.bootstraps
        && has_cap reviewer_cap self.issues
        && has_cap publisher_cap self.issues)
      (invalid_record "incomplete or inconsistent bootstrap; no fallback minting")

-- `max_by_key`, which takes the last of several greatest.
abbrev pub newer : IssueRow → Option IssueRow → Option IssueRow
newer r none = some r
newer r (some s) = if ltb s.capgen r.capgen then some r else some s

unfoldable pub latest_issue : String → List IssueRow → Option IssueRow
latest_issue cap [] = none
latest_issue cap (r ∷ rs) =
    let rest = latest_issue cap rs in if r.cap == cap then newer r rest else rest

unfoldable pub latest : State → String → Result AccessError IssueRow
latest self cap = ok_or (latest_issue cap self.issues) (unknown_capability cap)

abbrev pub issued : String → String → IssueRow → Bool
issued cap key_id r = r.cap == cap && r.key_id == key_id

abbrev pub has_revoked : String → String → List RevokeRow → Bool
has_revoked cap key_id revokes = any (λ r. r.cap == cap && r.key_id == key_id) revokes

abbrev check_scope : Option String → IssueRow → Result AccessError (Unit {0})
check_scope none matched = ok tt
check_scope (some scope) matched =
    ensure (scope == matched.scope) (scope_denied matched.scope scope)

-- `State::checked`; `clock` is what `now_ms` answers.
unfoldable pub checked :
    State → Credential → Option String → Bool → Result AccessError ℤ → Result AccessError IssueRow
unfolding latest require_live
checked self cred scope rotating clock = do
  require_bootstrapped self
  newest ← latest self cred.capability
  matched ←
      ok_or (find (issued cred.capability cred.key_id) self.issues)
        (forged_credential "key was never issued for this capability")
  ensure (matched.issuer == bootstrap_issuer) (unknown_issuer matched.issuer)
  ensure (matched.user == synthetic_user)
      (invalid_record "issued user does not match bootstrap identity")
  ensure (matched.key_fp == fingerprint_str cred.key)
      (forged_credential "key material does not match the issued fingerprint")
  check_scope scope matched
  refuse_if (rotating && not (nat_eq matched.capgen newest.capgen))
      (stale_generation matched.cap matched.capgen newest.capgen)
  refuse_if (has_revoked matched.cap matched.key_id self.revokes)
      (revoked_credential matched.cap matched.key_id)
  ensure (nat_eq matched.capgen newest.capgen)
      (stale_generation matched.cap matched.capgen newest.capgen)
  now ← clock
  require_live matched.policy now
  ok matched
