-- ===== src/Access/Authority.antt =====
-- How far authority reaches, over any history of attempts (context.rs and gate.rs of access).
use verdant.Base.{
  ℕ, ◌≡◌, ◌≤◌, inl, inr, String, Bool, true, false, not, Option, none, some, List, [], ◌∷◌, ◌++◌,
  Result, ok, arith, refl, sym, subst, any, all, All, All-append, All-find, eq_iff,
}
use verdant.Base.Int.{ℤ}
use verdant.Base.Bytes.{Bytes}
use verdant.Access.{AccessError, Credential}
use verdant.Access.Policy.{CapabilityPolicy, CredentialCeiling, is_member, authorize, entry_only}
use verdant.Access.Records.{State, Log, IssueRow, read_state, issued, checked}
use verdant.Access.Records.Snapshot.{issues_of, issues_of-append, IsSnapshot, read_state-IsSnapshot}
use verdant.Access.Gate.{PreparedBatch, batch_rows, issue_row, IssueRequest}
use verdant.Access.Histories.{
  Call, bootstrapping, issuing, rotating, revoking, Attempt, prepared, attempt, run,
}
use verdant.Access.Boundary.{attempt-cases}
use verdant.Access.Succession.Runs.{entitled-IsCurrent}
use verdant.Access.Succession.Steps.{
  Rotates, rotate_batch-Rotates, revoke_batch-Revokes, Issues, issue_batch-Issues, Bootstraps,
  bootstrap_batch-Bootstraps, site_policy,
}
use verdant.Access.Records.Checks.{IsEntitled, checked_iff}

abbrev pub AtMost : Option ℕ → ℕ → Type 0
AtMost none n = Unit
AtMost (some level) n = level ≤ n

-- A policy administers scopes of the list, up to the level.
abbrev pub Administers : List String → ℕ → CapabilityPolicy → Type 0
Administers scopes level policy =
    AtMost policy.admin_ceiling level × (all (λ s. is_member s scopes) policy.scopes ≡ true)

-- An issuance enters one of the scopes up to the level, and administers no more.
abbrev pub IsWithin : List String → ℕ → IssueRow → Type 0
IsWithin scopes level row =
    (is_member row.scope scopes ≡ true)
    × (row.ceiling ≤ level)
    × Administers scopes level row.policy

is_member_trans :
    (s : String) (inner outer : List String)
    → is_member s inner ≡ true
    → all (λ t. is_member t outer) inner ≡ true
    → is_member s outer ≡ true
is_member_trans s [] outer h k = absurd (cc)
is_member_trans s (t ∷ inner) outer h k = ground (arith, eq_iff t s, is_member_trans s inner outer)

all_members_trans :
    (child inner outer : List String)
    → any (λ s. not (is_member s inner)) child ≡ false
    → all (λ t. is_member t outer) inner ≡ true
    → all (λ s. is_member s outer) child ≡ true
all_members_trans [] inner outer h k = refl
all_members_trans (s ∷ child) inner outer h k =
    ground (arith, is_member_trans s inner outer, all_members_trans child inner outer)

-- What an administrator consents to lies within what it administers.
pub authorize-Administers :
    (scopes : List String) (level : ℕ) (admin : CapabilityPolicy) (bound : CredentialCeiling)
    (child : CapabilityPolicy)
    → Administers scopes level admin
    → authorize admin bound child ≡ ok tt
    → (is_member bound.scope scopes ≡ true) × (bound.level ≤ level) × Administers scopes level child
unfolding authorize
authorize-Administers scopes level admin bound child h granted = (
  ground (arith, is_member_trans bound.scope admin.scopes scopes),
  ground arith,
  (ground arith, ground (arith, all_members_trans child.scopes admin.scopes scopes)),
)

abbrev Reaches : List String → ℕ → Log → Type 0
Reaches scopes level log = All (IsWithin scopes level) (issues_of log)

module _ (scopes : List String) (level : ℕ) where
  extend :
      (log more : Log)
      → Reaches scopes level log
      → Reaches scopes level more
      → Reaches scopes level (log ++ more)
  extend log more h k =
      rw (issues_of-append log more)
        (All-append (IsWithin scopes level) (issues_of log) (issues_of more) h k)

  entitled-IsWithin :
      (log : Log) (s : State) (cred : Credential) (clock : Result AccessError ℤ) (row : IssueRow)
      → IsSnapshot s log
      → IsEntitled s cred none clock row
      → Reaches scopes level log
      → IsWithin scopes level row
  entitled-IsWithin log s cred clock row snap e h =
      All-find (IsWithin scopes level) (issued cred.capability cred.key_id) (issues_of log) row h
        (entitled-IsCurrent log s cred none clock row snap e).found

  Reaches-rotate :
      (log : Log) (s : State) (id : ℕ) (current : Credential) (key_id : String) (key : Bytes)
      (reason : String) (clock : Result AccessError ℤ) (p : PreparedBatch)
      → IsSnapshot s log
      → Rotates s current key_id key reason clock p
      → Reaches scopes level log
      → Reaches scopes level (log ++ batch_rows id p.entries)
  unfolding batch_rows
  Reaches-rotate log s id current key_id key reason clock p snap r h =
      extend log (batch_rows id p.entries) h
        (rw r.entries (entitled-IsWithin log s current clock r.row snap r.entitled h, tt))

  Reaches-issue :
      (log : Log) (s : State) (id : ℕ) (request : IssueRequest) (clock : Result AccessError ℤ)
      (p : PreparedBatch)
      → IsSnapshot s log
      → Issues s request clock p
      → Reaches scopes level log
      → Reaches scopes level (log ++ batch_rows id p.entries)
  unfolding batch_rows issue_row
  Reaches-issue log s id request clock p snap r h = extend log (batch_rows id p.entries) h (
      rw r.entries (
        authorize-Administers scopes level r.admin.policy
            (record { scope = request.scope; level = request.ceiling }) request.policy
            (entitled-IsWithin log s request.administrator clock r.admin snap r.entitled h).2
            r.within,
        tt,
      ))

Reaches-bootstrap :
    (log : Log) (s : State) (id : ℕ) (k l : Bytes) (reason : String) (p : PreparedBatch)
    → IsSnapshot s log
    → Bootstraps s k l reason p
    → Reaches site_policy.scopes 2 (log ++ batch_rows id p.entries)
unfolding batch_rows issue_row entry_only
Reaches-bootstrap [] s id k l reason p snap r =
    rw r.entries (((refl, omega arith, (tt, refl)), ((refl, omega arith, (omega arith, refl)), tt)))
Reaches-bootstrap (x ∷ log) s id k l reason p snap r = absurd (omega (arith, snap.count, r.empty))

prepared-Reaches :
    (log : Log) (s : State) (id : ℕ) (call : Call) (clock : Result AccessError ℤ)
    (p : PreparedBatch)
    → IsSnapshot s log
    → prepared s call clock ≡ ok p
    → Reaches site_policy.scopes 2 log
    → Reaches site_policy.scopes 2 (log ++ batch_rows id p.entries)
unfolding prepared batch_rows
prepared-Reaches log s id (bootstrapping k l reason) clock p snap e h =
    Reaches-bootstrap log s id k l reason p snap (bootstrap_batch-Bootstraps s k l reason p e)
prepared-Reaches log s id (issuing request later) clock p snap e h =
    Reaches-issue site_policy.scopes 2 log s id request clock p snap
      (issue_batch-Issues s request clock later p e) h
prepared-Reaches log s id (rotating current key_id key reason) clock p snap e h =
    Reaches-rotate site_policy.scopes 2 log s id current key_id key reason clock p snap
      (rotate_batch-Rotates s current key_id key reason clock p e) h
prepared-Reaches log s id (revoking current reason) clock p snap e h =
    let r = revoke_batch-Revokes s current reason clock p e in
    extend site_policy.scopes 2 log (batch_rows id p.entries) h (rw r.entries (tt))

attempt-Reaches :
    (limit : ℕ) (log : Log) (a : Attempt)
    → Reaches site_policy.scopes 2 log
    → Reaches site_policy.scopes 2 (attempt limit log a).0
attempt-Reaches limit log a h = elim (attempt-cases limit log a) [
  | inl same ↦ subst (Reaches site_policy.scopes 2) (sym same) h
  | inr l ↦ subst (Reaches site_policy.scopes 2) (sym l.rows) (
      prepared-Reaches log l.state a.moment.next_id a.call a.clock l.plan
        (read_state-IsSnapshot limit log l.state l.reads) l.prepares h)
]

run-Reaches :
    (limit : ℕ) (log : Log) (attempts : List Attempt)
    → Reaches site_policy.scopes 2 log
    → Reaches site_policy.scopes 2 (run limit log attempts)
unfolding run
run-Reaches limit log [] h = h
run-Reaches limit log (a ∷ later) h =
    run-Reaches limit (attempt limit log a).0 later (attempt-Reaches limit log a h)

-- Over any history from an empty store, no delegation goes beyond the bootstrap: a credential that is
-- accepted enters one of the two scopes of the bootstrap, with a ceiling of at most two, and its policy
-- administers at most those scopes up to that ceiling.
pub run-checked-IsWithin :
    (limit horizon : ℕ) (attempts : List Attempt) (s : State) (cred : Credential)
    (scope : Option String) (first : Bool) (clock : Result AccessError ℤ) (row : IssueRow)
    → read_state horizon (run limit [] attempts) ≡ ok s
    → checked s cred scope first clock ≡ ok row
    → IsWithin site_policy.scopes 2 row
run-checked-IsWithin limit horizon attempts s cred scope first clock row reads h =
    let log = run limit [] attempts in
    All-find (IsWithin site_policy.scopes 2) (issued cred.capability cred.key_id) (issues_of log)
      row (run-Reaches limit [] attempts tt)
      (entitled-IsCurrent log s cred scope clock row (read_state-IsSnapshot horizon log s reads)
        ((checked_iff s cred scope first clock row).0 h)).found
