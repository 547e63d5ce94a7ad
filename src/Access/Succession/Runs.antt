-- ===== src/Access/Succession/Runs.antt =====
-- Generations over any history of attempts, by any callers on snapshots of any age.
use verdant.Base.{
  ℕ, ◌≡◌, inl, inr, String, Bool, false, Option, none, some, List, [], ◌∷◌, ◌++◌, Result, ok, find,
  arith, refl, ◌==◌, string_partial_eq, nat_partial_eq, eq_iff, All-mono, ◌∙◌, ap, sym, subst,
  find_sound, found_or_behind, All-find,
}
use verdant.Base.Pairwise.{Pairwise, Pairwise-append, none_pass}
use verdant.Base.Int.{ℤ}
use verdant.Base.Bytes.{Bytes}
use verdant.Access.{AccessError, Credential, fingerprint_str}
use verdant.Access.Records.{
  State, Log, IssueRow, RevokeRow, has_revoked, read_state, issued, checked, latest_issue,
}
use verdant.Access.Records.Snapshot.{
  issues_of, revokes_of, issues_of-append, revokes_of-append, IsSnapshot, read_state-IsSnapshot,
}
use verdant.Access.Gate.{PreparedBatch, batch_rows, issue_row, revoke_row, IssueRequest}
use verdant.Access.Histories.{
  Call, bootstrapping, issuing, rotating, revoking, Attempt, prepared, attempt, run,
}
use verdant.Access.Boundary.{attempt-cases}
use verdant.Access.Succession.{
  IsSuccession, Precedes, Pairwise-more, successor-Precedes, unrevoked-IsPast, latest_issue-All,
  SameGeneration,
}
use verdant.Access.Succession.Steps.{
  Rotates, rotate_batch-Rotates, Revokes, revoke_batch-Revokes, Issues, issue_batch-Issues,
  Bootstraps, bootstrap_batch-Bootstraps, successor,
}
use verdant.Access.Records.Checks.{IsEntitled, checked_iff}
use mathlib.Core.List.{append-nil}

-- What the check of a credential says of the rows.
pub record IsCurrent (log : Log) (cred : Credential) (row : IssueRow) : Type 0 where
  pub cap : row.cap ≡ cred.capability
  pub key : row.key_id ≡ cred.key_id
  pub found : find (issued cred.capability cred.key_id) (issues_of log) ≡ some row
  pub unrevoked : has_revoked row.cap row.key_id (revokes_of log) ≡ false
  pub current : SameGeneration row (latest_issue row.cap (issues_of log))

pub entitled-IsCurrent :
    (log : Log) (s : State) (cred : Credential) (scope : Option String)
    (clock : Result AccessError ℤ) (row : IssueRow)
    → IsSnapshot s log
    → IsEntitled s cred scope clock row
    → IsCurrent log cred row
entitled-IsCurrent log s cred scope clock row snap e =
    let is_issued = find_sound (issued cred.capability cred.key_id) s.issues row e.found in
    let cap : row.cap ≡ cred.capability = ground (arith, eq_iff row.cap cred.capability) in
    record {
      cap = cap;
      key = ground (arith, is_issued, eq_iff row.key_id cred.key_id);
      found = rw (sym snap.issues) e.found;
      unrevoked = rw (sym snap.revokes) e.unrevoked;
      current =
          subst (λ is. SameGeneration row (latest_issue row.cap is)) snap.issues
            (subst (λ c. SameGeneration row (latest_issue c s.issues)) (sym cap) e.current);
    }

extend :
    (log more : Log)
    → Pairwise (Precedes (revokes_of log ++ revokes_of more)) (issues_of log ++ issues_of more)
    → IsSuccession (log ++ more)
extend log more h = record {
  ordered = rw (issues_of-append log more, revokes_of-append log more) h;
}

IsSuccession-revoke :
    (log : Log) (s : State) (id : ℕ) (current : Credential) (reason : String)
    (clock : Result AccessError ℤ) (p : PreparedBatch)
    → IsSnapshot s log
    → Revokes s current reason clock p
    → IsSuccession log
    → IsSuccession (log ++ batch_rows id p.entries)
unfolding batch_rows
IsSuccession-revoke log s id current reason clock p snap r h =
    extend log (batch_rows id p.entries) (
      rw r.entries (
        rw append-nil (
          Pairwise-more (revokes_of log) (revoke_row r.row reason ∷ []) (issues_of log) h.ordered)))

IsSuccession-rotate :
    (log : Log) (s : State) (id : ℕ) (current : Credential) (key_id : String) (key : Bytes)
    (reason : String) (clock : Result AccessError ℤ) (p : PreparedBatch)
    → IsSnapshot s log
    → Rotates s current key_id key reason clock p
    → IsSuccession log
    → IsSuccession (log ++ batch_rows id p.entries)
unfolding batch_rows revoke_row
IsSuccession-rotate log s id current key_id key reason clock p snap r h =
    let now = entitled-IsCurrent log s current none clock r.row snap r.entitled in
    let revoked = revoke_row r.row reason in
    extend log (batch_rows id p.entries) (
      rw r.entries (
        Pairwise-append (Precedes (revokes_of log ++ revoked ∷ [])) (issues_of log)
          (successor r.row r.next key_id key reason)
          (Pairwise-more (revokes_of log) (revoked ∷ []) (issues_of log) h.ordered)
          (successor-Precedes (revokes_of log) r.row (successor r.row r.next key_id key reason)
            revoked (latest_issue r.row.cap (issues_of log)) now.current refl
            (ground (arith, r.generation)) refl refl (issues_of log)
            (unrevoked-IsPast (revokes_of log) (issues_of log)
              (issued current.capability current.key_id) r.row h.ordered now.found now.unrevoked)
            (latest_issue-All r.row.cap (issues_of log))
            (none_pass (issued r.row.cap key_id) (issues_of log) (rw (sym snap.issues) r.fresh)))))

IsSuccession-issue :
    (log : Log) (s : State) (id : ℕ) (request : IssueRequest) (clock : Result AccessError ℤ)
    (p : PreparedBatch)
    → IsSnapshot s log
    → Issues s request clock p
    → IsSuccession log
    → IsSuccession (log ++ batch_rows id p.entries)
unfolding batch_rows issue_row
IsSuccession-issue log s id request clock p snap r h =
    let cap = request.credential.capability in
    extend log (batch_rows id p.entries) (
      rw r.entries (
        rw append-nil (
          Pairwise-append (Precedes (revokes_of log)) (issues_of log)
            (issue_row request.credential request.scope request.ceiling request.role request.reason
              request.label request.policy)
            h.ordered
            (All-mono (λ a other same. absurd (ground (arith, other, eq_iff a.cap cap)))
              (issues_of log)
              (none_pass (λ a. a.cap == cap) (issues_of log) (rw (sym snap.issues) r.unknown))))))

IsSuccession-bootstrap :
    (log : Log) (s : State) (id : ℕ) (k l : Bytes) (reason : String) (p : PreparedBatch)
    → IsSnapshot s log
    → Bootstraps s k l reason p
    → IsSuccession (log ++ batch_rows id p.entries)
unfolding batch_rows issue_row
IsSuccession-bootstrap [] s id k l reason p snap r =
    rw r.entries (record { ordered = ((λ same. absurd (cc), tt), (tt, tt)) })
IsSuccession-bootstrap (x ∷ log) s id k l reason p snap r =
    absurd (omega (arith, snap.count, r.empty))

prepared-IsSuccession :
    (log : Log) (s : State) (id : ℕ) (call : Call) (clock : Result AccessError ℤ)
    (p : PreparedBatch)
    → IsSnapshot s log
    → prepared s call clock ≡ ok p
    → IsSuccession log
    → IsSuccession (log ++ batch_rows id p.entries)
unfolding prepared
prepared-IsSuccession log s id (bootstrapping k l reason) clock p snap e h =
    IsSuccession-bootstrap log s id k l reason p snap (bootstrap_batch-Bootstraps s k l reason p e)
prepared-IsSuccession log s id (issuing request later) clock p snap e h =
    IsSuccession-issue log s id request clock p snap (issue_batch-Issues s request clock later p e)
      h
prepared-IsSuccession log s id (rotating current key_id key reason) clock p snap e h =
    IsSuccession-rotate log s id current key_id key reason clock p snap
      (rotate_batch-Rotates s current key_id key reason clock p e) h
prepared-IsSuccession log s id (revoking current reason) clock p snap e h =
    IsSuccession-revoke log s id current reason clock p snap
      (revoke_batch-Revokes s current reason clock p e) h

attempt-IsSuccession :
    (limit : ℕ) (log : Log) (a : Attempt) → IsSuccession log → IsSuccession (attempt limit log a).0
attempt-IsSuccession limit log a h = elim (attempt-cases limit log a) [
  | inl same ↦ subst IsSuccession (sym same) h
  | inr l ↦ subst IsSuccession (sym l.rows) (
      prepared-IsSuccession log l.state a.moment.next_id a.call a.clock l.plan
        (read_state-IsSnapshot limit log l.state l.reads) l.prepares h)
]

pub run-IsSuccession :
    (limit : ℕ) (log : Log) (attempts : List Attempt)
    → IsSuccession log
    → IsSuccession (run limit log attempts)
unfolding run
run-IsSuccession limit log [] h = h
run-IsSuccession limit log (a ∷ later) h =
    run-IsSuccession limit (attempt limit log a).0 later (attempt-IsSuccession limit log a h)

-- One issuance of a capability has a generation.
same_issue :
    (v : List RevokeRow) (is : List IssueRow) (p q : IssueRow → Bool) (a b : IssueRow)
    → Pairwise (Precedes v) is
    → find p is ≡ some a
    → find q is ≡ some b
    → a.cap ≡ b.cap
    → a.capgen ≡ b.capgen
    → a ≡ b
same_issue v [] p q a b h f g same gen = absurd (cc)
same_issue v (i ∷ is) p q a b h f g same gen = elim (found_or_behind p i is a f) [
  | inl here ↦ elim (found_or_behind q i is b g) [
    | inl there ↦ sym here ∙ there
    | inr behind ↦
        let low = All-find (Precedes v i) q is b h.0 behind (ap (λ r. r.cap) here ∙ same) in
        absurd (omega (arith, low.0, ap (λ r. r.capgen) here))
  ]
  | inr behind ↦ elim (found_or_behind q i is b g) [
    | inl there ↦
        let low = All-find (Precedes v i) p is a h.0 behind (ap (λ r. r.cap) there ∙ sym same) in
        absurd (omega (arith, low.0, ap (λ r. r.capgen) there))
    | inr after ↦ same_issue v is p q a b h.1 behind after same gen
  ]
]

same_generation :
    (a b : IssueRow) (o : Option IssueRow)
    → SameGeneration a o
    → SameGeneration b o
    → a.capgen ≡ b.capgen
same_generation a b none h k = absurd h
same_generation a b (some n) h k = h ∙ sym k

-- After any history from an empty store, two credentials of one capability that are both accepted, in any
-- scopes and at any times, stand for one issuance: they name one key, and their keys have one fingerprint.
pub run-checked_once :
    (limit horizon : ℕ) (attempts : List Attempt) (s : State) (c d : Credential)
    (scope other : Option String) (first second : Bool) (clock later : Result AccessError ℤ)
    (row found : IssueRow)
    → read_state horizon (run limit [] attempts) ≡ ok s
    → c.capability ≡ d.capability
    → checked s c scope first clock ≡ ok row
    → checked s d other second later ≡ ok found
    → (row ≡ found) × (c.key_id ≡ d.key_id) × (fingerprint_str c.key ≡ fingerprint_str d.key)
run-checked_once limit horizon attempts s c d scope other first second clock later row found reads
      same h k =
    let log = run limit [] attempts in
    let snap = read_state-IsSnapshot horizon log s reads in
    let e = (checked_iff s c scope first clock row).0 h in
    let f = (checked_iff s d other second later found).0 k in
    let a = entitled-IsCurrent log s c scope clock row snap e in
    let b = entitled-IsCurrent log s d other later found snap f in
    let cap : row.cap ≡ found.cap = a.cap ∙ same ∙ sym b.cap in
    let one : row ≡ found =
      same_issue (revokes_of log) (issues_of log) (issued c.capability c.key_id)
        (issued d.capability d.key_id) row found
        (run-IsSuccession limit [] attempts (record { ordered = tt })).ordered a.found b.found cap
        (same_generation row found (latest_issue row.cap (issues_of log)) a.current (
          subst (λ x. SameGeneration found (latest_issue x (issues_of log))) (sym cap)
            b.current)) in
    (one, sym a.key ∙ ap (λ r. r.key_id) one ∙ b.key, sym e.key ∙ ap (λ r. r.key_fp) one ∙ f.key)
