-- ===== src/Access/Rotation.antt =====
-- What a rotation of access/gate.rs hands over, at any point of any history.
use verdant.Base.{
  length-append, ℕ, ◌+◌, ◌≡◌, ◌<◌, inl, inr, String, true, false, Option, none, some, List, [], ◌∷◌,
  ◌++◌, Result, ok, arith, refl, ◌∙◌, ap, sym, subst, any, All, All-mono, All-append, eq_iff,
  any-append, find-append_end, any_of_find, ◌==◌, string_partial_eq, length, Bool, is_ok,
  some_injective,
}
use verdant.Base.Int.{ℤ}
use verdant.Base.Bytes.{Bytes}
use verdant.Access.{AccessError, Credential}
use verdant.Access.Records.{
  checked, State, Log, IssueRow, RevokeRow, read_state, issued, has_revoked, has_cap, latest_issue,
  require_bootstrapped,
}
use verdant.Access.Records.Snapshot.{
  issues_of, revokes_of, bootstraps_of, issues_of-append, revokes_of-append, bootstraps_of-append,
  IsSnapshot, read_state-IsSnapshot,
}
use verdant.Access.Records.Checks.{IsEntitled, SameGeneration, InScope, checked_iff}
use verdant.Access.Gate.{PreparedBatch, Moment, batch_rows, revoke_row}
use verdant.Access.Histories.{
  Call, bootstrapping, issuing, rotating, revoking, Attempt, prepared, attempt, run,
}
use verdant.Access.Boundary.{attempt-cases, attempt-ok}
use verdant.Access.Succession.{latest_issue-All, Below, has_revoked-append_end}
use verdant.Access.Succession.Runs.{entitled-IsCurrent, IsCurrent}
use verdant.Access.Succession.Steps.{
  rotate_batch-Rotates, revoke_batch-Revokes, issue_batch-Issues, bootstrap_batch-Bootstraps,
  successor,
}
use mathlib.Core.List.{append-nil}
use verdant.Access.Revocation.{refuses-Revoked}

-- Each revocation is of a key that was issued.
abbrev IsIssued : List IssueRow → RevokeRow → Type 0
IsIssued is v = any (issued v.cap v.key_id) is ≡ true

abbrev Accounted : Log → Type 0
Accounted log = All (IsIssued (issues_of log)) (revokes_of log)

extend :
    (log more : Log)
    → Accounted log
    → All (IsIssued (issues_of log)) (revokes_of more)
    → Accounted (log ++ more)
extend log more h k =
    let grown : (v : RevokeRow)
        → IsIssued (issues_of log) v
        → IsIssued (issues_of log ++ issues_of more) v =
      λ v e. any-append (issued v.cap v.key_id) (issues_of log) (issues_of more) e in
    rw (issues_of-append log more, revokes_of-append log more)
      (All-append (IsIssued (issues_of log ++ issues_of more)) (revokes_of log) (revokes_of more)
        (All-mono grown (revokes_of log) h) (All-mono grown (revokes_of more) k))

revoke_row-IsIssued :
    (log : Log) (cred : Credential) (row : IssueRow) (reason : String)
    → IsCurrent log cred row
    → IsIssued (issues_of log) (revoke_row row reason)
unfolding revoke_row
revoke_row-IsIssued log cred row reason now =
    rw (now.cap, now.key)
      (any_of_find (issued cred.capability cred.key_id) (issues_of log) row now.found)

prepared-Accounted :
    (log : Log) (s : State) (id : ℕ) (call : Call) (clock : Result AccessError ℤ)
    (p : PreparedBatch)
    → IsSnapshot s log
    → prepared s call clock ≡ ok p
    → Accounted log
    → Accounted (log ++ batch_rows id p.entries)
unfolding prepared batch_rows
prepared-Accounted log s id (bootstrapping k l reason) clock p snap e h =
    extend log (batch_rows id p.entries) h
      (rw (bootstrap_batch-Bootstraps s k l reason p e).entries (tt))
prepared-Accounted log s id (issuing request later) clock p snap e h =
    extend log (batch_rows id p.entries) h
      (rw (issue_batch-Issues s request clock later p e).entries (tt))
prepared-Accounted log s id (rotating current key_id key reason) clock p snap e h =
    let r = rotate_batch-Rotates s current key_id key reason clock p e in
    let now = entitled-IsCurrent log s current none clock r.row snap r.entitled in
    extend log (batch_rows id p.entries) h
      (rw r.entries ((revoke_row-IsIssued log current r.row reason now, tt)))
prepared-Accounted log s id (revoking current reason) clock p snap e h =
    let r = revoke_batch-Revokes s current reason clock p e in
    let now = entitled-IsCurrent log s current none clock r.row snap r.entitled in
    extend log (batch_rows id p.entries) h
      (rw r.entries ((revoke_row-IsIssued log current r.row reason now, tt)))

run-Accounted :
    (limit : ℕ) (log : Log) (attempts : List Attempt)
    → Accounted log
    → Accounted (run limit log attempts)
unfolding run
run-Accounted limit log [] h = h
run-Accounted limit log (a ∷ later) h =
    run-Accounted limit (attempt limit log a).0 later (elim (attempt-cases limit log a) [
      | inl same ↦ subst Accounted (sym same) h
      | inr l ↦ subst Accounted (sym l.rows) (
          prepared-Accounted log l.state a.moment.next_id a.call a.clock l.plan
            (read_state-IsSnapshot limit log l.state l.reads) l.prepares h)
    ])

-- A key that was never issued is not revoked.
unissued-unrevoked :
    (cap key_id : String) (is : List IssueRow) (vs : List RevokeRow)
    → All (IsIssued is) vs
    → any (issued cap key_id) is ≡ false
    → has_revoked cap key_id vs ≡ false
unissued-unrevoked cap key_id is [] h fresh = refl
unissued-unrevoked cap key_id is (v ∷ vs) h fresh =
    ground (
      arith,
      h.0,
      eq_iff v.cap cap,
      eq_iff v.key_id key_id,
      unissued-unrevoked cap key_id is vs h.1,
    )

-- A new greatest generation is the latest.
latest_issue-append :
    (cap : String) (is : List IssueRow) (next : IssueRow)
    → next.cap ≡ cap
    → All (λ a. (a.cap == cap) ≡ true → a.capgen < next.capgen) is
    → latest_issue cap (is ++ next ∷ []) ≡ some next
unfolding latest_issue
latest_issue-append cap [] next same h = ground (arith, eq_iff next.cap cap)
latest_issue-append cap (i ∷ is) next same h =
    rw (latest_issue-append cap is next same h.1) (ground (arith, h.0))

has_cap-append :
    (cap : String) (is more : List IssueRow)
    → has_cap cap is ≡ true
    → has_cap cap (is ++ more) ≡ true
has_cap-append cap = any-append (λ r. r.cap == cap)

-- A later snapshot with the same marker and more issuances is bootstrapped too.
bootstrapped_more :
    (s t : State) (more : List IssueRow)
    → t.bootstraps ≡ s.bootstraps
    → t.issues ≡ s.issues ++ more
    → s.count < t.count
    → require_bootstrapped s ≡ ok tt
    → require_bootstrapped t ≡ ok tt
unfolding require_bootstrapped
bootstrapped_more s t more marks grown count h = ground (
  arith,
  has_cap-append "reviewer-1" s.issues more,
  has_cap-append "publisher-1" s.issues more,
  ap (has_cap "reviewer-1") grown,
  ap (has_cap "publisher-1") grown,
)

-- The attempt of `rotate`.
abbrev pub rotation :
    ℕ → Credential → String → Bytes → String → Result AccessError ℤ → Moment → Attempt
rotation seen current key_id key reason clock at_store = record {
  seen = seen;
  call = rotating current key_id key reason;
  clock = clock;
  moment = at_store;
}

-- The rows behind a rotation that reports success.
record Rotated (limit : ℕ) (log next : Log) (current : Credential) (key_id : String) (key : Bytes)
    (reason : String) : Type 0 where
  row : IssueRow
  state : State
  reads : read_state limit log ≡ ok state
  now : IsCurrent log current row
  fresh : any (issued row.cap key_id) (issues_of log) ≡ false
  issues : issues_of next ≡ issues_of log ++ successor row (row.capgen + 1) key_id key reason ∷ []
  revokes : revokes_of next ≡ revokes_of log ++ revoke_row row reason ∷ []
  bootstraps : bootstraps_of next ≡ bootstraps_of log
  count : length next ≡ length log + 2

rotation-Rotated :
    (limit seen : ℕ) (log : Log) (current : Credential) (key_id : String) (key : Bytes)
    (reason : String) (clock : Result AccessError ℤ) (m : Moment)
    → (attempt limit log (rotation seen current key_id key reason clock m)).1 ≡ ok tt
    → Rotated limit log
        (attempt limit log (rotation seen current key_id key reason clock m)).0
        current
        key_id
        key
        reason
unfolding prepared batch_rows
rotation-Rotated limit seen log current key_id key reason clock m h =
    let l = attempt-ok limit log (rotation seen current key_id key reason clock m) h in
    let snap = read_state-IsSnapshot limit log l.state l.reads in
    let r = rotate_batch-Rotates l.state current key_id key reason clock l.plan l.prepares in
    let more = batch_rows m.next_id l.plan.entries in
    let next : r.next ≡ r.row.capgen + 1 = ground (arith, r.generation) in
    record {
      row = r.row;
      state = l.state;
      reads = l.reads;
      now = entitled-IsCurrent log l.state current none clock r.row snap r.entitled;
      fresh = rw (sym snap.issues) r.fresh;
      issues = ap issues_of l.rows ∙ issues_of-append log more ∙ rw (r.entries, next) refl;
      revokes = ap revokes_of l.rows ∙ revokes_of-append log more ∙ rw r.entries refl;
      bootstraps =
          ap bootstraps_of l.rows
          ∙ bootstraps_of-append log more
          ∙ rw r.entries (append-nil (bootstraps_of log));
      count = ap length l.rows ∙ length-append log more ∙ rw r.entries (omega arith);
    }

Below-current :
    (row a : IssueRow) (o : Option IssueRow)
    → SameGeneration row o
    → Below a o
    → a.capgen < row.capgen + 1
Below-current row a none same h = absurd h
Below-current row a (some n) same h = omega (arith, same)

InScope-same :
    (scope : Option String) (a b : IssueRow) → a.scope ≡ b.scope → InScope scope a → InScope scope b
InScope-same none a b same h = tt
InScope-same (some scope) a b same h = h ∙ same

-- The successor is entitled wherever its predecessor was.
module _ (limit : ℕ) (log next : Log) (s t : State) (current : Credential) (key_id : String)
    (key : Bytes) (reason : String) (before : IsSnapshot s log) (after : IsSnapshot t next)
    (accounted : Accounted log) (r : Rotated limit log next current key_id key reason) where
  abbrev heir : Credential
  heir = record { capability = current.capability; key_id = key_id; key = key }

  abbrev heir_row : IssueRow
  heir_row = successor r.row (r.row.capgen + 1) key_id key reason

  lower : All (λ a. (a.cap == r.row.cap) ≡ true → a.capgen < heir_row.capgen) (issues_of log)
  lower =
      All-mono
        (λ a below same.
          Below-current r.row a (latest_issue r.row.cap (issues_of log)) r.now.current (below same))
        (issues_of log) (latest_issue-All r.row.cap (issues_of log))

  issues : t.issues ≡ issues_of log ++ heir_row ∷ []
  issues = after.issues ∙ r.issues

  unrevoked : has_revoked r.row.cap key_id t.revokes ≡ false
  unrevoked = rw (after.revokes ∙ r.revokes) (
      unissued-unrevoked r.row.cap key_id (issues_of log)
        (revokes_of log ++ revoke_row r.row reason ∷ [])
        (All-append (IsIssued (issues_of log)) (revokes_of log) (revoke_row r.row reason ∷ [])
          accounted (revoke_row-IsIssued log current r.row reason r.now, tt))
        r.fresh)

  heir-IsEntitled :
      (scope : Option String) (clock : Result AccessError ℤ)
      → IsEntitled s current scope clock r.row
      → IsEntitled t heir scope clock heir_row
  heir-IsEntitled scope clock e = record {
    bootstrapped =
        bootstrapped_more s t (heir_row ∷ [])
          (after.bootstraps ∙ r.bootstraps ∙ sym before.bootstraps)
          (issues ∙ ap (λ l. l ++ heir_row ∷ []) (sym before.issues))
          (omega (arith, before.count, after.count, r.count)) e.bootstrapped;
    found = rw issues (
        find-append_end (issued current.capability key_id) (issues_of log) heir_row
          (subst (λ c. any (issued c key_id) (issues_of log) ≡ false) r.now.cap r.fresh)
          (ground (arith, r.now.cap, eq_iff r.row.cap current.capability, eq_iff key_id key_id)));
    issuer = e.issuer;
    user = e.user;
    key = refl;
    in_scope = InScope-same scope r.row heir_row refl e.in_scope;
    unrevoked = unrevoked;
    current =
        subst (λ c. SameGeneration heir_row (latest_issue c t.issues)) r.now.cap
          (rw issues (
            subst (SameGeneration heir_row)
              (sym (latest_issue-append r.row.cap (issues_of log) heir_row refl lower)) refl));
    live = e.live;
  }

-- At any point of any history from an empty store, when a rotation reports success: wherever the old
-- credential was accepted before it, the new one is accepted behind it, for the issuance with the next
-- generation, the new key and the reason, and nothing else changed; and the old one is refused.
pub rotation-hands_over :
    (limit horizon seen : ℕ) (attempts : List Attempt) (current : Credential) (key_id : String)
    (key : Bytes) (reason : String) (clock : Result AccessError ℤ) (m : Moment) (s t : State)
    (scope : Option String) (first : Bool) (later : Result AccessError ℤ) (row : IssueRow)
    → (attempt limit (run limit [] attempts) (rotation seen current key_id key reason clock m)).1
      ≡ ok tt
    → read_state limit (run limit [] attempts) ≡ ok s
    → read_state horizon
        (attempt limit (run limit [] attempts) (rotation seen current key_id key reason clock m)).0
      ≡ ok t
    → checked s current scope first later ≡ ok row
    → (checked t
          (record { capability = current.capability; key_id = key_id; key = key })
          scope
          first
          later
        ≡ ok (successor row (row.capgen + 1) key_id key reason))
      × (is_ok (checked t current scope first later) ≡ false)
unfolding revoke_row
rotation-hands_over limit horizon seen attempts current key_id key reason clock m s t scope first
      later row done reads rereads h =
    let log = run limit [] attempts in
    let next = (attempt limit log (rotation seen current key_id key reason clock m)).0 in
    let r = rotation-Rotated limit seen log current key_id key reason clock m done in
    let before = read_state-IsSnapshot limit log s reads in
    let after = read_state-IsSnapshot horizon next t rereads in
    let e = (checked_iff s current scope first later row).0 h in
    let same : row ≡ r.row =
      some_injective
        (sym (entitled-IsCurrent log s current scope later row before e).found ∙ r.now.found) in
    (
      (checked_iff t (record { capability = current.capability; key_id = key_id; key = key }) scope
            first later (successor row (row.capgen + 1) key_id key reason)).1
          (subst
            (λ x.
              IsEntitled t (record { capability = current.capability; key_id = key_id; key = key })
                scope later (successor x (x.capgen + 1) key_id key reason))
            (sym same)
            (heir-IsEntitled limit log next s t current key_id key reason before after
              (run-Accounted limit [] attempts tt) r scope later
              (subst (IsEntitled s current scope later) same e))),
      refuses-Revoked next horizon t current scope first later rereads (
          rw r.revokes (
            has_revoked-append_end current.capability current.key_id (revokes_of log)
              (revoke_row r.row reason) r.now.cap r.now.key)),
    )
