-- ===== src/Access/Records/Snapshot.antt =====
-- What `State::read` returns: the records of the rows, as they are.
use verdant.Base.{
  ℕ, ◌≡◌, List, [], ◌∷◌, ◌++◌, length, ok, arith, refl, ◌∙◌, ap, sym, Option, none, some,
  Result-cases, inl, inr,
}
use mathlib.Core.List.{append-nil, append_assoc}
use verdant.Access.Policy.{CapabilityPolicy}
use verdant.Access.Records.{
  Log, AdmissionRow, Descriptor, bootstrap, issue, revoke, IssueRow, RevokeRow, BootstrapRow, State,
  decode_policy, decode_issue, decode_revoke, scan_row, scan, read_state, decode_bootstrap,
}

abbrev pub add_issue : Descriptor → List IssueRow → List IssueRow
add_issue (issue i) rest = i ∷ rest
add_issue _ rest = rest

abbrev pub add_revoke : Descriptor → List RevokeRow → List RevokeRow
add_revoke (revoke v) rest = v ∷ rest
add_revoke _ rest = rest

abbrev pub add_bootstrap : Descriptor → List BootstrapRow → List BootstrapRow
add_bootstrap (bootstrap b) rest = b ∷ rest
add_bootstrap _ rest = rest

abbrev pub bootstraps_of : Log → List BootstrapRow
bootstraps_of [] = []
bootstraps_of (r ∷ rows) = add_bootstrap r.descriptor (bootstraps_of rows)

abbrev pub issues_of : Log → List IssueRow
issues_of [] = []
issues_of (r ∷ rows) = add_issue r.descriptor (issues_of rows)

abbrev pub revokes_of : Log → List RevokeRow
revokes_of [] = []
revokes_of (r ∷ rows) = add_revoke r.descriptor (revokes_of rows)

decode_policy_lem :
    (ceiling : ℕ) (p out : CapabilityPolicy) (admin : Option ℕ)
    → p.admin_ceiling ≡ admin
    → decode_policy ceiling p ≡ ok out
    → out ≡ p
unfolding decode_policy
decode_policy_lem ceiling p out none e h = ground arith
decode_policy_lem ceiling p out (some admin) e h = ground arith

decode_issue_lem : (row out : IssueRow) → decode_issue row ≡ ok out → out ≡ row
unfolding decode_issue
decode_issue_lem row out h =
    ground
      (arith, decode_policy_lem row.ceiling row.policy out.policy row.policy.admin_ceiling refl)

decode_revoke_lem : (row out : RevokeRow) → decode_revoke row ≡ ok out → out ≡ row
unfolding decode_revoke
decode_revoke_lem row out h = ground arith

decode_bootstrap_lem : (row out : BootstrapRow) → decode_bootstrap row ≡ ok out → out ≡ row
unfolding decode_bootstrap
decode_bootstrap_lem row out h = ground arith

-- One round adds the row's record, and nothing else changes.
record Grows (s t : State) (d : Descriptor) : Type 0 where
  pub issues : t.issues ≡ s.issues ++ add_issue d []
  pub revokes : t.revokes ≡ s.revokes ++ add_revoke d []
  pub bootstraps : t.bootstraps ≡ s.bootstraps ++ add_bootstrap d []
  pub count : t.count ≡ s.count
  pub guard : t.guard ≡ s.guard

scan_row-Grows :
    (s t : State) (r : AdmissionRow) (d : Descriptor) → scan_row s r d ≡ ok t → Grows s t d
unfolding scan_row
scan_row-Grows s t r (bootstrap b) h = elim (Result-cases (decode_bootstrap b)) [
  | inl (out, e) ↦
      let same = decode_bootstrap_lem b out e in
      ground (arith, append-nil s.issues, append-nil s.revokes)
  | inr (e, p) ↦ ground arith
]
scan_row-Grows s t r (issue i) h = elim (Result-cases (decode_issue i)) [
  | inl (out, e) ↦
      let same = decode_issue_lem i out e in
      ground (arith, append-nil s.revokes, append-nil s.bootstraps)
  | inr (e, p) ↦ ground arith
]
scan_row-Grows s t r (revoke v) h = elim (Result-cases (decode_revoke v)) [
  | inl (out, e) ↦
      let same = decode_revoke_lem v out e in
      ground (arith, append-nil s.issues, append-nil s.bootstraps)
  | inr (e, p) ↦ ground arith
]

add_issue-append :
    (d : Descriptor) (rest more : List IssueRow)
    → add_issue d (rest ++ more) ≡ add_issue d rest ++ more
add_issue-append (issue i) rest more = refl
add_issue-append (revoke v) rest more = refl
add_issue-append (bootstrap b) rest more = refl

add_revoke-append :
    (d : Descriptor) (rest more : List RevokeRow)
    → add_revoke d (rest ++ more) ≡ add_revoke d rest ++ more
add_revoke-append (issue i) rest more = refl
add_revoke-append (revoke v) rest more = refl
add_revoke-append (bootstrap b) rest more = refl

add_bootstrap-append :
    (d : Descriptor) (rest more : List BootstrapRow)
    → add_bootstrap d (rest ++ more) ≡ add_bootstrap d rest ++ more
add_bootstrap-append (issue i) rest more = refl
add_bootstrap-append (revoke v) rest more = refl
add_bootstrap-append (bootstrap b) rest more = refl

pub issues_of-append : (log more : Log) → issues_of (log ++ more) ≡ issues_of log ++ issues_of more
issues_of-append [] more = refl
issues_of-append (r ∷ log) more =
    ap (add_issue r.descriptor) (issues_of-append log more)
    ∙ add_issue-append r.descriptor (issues_of log) (issues_of more)

pub revokes_of-append :
    (log more : Log) → revokes_of (log ++ more) ≡ revokes_of log ++ revokes_of more
revokes_of-append [] more = refl
revokes_of-append (r ∷ log) more =
    ap (add_revoke r.descriptor) (revokes_of-append log more)
    ∙ add_revoke-append r.descriptor (revokes_of log) (revokes_of more)

pub bootstraps_of-append :
    (log more : Log) → bootstraps_of (log ++ more) ≡ bootstraps_of log ++ bootstraps_of more
bootstraps_of-append [] more = refl
bootstraps_of-append (r ∷ log) more =
    ap (add_bootstrap r.descriptor) (bootstraps_of-append log more)
    ∙ add_bootstrap-append r.descriptor (bootstraps_of log) (bootstraps_of more)

record Holds (s t : State) (log : Log) : Type 0 where
  pub issues : t.issues ≡ s.issues ++ issues_of log
  pub revokes : t.revokes ≡ s.revokes ++ revokes_of log
  pub bootstraps : t.bootstraps ≡ s.bootstraps ++ bootstraps_of log
  pub count : t.count ≡ s.count
  pub guard : t.guard ≡ s.guard

scan-Holds : (s t : State) (log : Log) → scan s log ≡ ok t → Holds s t log
unfolding scan
scan-Holds s t [] h =
    ground (arith, append-nil s.issues, append-nil s.revokes, append-nil s.bootstraps)
scan-Holds s t (r ∷ log) h = elim (Result-cases (scan_row s r r.descriptor)) [
  | inl (next, e) ↦
      let grown = scan_row-Grows s next r r.descriptor e in
      let held = scan-Holds next t log (ground arith) in
      record {
        issues =
            held.issues
            ∙ simp (grown.issues, append_assoc)
                (ap (λ l. s.issues ++ l) (sym (add_issue-append r.descriptor [] (issues_of log))));
        revokes =
            held.revokes
            ∙ simp (grown.revokes, append_assoc)
                (ap (λ l. s.revokes ++ l)
                  (sym (add_revoke-append r.descriptor [] (revokes_of log))));
        bootstraps =
            held.bootstraps
            ∙ simp (grown.bootstraps, append_assoc)
                (ap (λ l. s.bootstraps ++ l)
                  (sym (add_bootstrap-append r.descriptor [] (bootstraps_of log))));
        count = held.count ∙ grown.count;
        guard = held.guard ∙ grown.guard;
      }
  | inr (e, p) ↦ ground arith
]

-- A snapshot holds the records of the rows that it was read from, and those rows as its guard.
pub record IsSnapshot (s : State) (log : Log) : Type 0 where
  pub issues : s.issues ≡ issues_of log
  pub revokes : s.revokes ≡ revokes_of log
  pub bootstraps : s.bootstraps ≡ bootstraps_of log
  pub count : s.count ≡ length log
  pub guard : s.guard ≡ log

pub read_state-IsSnapshot :
    (limit : ℕ) (log : Log) (s : State) → read_state limit log ≡ ok s → IsSnapshot s log
unfolding read_state
read_state-IsSnapshot limit log s h =
    let held =
      scan-Holds
        (record { issues = []; revokes = []; bootstraps = []; count = length log; guard = log }) s
        log (ground arith) in
    ground arith
