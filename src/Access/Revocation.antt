-- ===== src/Access/Revocation.antt =====
-- Revocations over any history of attempts on the admission rows (access/gate.rs).
use verdant.Base.{
  ℕ, ◌≡◌, inl, inr, String, Bool, true, false, Option, List, [], ◌∷◌, Result, ok, arith, refl, sym,
  subst, is_ok, Result-cases,
}
use verdant.Base.Int.{ℤ}
use verdant.Access.{AccessError, Credential}
use verdant.Access.Records.{State, Log, has_revoked, read_state, checked}
use verdant.Access.Records.Snapshot.{revokes_of, revokes_of-append, read_state-IsSnapshot}
use verdant.Access.Records.Checks.{checked_iff}
use verdant.Access.Entry.{is_revoked}
use verdant.Access.Gate.{batch_rows}
use verdant.Access.Histories.{Attempt, attempt, run}
use verdant.Access.Boundary.{attempt-cases}
use verdant.Access.Succession.{has_revoked-append}
use verdant.Access.Succession.Runs.{entitled-IsCurrent}

abbrev pub Revoked : String → String → Log → Type 0
Revoked cap key_id log = has_revoked cap key_id (revokes_of log) ≡ true

attempt-Revoked :
    (limit : ℕ) (log : Log) (a : Attempt) (cap key_id : String)
    → Revoked cap key_id log
    → Revoked cap key_id (attempt limit log a).0
attempt-Revoked limit log a cap key_id h = elim (attempt-cases limit log a) [
  | inl same ↦ subst (Revoked cap key_id) (sym same) h
  | inr l ↦
      let more = batch_rows a.moment.next_id l.plan.entries in
      subst (Revoked cap key_id) (sym l.rows) (
        rw (revokes_of-append log more)
          (has_revoked-append cap key_id (revokes_of log) (revokes_of more) h))
]

run-Revoked :
    (limit : ℕ) (log : Log) (attempts : List Attempt) (cap key_id : String)
    → Revoked cap key_id log
    → Revoked cap key_id (run limit log attempts)
unfolding run
run-Revoked limit log [] cap key_id h = h
run-Revoked limit log (a ∷ later) cap key_id h =
    run-Revoked limit (attempt limit log a).0 later cap key_id
      (attempt-Revoked limit log a cap key_id h)

is_revoked-Revoked :
    (horizon : ℕ) (log : Log) (cap key_id : String)
    → is_revoked horizon log cap key_id ≡ ok true
    → Revoked cap key_id log
unfolding is_revoked
is_revoked-Revoked horizon log cap key_id h = elim (Result-cases (read_state horizon log)) [
  | inl (s, e) ↦ ground (arith, (read_state-IsSnapshot horizon log s e).revokes)
  | inr (e, f) ↦ absurd (ground arith)
]

pub refuses-Revoked :
    (log : Log) (horizon : ℕ) (s : State) (cred : Credential) (scope : Option String) (first : Bool)
    (clock : Result AccessError ℤ)
    → read_state horizon log ≡ ok s
    → Revoked cred.capability cred.key_id log
    → is_ok (checked s cred scope first clock) ≡ false
refuses-Revoked log horizon s cred scope first clock reads gone =
    elim (Result-cases (checked s cred scope first clock)) [
      | inl (row, e) ↦
          let now =
            entitled-IsCurrent log s cred scope clock row
              (read_state-IsSnapshot horizon log s reads)
              ((checked_iff s cred scope first clock row).0 e) in
          absurd (cc (rw (now.cap, now.key) at now.unrevoked))
      | inr (e, f) ↦ rw f refl
    ]

-- Once the rows answer that a key of a capability is revoked, no credential that names them is accepted
-- again, for any scope, rotating or not, after any later attempts by anyone.
pub run-revoked :
    (limit horizon : ℕ) (log : Log) (attempts : List Attempt) (s : State) (cred : Credential)
    (scope : Option String) (first : Bool) (clock : Result AccessError ℤ)
    → is_revoked horizon log cred.capability cred.key_id ≡ ok true
    → read_state horizon (run limit log attempts) ≡ ok s
    → is_ok (checked s cred scope first clock) ≡ false
run-revoked limit horizon log attempts s cred scope first clock gone reads =
    refuses-Revoked (run limit log attempts) horizon s cred scope first clock reads (
      run-Revoked limit log attempts cred.capability cred.key_id
        (is_revoked-Revoked horizon log cred.capability cred.key_id gone))
