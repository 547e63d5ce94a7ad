-- ===== src/Access/Boundary.antt =====
-- The boundary of a mutation of access/gate.rs: what an attempt can do to the rows that it meets.
use verdant.Base.{
  ℕ, ◌<◌, ◌≡◌, ◌⊎◌, inl, inr, true, false, List, [], ◌∷◌, ◌++◌, take, length, Result, ok, err,
  arith, refl, ◌∙◌, ap, sym, Option, is_ok, Result-cases, zero, suc, nat_eq,
}
use verdant.Base.Int.{ℤ}
use verdant.Access.{AccessError}
use verdant.Access.Records.{Log, State, read_state}
use verdant.Access.Records.Snapshot.{read_state-IsSnapshot}
use verdant.Access.Gate.{
  PreparedBatch, Moment, BatchEntry, commits, refuses, conflicts, unread, loses, submit, batch,
  bootstrap_batch, issue_batch, rotate_batch, revoke_batch, is_unchanged, batch_rows, run_guarded,
  Fate, submit_result,
}
use verdant.Access.Histories.{
  Call, bootstrapping, issuing, rotating, revoking, Attempt, prepared, attempt, reported,
}

pub take-length : (n : ℕ) (log : Log) → length (take n log) ≡ length log → take n log ≡ log
take-length zero [] h = refl
take-length (suc n) [] h = refl
take-length zero (r ∷ log) h = ground arith
take-length (suc n) (r ∷ log) h = ap (λ l. r ∷ l) (take-length n log (ground arith))

length-take_behind : (n : ℕ) (log : Log) → n < length log → length (take n log) ≡ n
length-take_behind zero log h = refl
length-take_behind (suc n) [] h = ground arith
length-take_behind (suc n) (r ∷ log) h = ap suc (length-take_behind n log (ground arith))

batch-guard :
    (s : State) (entries : List BatchEntry) (expires : Option ℤ) (p : PreparedBatch)
    → batch s entries expires ≡ ok p
    → p.guard ≡ s.guard
unfolding batch
batch-guard s entries expires p h = ground arith

pub prepared-guard :
    (s : State) (call : Call) (clock : Result AccessError ℤ) (p : PreparedBatch)
    → prepared s call clock ≡ ok p
    → p.guard ≡ s.guard
unfolding prepared bootstrap_batch issue_batch rotate_batch revoke_batch
prepared-guard s (bootstrapping k l reason) clock p h = ground arith
prepared-guard s (issuing request later) clock p h = ground arith
prepared-guard s (rotating current id key reason) clock p h = ground arith
prepared-guard s (revoking current reason) clock p h = ground arith

-- What an attempt does to the rows: nothing, or the batch of a snapshot that is still the store's rows.
pub record Lands (limit : ℕ) (log : Log) (a : Attempt) : Type 0 where
  pub state : State
  pub plan : PreparedBatch
  pub reads : read_state limit log ≡ ok state
  pub prepares : prepared state a.call a.clock ≡ ok plan
  pub rows : (attempt limit log a).0 ≡ log ++ batch_rows a.moment.next_id plan.entries

submit_result-cases :
    (fate : Fate) (log : Log) (result : Result AccessError Log)
    → ((submit_result fate log result).0 ≡ log) ⊎ (result ≡ ok (submit_result fate log result).0)
submit_result-cases (refuses e) log result = inl refl
submit_result-cases (conflicts detail) log result = inl refl
submit_result-cases (unread detail) log result = inl refl
submit_result-cases commits log (ok next) = inr refl
submit_result-cases commits log (err e) = inl refl
submit_result-cases (loses true detail) log (ok next) = inr refl
submit_result-cases (loses true detail) log (err e) = inl refl
submit_result-cases (loses false detail) log (ok next) = inl refl
submit_result-cases (loses false detail) log (err e) = inl refl

pub run_guarded_lem :
    (p : PreparedBatch) (m : Moment) (log next : Log)
    → run_guarded p m log ≡ ok next
    → (next ≡ log ++ batch_rows m.next_id p.entries) × (length log ≡ length p.guard)
unfolding run_guarded
run_guarded_lem p m log next h = (ground arith, ground arith)

Lands-intro :
    (limit : ℕ) (log : Log) (a : Attempt) (s : State) (p : PreparedBatch)
    → read_state limit (take a.seen log) ≡ ok s
    → prepared s a.call a.clock ≡ ok p
    → run_guarded p a.moment log ≡ ok (submit p a.moment log).0
    → Lands limit log a
unfolding attempt
Lands-intro limit log a s p reads prepares done =
    let snap = read_state-IsSnapshot limit (take a.seen log) s reads in
    let landed = run_guarded_lem p a.moment log (submit p a.moment log).0 done in
    let whole =
      take-length a.seen log (ground (arith, prepared-guard s a.call a.clock p prepares)) in
    record {
      state = s;
      plan = p;
      reads = ap (read_state limit) (sym whole) ∙ reads;
      prepares = prepares;
      rows = rw (reads, prepares) landed.0;
    }

submit-cases :
    (p : PreparedBatch) (m : Moment) (log : Log)
    → ((submit p m log).0 ≡ log) ⊎ (run_guarded p m log ≡ ok (submit p m log).0)
unfolding submit
submit-cases p m log = submit_result-cases m.fate log (run_guarded p m log)

pub attempt-cases :
    (limit : ℕ) (log : Log) (a : Attempt) → ((attempt limit log a).0 ≡ log) ⊎ Lands limit log a
unfolding attempt
attempt-cases limit log a = elim (Result-cases (read_state limit (take a.seen log))) [
  | inr (e, failed) ↦ inl (rw failed refl)
  | inl (s, reads) ↦ elim (Result-cases (prepared s a.call a.clock)) [
    | inr (e, refused) ↦ inl (rw (reads, refused) refl)
    | inl (p, prepares) ↦ elim (submit-cases p a.moment log) [
      | inl same ↦ inl (rw (reads, prepares) same)
      | inr done ↦ inr (Lands-intro limit log a s p reads prepares done)
    ]
  ]
]

submit_result-ok :
    (fate : Fate) (log : Log) (result : Result AccessError Log)
    → (submit_result fate log result).1 ≡ ok tt
    → result ≡ ok (submit_result fate log result).0
submit_result-ok (refuses e) log result h = absurd (cc)
submit_result-ok (conflicts detail) log result h = absurd (cc)
submit_result-ok (unread detail) log result h = absurd (cc)
submit_result-ok commits log (ok next) h = refl
submit_result-ok commits log (err e) h = absurd (cc)
submit_result-ok (loses true detail) log (ok next) h = absurd (cc)
submit_result-ok (loses false detail) log (ok next) h = absurd (cc)
submit_result-ok (loses applied detail) log (err e) h = absurd (cc)

pub submit-ok :
    (p : PreparedBatch) (m : Moment) (log : Log)
    → (submit p m log).1 ≡ ok tt
    → run_guarded p m log ≡ ok (submit p m log).0
unfolding submit
submit-ok p m log h = submit_result-ok m.fate log (run_guarded p m log) h

reported-is_ok :
    (call : Call) (answer : Result AccessError (Unit {0}))
    → is_ok (reported call answer) ≡ is_ok answer
reported-is_ok (bootstrapping k l reason) (ok done) = refl
reported-is_ok (bootstrapping k l reason) (err e) = refl
reported-is_ok (issuing request later) answer = refl
reported-is_ok (rotating current id key reason) answer = refl
reported-is_ok (revoking current reason) answer = refl

pub reported-ok :
    (call : Call) (answer : Result AccessError (Unit {0}))
    → reported call answer ≡ ok tt
    → answer ≡ ok tt
reported-ok call (ok done) h = refl
reported-ok call (err e) h = absurd (cc (sym (reported-is_ok call (err e)) ∙ ap is_ok h))

-- An attempt that reports success has added its batch.
pub attempt-ok :
    (limit : ℕ) (log : Log) (a : Attempt) → (attempt limit log a).1 ≡ ok tt → Lands limit log a
unfolding attempt
attempt-ok limit log a h = elim (Result-cases (read_state limit (take a.seen log))) [
  | inr (e, failed) ↦ absurd (cc (rw failed at h))
  | inl (s, reads) ↦ elim (Result-cases (prepared s a.call a.clock)) [
    | inr (e, refused) ↦ absurd (cc (rw (reads, refused) at h))
    | inl (p, prepares) ↦ Lands-intro limit log a s p reads prepares (
        submit-ok p a.moment log
          (reported-ok a.call (submit p a.moment log).1 (rw (reads, prepares) at h)))
  ]
]

abbrev NoSuccess : Log → Log × Result AccessError (Unit {0}) → Type 0
NoSuccess log answer = (answer.0 ≡ log) × (is_ok answer.1 ≡ false)

submit_result-err :
    (fate : Fate) (log : Log) (e : AccessError) → NoSuccess log (submit_result fate log (err e))
submit_result-err (refuses f) log e = (refl, refl)
submit_result-err (conflicts detail) log e = (refl, refl)
submit_result-err (unread detail) log e = (refl, refl)
submit_result-err commits log e = (refl, refl)
submit_result-err (loses applied detail) log e = (refl, refl)

submit_stale :
    (p : PreparedBatch) (m : Moment) (log : Log)
    → length p.guard < length log
    → NoSuccess log (submit p m log)
unfolding submit run_guarded is_unchanged
submit_stale p m log stale =
    let differ : nat_eq (length log) (length p.guard) ≡ false = ground arith in
    rw differ (submit_result-err m.fate log _)

-- An attempt on a snapshot that is older than the store's rows adds no row, whatever the store answers,
-- and reports no success.
pub attempt_behind :
    (limit : ℕ) (log : Log) (a : Attempt)
    → a.seen < length log
    → ((attempt limit log a).0 ≡ log) × (is_ok (attempt limit log a).1 ≡ false)
unfolding attempt
attempt_behind limit log a behind = elim (Result-cases (read_state limit (take a.seen log))) [
  | inr (e, failed) ↦ rw failed (refl, refl)
  | inl (s, reads) ↦ elim (Result-cases (prepared s a.call a.clock)) [
    | inr (e, refused) ↦ rw (reads, refused) (refl, refl)
    | inl (p, prepares) ↦
        let snap = read_state-IsSnapshot limit (take a.seen log) s reads in
        let stale = submit_stale p a.moment log (
          ground (
            arith,
            prepared-guard s a.call a.clock p prepares,
            length-take_behind a.seen log behind,
          )) in
        rw (reads, prepares) (stale.0, reported-is_ok a.call (submit p a.moment log).1 ∙ stale.1)
  ]
]
