-- ===== src/Access/Progress.antt =====
-- When a mutation of access/gate.rs goes through.
mod Live
use verdant.Base.{
  ◌≡◌, ◌↔◌, Bool, true, false, Option, none, some, [], ◌∷◌, ◌++◌, any, all, Result, ok, err, arith,
  refl, ap, ◌∙◌, sym, ℕ, nat_eq, take, string_partial_eq, nat_partial_eq, inl, inr, ==_refl, subst,
  list_partial_eq, Result-cases,
}
use mathlib.Core.List.{append_assoc}
use verdant.Base.Int.{ℤ}
use verdant.Access.{AccessError, Credential}
use verdant.Access.Policy.{CapabilityPolicy}
use verdant.Access.Records.{
  Log, AdmissionRow, Descriptor, bootstrap, issue, revoke, State, read_state, IssueRow, checked,
}
use verdant.Access.Gate.{
  row_eq, descriptor_eq, policy_eq, same_option, int_eq, is_live, is_unchanged, PreparedBatch,
  Moment, Fate, commits, refuses, conflicts, unread, loses, submit, submit_result, run_guarded,
  batch_rows, earliest, bootstrap_batch, issue_batch, rotate_batch, revoke_batch, batch,
}
use verdant.Access.Progress.Live.{StillLive, prepared-StillLive_iff}
use verdant.Access.Histories.{
  Attempt, attempt, prepared, reported, Call, bootstrapping, issuing, rotating, revoking,
}
use verdant.Access.Boundary.{take-length, reported-ok, submit-ok, run_guarded_lem, prepared-guard}
use verdant.Access.Records.Snapshot.{read_state-IsSnapshot}

same_option_refl :
    {A : Type 0} (eq : A → A → Bool)
    → ((a : A) → eq a a ≡ true)
    → (o : Option A) → same_option eq o o ≡ true
same_option_refl eq same none = refl
same_option_refl eq same (some a) = same a

int_eq_refl : (a : ℤ) → int_eq a a ≡ true
int_eq_refl a = ground arith

policy_eq_refl : (a : CapabilityPolicy) → policy_eq a a ≡ true
policy_eq_refl a = ground (
  arith,
  ==_refl a.scopes,
  same_option_refl nat_eq (λ n. ground arith) a.admin_ceiling,
  same_option_refl int_eq int_eq_refl a.expires_at_ms,
)

descriptor_eq_refl : (d : Descriptor) → descriptor_eq d d ≡ true
descriptor_eq_refl (bootstrap a) =
    ground (arith, ==_refl a.user, ==_refl a.issuer, ==_refl a.reason)
descriptor_eq_refl (issue a) = ground (
  arith,
  ==_refl a.cap,
  ==_refl a.scope,
  ==_refl a.role,
  ==_refl a.key_id,
  ==_refl a.key_fp,
  ==_refl a.issuer,
  ==_refl a.user,
  ==_refl a.reason,
  ==_refl a.label,
  policy_eq_refl a.policy,
)
descriptor_eq_refl (revoke a) =
    ground (arith, ==_refl a.cap, ==_refl a.key_id, ==_refl a.issuer, ==_refl a.reason)

row_eq_refl : (r : AdmissionRow) → row_eq r r ≡ true
unfolding row_eq
row_eq_refl r =
    ground (arith, ==_refl r.operation, ==_refl r.entity, descriptor_eq_refl r.descriptor)

has_row : (before after : Log) (r : AdmissionRow) → any (row_eq r) (before ++ r ∷ after) ≡ true
has_row [] after r = ground (arith, row_eq_refl r)
has_row (q ∷ before) after r = ground (arith, has_row before after r)

has_rows : (before after : Log) → all (λ r. any (row_eq r) (before ++ after)) after ≡ true
has_rows before [] = refl
has_rows before (r ∷ after) =
    let others : all (λ q. any (row_eq q) (before ++ r ∷ after)) after ≡ true =
      rw (sym (append_assoc before (r ∷ []) after)) (has_rows (before ++ r ∷ []) after) in
    ground (arith, has_row before after r, others)

is_unchanged_refl : (log : Log) → is_unchanged log log ≡ true
unfolding is_unchanged
is_unchanged_refl log = ground (arith, has_rows [] log)

-- The attempt's snapshot is all that the store holds, the call is prepared on it, its caller's authority has not
-- expired when the batch runs, and the store commits.
pub record GoesThrough (limit : ℕ) (log : Log) (a : Attempt) : Type 0 where
  pub state : State
  pub plan : PreparedBatch
  pub whole : take a.seen log ≡ log
  pub reads : read_state limit log ≡ ok state
  pub prepares : prepared state a.call a.clock ≡ ok plan
  pub live : StillLive state a.call a.clock a.moment.now
  pub fate : a.moment.fate ≡ commits

reported-done : (call : Call) → reported call (ok tt) ≡ ok tt
reported-done (bootstrapping k l reason) = refl
reported-done (issuing request later) = refl
reported-done (rotating current id key reason) = refl
reported-done (revoking current reason) = refl

submit_current :
    (p : PreparedBatch) (m : Moment) (log : Log)
    → p.guard ≡ log
    → is_live p.expires m.now ≡ true
    → m.fate ≡ commits
    → submit p m log ≡ (log ++ batch_rows m.next_id p.entries, ok tt)
unfolding submit run_guarded
submit_current p m log same live fate = rw (same, is_unchanged_refl log, live, fate) refl

GoesThrough-attempt :
    (limit : ℕ) (log : Log) (a : Attempt)
    → GoesThrough limit log a
    → (attempt limit log a).1 ≡ ok tt
unfolding attempt
GoesThrough-attempt limit log a h =
    let guard =
      prepared-guard h.state a.call a.clock h.plan h.prepares
      ∙ (read_state-IsSnapshot limit log h.state h.reads).guard in
    let live =
      (prepared-StillLive_iff h.state a.call a.clock h.plan a.moment.now h.prepares).1 h.live in
    let done = submit_current h.plan a.moment log guard live h.fate in
    rw (h.whole, h.reads, h.prepares, done) (reported-done a.call)

submit-commits :
    (fate : Fate) (log : Log) (result : Result AccessError Log)
    → (submit_result fate log result).1 ≡ ok tt
    → fate ≡ commits
submit-commits commits log result h = refl
submit-commits (refuses e) log result h = absurd (cc)
submit-commits (conflicts detail) log result h = absurd (cc)
submit-commits (unread detail) log result h = absurd (cc)
submit-commits (loses applied detail) log (err e) h = absurd (cc)
submit-commits (loses true detail) log (ok next) h = absurd (cc)
submit-commits (loses false detail) log (ok next) h = absurd (cc)

attempt-GoesThrough :
    (limit : ℕ) (log : Log) (a : Attempt)
    → (attempt limit log a).1 ≡ ok tt
    → GoesThrough limit log a
unfolding attempt submit run_guarded
attempt-GoesThrough limit log a h = elim (Result-cases (read_state limit (take a.seen log))) [
  | inr (e, failed) ↦ absurd (cc (rw failed at h))
  | inl (s, reads) ↦ elim (Result-cases (prepared s a.call a.clock)) [
    | inr (e, refused) ↦ absurd (cc (rw (reads, refused) at h))
    | inl (p, prepares) ↦
        let won = reported-ok a.call (submit p a.moment log).1 (rw (reads, prepares) at h) in
        let done = submit-ok p a.moment log won in
        let landed = run_guarded_lem p a.moment log (submit p a.moment log).0 done in
        let snap = read_state-IsSnapshot limit (take a.seen log) s reads in
        let all_seen =
          take-length a.seen log (ground (arith, prepared-guard s a.call a.clock p prepares)) in
        record {
          state = s;
          plan = p;
          whole = all_seen;
          reads = ap (read_state limit) (sym all_seen) ∙ reads;
          prepares = prepares;
          live =
              (prepared-StillLive_iff s a.call a.clock p a.moment.now prepares).0
                (ground (arith, done));
          fate = submit-commits a.moment.fate log (run_guarded p a.moment log) won;
        }
  ]
]

-- An attempt reports success exactly when nothing was added after its snapshot, the snapshot can be read, the
-- call is prepared on it, the store commits, and the authority that it rests on is alive when the batch
-- runs: for an issue the rows entitle its administrator, whose policy has not expired, nor the policy asked
-- for; for a rotation or a revocation they entitle its credential, whose policy has not expired.
pub attempt-ok_iff :
    (limit : ℕ) (log : Log) (a : Attempt)
    → ((attempt limit log a).1 ≡ ok tt) ↔ GoesThrough limit log a
attempt-ok_iff limit log a = (attempt-GoesThrough limit log a, GoesThrough-attempt limit log a)
