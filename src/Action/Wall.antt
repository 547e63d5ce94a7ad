-- ===== src/Action/Wall.antt =====
-- The durable wall is decided in three owners (action_expiry/policy.rs, action_dispatch/
-- lifecycle_decision.rs, action_journal/rate.rs) and read once more by the cleanup scan; this file
-- relates them.
use verdant.Base.{ℕ, ◌+◌, ◌≤◌, ◌<◌, ◌≡◌, ◌↔◌, arith, i64_max, Result, ok, err}
use verdant.Base.Int.{ℤ, ◌-ℤ◌, pos_part, neg_part, ◌≤ℤ◌}
use verdant.Observation.Time.{Freshness, fresh}
use verdant.Action.Expiry.{
  ExpiryState, active, assess_deadline_wall, decide_set_with_wall_anchor, is_active,
}
use verdant.Action.Journal.{
  Admitted, WriterError, deadline_exceeded, rate_indeterminate, check_deadline_wall, is_cleanup_due,
  owned_deadline_secs,
}
use verdant.Action.Dispatch.{
  DispatchError, invalid_detail, wall_expired, verify_durable_wall_for_set_with_now,
}

-- What each owner makes of a verdict.
abbrev pub writer_verdict : ExpiryState → Result WriterError (Unit {0})
writer_verdict active = ok tt
writer_verdict (ExpiryState.expired e d) = err (deadline_exceeded e d)
writer_verdict (ExpiryState.indeterminate r) = err (rate_indeterminate r)

abbrev pub dispatch_verdict : ExpiryState → Result DispatchError (Unit {0})
dispatch_verdict active = ok tt
dispatch_verdict (ExpiryState.expired e d) = err (wall_expired e d)
dispatch_verdict (ExpiryState.indeterminate r) = err (invalid_detail "wall")

-- The journal's wall check is the expiry owner's wall at the owned deadline of five seconds, with
-- the same elapsed seconds and the same reason.
check_deadline_wall-assess :
    (created now : ℤ)
    → check_deadline_wall created now
      ≡ writer_verdict (assess_deadline_wall created now owned_deadline_secs)
unfolding check_deadline_wall assess_deadline_wall
check_deadline_wall-assess created now = ground arith

-- The wall at the transport boundary is the expiry owner's wall at the admitted deadline.
pub verify_durable_wall-assess :
    (a : Admitted) (now : ℤ)
    → verify_durable_wall_for_set_with_now a now
      ≡ dispatch_verdict (assess_deadline_wall a.created_secs now a.deadline_secs)
unfolding verify_durable_wall_for_set_with_now assess_deadline_wall
verify_durable_wall-assess a now = ground arith

-- A cleanup obligation is due exactly while the wall of that horizon is active, for a horizon that
-- an `i64` holds.
pub is_cleanup_due-assess :
    (created now : ℤ) (horizon : ℕ)
    → horizon ≤ i64_max
    → is_cleanup_due created now horizon ≡ is_active (assess_deadline_wall created now horizon)
unfolding is_cleanup_due assess_deadline_wall is_active
is_cleanup_due-assess created now horizon h = ground arith

-- The wall is active exactly from `created` until just before `created + deadline`, unless the
-- distance is beyond an `i64`.
assess_deadline_wall_iff :
    (created now : ℤ) (deadline : ℕ)
    → (assess_deadline_wall created now deadline ≡ active) ↔ (
        (created ≤ℤ now)
        × (pos_part now + neg_part created < pos_part created + neg_part now + deadline)
        × (pos_part now + neg_part created ≤ pos_part created + neg_part now + i64_max))
unfolding assess_deadline_wall ◌-ℤ◌
assess_deadline_wall_iff created now deadline =
    (λ h. (ground arith, ground arith, ground arith), λ h. ground (arith, h.0, h.1, h.2))

-- A new SET is allowed exactly on an active expiry, fresh time evidence and an active wall.
decide_set_iff :
    (expiry : ExpiryState) (f : Freshness) (created now : ℤ) (deadline : ℕ)
    → (decide_set_with_wall_anchor expiry f created now deadline ≡ ok tt)
      ↔ ((expiry ≡ active) × (f ≡ fresh) × (assess_deadline_wall created now deadline ≡ active))
unfolding decide_set_with_wall_anchor
decide_set_iff expiry f created now deadline =
    (λ h. (ground arith, ground arith, ground arith), λ h. ground (arith, h.0, h.1, h.2))
