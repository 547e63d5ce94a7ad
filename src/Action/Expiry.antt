-- ===== src/Action/Expiry.antt =====
-- src/action_expiry/policy.rs: monotonic expiry, the durable deadline wall, and the gate of a SET.
use verdant.Base.{
  ℕ, ◌*◌, ◌/◌, Bool, true, false, none, some, String, leb, nat_eq, ◌==◌, string_partial_eq,
  if◌then◌else◌, checked_add, u32_max, Result, ok, err, ◌>>=◌, ◌>>◌, refuse_if, ok_or,
}
use verdant.Base.Int.{ℤ, checked_sub_i64, u64_of_i64, is_negative}
use verdant.Domain.Errors.{Error, boot_mismatch, impossible_elapsed}
use verdant.Domain.Clock.{MonotonicMark, elapsed_since}
use verdant.Observation.Time.{
  Freshness, fresh, stale, unknown, Continuity, confirmed, wall_or_suspend_ambiguous,
}

pub data ExpiryState : Type 0 where
  active : ExpiryState
  expired : ℕ → ℕ → ExpiryState
  indeterminate : String → ExpiryState

unfoldable pub is_active : ExpiryState → Bool
is_active active = true
is_active (expired e d) = false
is_active (indeterminate r) = false

-- src/action_expiry/mod.rs `ExpiryError`, without the refusals that other owners delegate.
pub data ExpiryError : Type 0 where
  invalid : String → ExpiryError
  expired : ℕ → ℕ → ExpiryError
  indeterminate : String → ExpiryError
  stale_generation : ℕ → ℕ → ExpiryError

-- The admitted horizon: durations in seconds and the generations frozen at admission.
pub record ExpiryHorizon : Type 0 where
  pub duration_secs : ℕ
  pub deadline_secs : ℕ
  pub expected_generation : ℕ
  pub target_generation : ℕ

unfoldable pub next_generation : ℕ → Result ExpiryError ℕ
next_generation expected =
    ok_or (checked_add u32_max expected 1) (invalid "target generation overflow")

unfoldable pub with_edited_duration_for_new_generation :
    ExpiryHorizon → ℕ → ℕ → Result ExpiryError ExpiryHorizon
with_edited_duration_for_new_generation h new_duration_secs new_expected_generation = do
  refuse_if (nat_eq new_duration_secs 0) (invalid "edited duration non-zero")
  new_target ←
      ok_or (checked_add u32_max new_expected_generation 1) (invalid "target generation overflow")
  ok (record {
    duration_secs = new_duration_secs;
    deadline_secs = h.deadline_secs;
    expected_generation = new_expected_generation;
    target_generation = new_target;
  })

-- Checked wall age in milliseconds.
unfoldable pub wall_age_millis : ℤ → ℤ → Result ExpiryError ℕ
wall_age_millis now_wall receipt_wall = do
  delta ← ok_or (checked_sub_i64 now_wall receipt_wall) (indeterminate "wall-rollback")
  ok_or (u64_of_i64 delta) (indeterminate "wall-rollback")

unfoldable pub require_same_boot : MonotonicMark → MonotonicMark → Result ExpiryError (Unit {0})
require_same_boot first second =
    if first.boot == second.boot then ok tt else err (indeterminate "cross-boot")

unfoldable pub require_confirmed : Continuity → Result ExpiryError (Unit {0})
require_confirmed confirmed = ok tt
require_confirmed wall_or_suspend_ambiguous = err (indeterminate "suspend-qualified")

abbrev pub nanos_per_sec : ℕ
nanos_per_sec = 1_000_000_000

abbrev clock_reason : Error → String
clock_reason (boot_mismatch expected got) = "cross-boot"
clock_reason impossible_elapsed = "impossible-elapsed"
clock_reason _ = "clock-error"

-- Elapsed at or beyond the admitted duration is expired.
unfoldable pub assess_expiry : MonotonicMark → MonotonicMark → ℕ → ExpiryState
assess_expiry start now duration_secs = elim (elapsed_since now start) [
  | ok elapsed ↦
      if leb (duration_secs * nanos_per_sec) elapsed
      then expired (elapsed / nanos_per_sec) duration_secs
      else active
  | err error ↦ indeterminate (clock_reason error)
]

unfoldable pub decide_set_allowed : ExpiryState → Freshness → Result ExpiryError (Unit {0})
decide_set_allowed active fresh = ok tt
decide_set_allowed active stale = err (indeterminate "stale")
decide_set_allowed active unknown = err (indeterminate "unknown-time")
decide_set_allowed (expired elapsed_secs duration_secs) f = err (expired elapsed_secs duration_secs)
decide_set_allowed (indeterminate reason) f = err (indeterminate reason)

unfoldable pub authorize_cancel : ℕ → ℕ → Result ExpiryError (Unit {0})
authorize_cancel expected_generation current_generation =
    if nat_eq expected_generation current_generation
    then ok tt
    else err (stale_generation expected_generation current_generation)

abbrev wall_elapsed : ℤ → ℕ → ExpiryState
wall_elapsed elapsed deadline_secs =
    if is_negative elapsed then indeterminate "wall-rollback" else elim (u64_of_i64 elapsed) [
      | none ↦ indeterminate "wall-rollback"
      | some elapsed_u ↦
          if leb deadline_secs elapsed_u then expired elapsed_u deadline_secs else active
    ]

-- The durable deadline wall anchored to the admission's `created` second.
unfoldable pub assess_deadline_wall : ℤ → ℤ → ℕ → ExpiryState
assess_deadline_wall created_secs now_secs deadline_secs =
    elim (checked_sub_i64 now_secs created_secs) [
      | none ↦ indeterminate "wall-rollback"
      | some elapsed ↦ wall_elapsed elapsed deadline_secs
    ]

unfoldable pub decide_set_with_wall_anchor :
    ExpiryState → Freshness → ℤ → ℤ → ℕ → Result ExpiryError (Unit {0})
unfolding decide_set_allowed
decide_set_with_wall_anchor expiry freshness created_secs now_secs deadline_secs =
    elim (assess_deadline_wall created_secs now_secs deadline_secs) [
      | active ↦ decide_set_allowed expiry freshness
      | expired elapsed_secs duration_secs ↦ err (expired elapsed_secs duration_secs)
      | indeterminate reason ↦ err (indeterminate reason)
    ]
