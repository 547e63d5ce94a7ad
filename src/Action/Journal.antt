-- ===== src/Action/Journal.antt =====
-- src/action_journal: the admitted intent, its lifecycle, the typed refusals of the writer and the
-- wall checks of rate.rs and lifecycle.rs. The durable tables are in `Tables`, the writer's
-- operations on them in `Writer`.
pub use verdant.Access.{RoleKind, reviewer, publisher}
pub mod Tables
pub mod Rows
pub mod Writer
pub mod Steps
pub mod Order
pub mod Rate
pub mod Final
pub mod Answers
pub mod Pages
use verdant.Base.{
  ℕ, ◌+◌, ◌-◌, ◌≤◌, ◌<◌, Bool, true, false, not, ◌&&◌, ◌||◌, Option, none, some, String, len, ltb,
  leb, nat_eq, ◌==◌, string_partial_eq, if◌then◌else◌, all, i64_max, Result, ok, err, ◌>>=◌, ◌>>◌,
  ensure, refuse_if, ok_or,
}
use verdant.Base.Int.{
  ℤ, pos, negsuc, ◌-ℤ◌, ltb_ℤ, checked_sub_i64, u64_of_i64, i64_of_u64, is_negative,
}
use verdant.Domain.Ids.{codes, is_id_char}

pub data WriterError : Type 0 where
  invalid invalid_detail conflict stale_payload not_found rate_indeterminate storage :
      String → WriterError
  ceiling_exceeded stale_generation rate_exceeded deadline_exceeded : ℕ → ℕ → WriterError
  scope_denied unknown : String → String → WriterError

pub data LifecycleState : Type 0 where
  admitted dispatched terminal unresolved : LifecycleState

abbrev pub lifecycle_eq : LifecycleState → LifecycleState → Bool
lifecycle_eq admitted admitted = true
lifecycle_eq dispatched dispatched = true
lifecycle_eq terminal terminal = true
lifecycle_eq unresolved unresolved = true
lifecycle_eq _ _ = false

-- `as_str` and `parse` of the durable text.
unfoldable pub as_str : LifecycleState → String
as_str admitted = "admitted"
as_str dispatched = "dispatched"
as_str terminal = "terminal"
as_str unresolved = "unresolved"

unfoldable pub parse : String → Option LifecycleState
parse raw =
    if raw == "admitted"
    then some admitted
    else if raw == "dispatched"
    then some dispatched
    else if raw == "terminal"
    then some terminal
    else if raw == "unresolved"
    then some unresolved
    else none

unfoldable pub is_terminal : LifecycleState → Bool
is_terminal terminal = true
is_terminal _ = false

unfoldable pub is_outstanding : LifecycleState → Bool
unfolding is_terminal
is_outstanding s = not (is_terminal s)

-- A missing lifecycle reads as admitted.
unfoldable pub decode_lifecycle_or_default : Option String → Result WriterError LifecycleState
decode_lifecycle_or_default none = ok admitted
decode_lifecycle_or_default (some raw) = ok_or (parse raw) (invalid "lifecycle state")

pub data ActionKind : Type 0 where
  set release : ActionKind

abbrev pub kind_eq : ActionKind → ActionKind → Bool
kind_eq set set = true
kind_eq release release = true
kind_eq _ _ = false

-- The durable admitted intent as the writer hands it out; identities are their validated texts.
pub record Admitted : Type 0 where
  pub operation : String
  pub scope : String
  pub equipment : String
  pub binding_revision : ℕ
  pub accepted_revision : ℕ
  pub expected_generation : ℕ
  pub target_generation : ℕ
  pub payload : String
  pub deadline_secs : ℕ
  pub ceiling : ℕ
  pub actor : String
  pub attempt : String
  pub reconciled : Bool
  pub wire_bits : Option ℕ
  pub action_kind : Option ActionKind
  pub release_admitted : Option Bool
  pub release_target : Option String
  pub lifecycle : LifecycleState
  pub predecessor : Option String
  pub created_secs : ℤ

abbrev pub owned_rate_max_per_hour : ℕ
owned_rate_max_per_hour = 6

abbrev pub owned_deadline_secs : ℕ
owned_deadline_secs = 5

abbrev pub rate_window_secs : ℕ
rate_window_secs = 3600

abbrev pub cleanup_horizon_secs : ℕ
cleanup_horizon_secs = 900

-- rate.rs: `now - created` against the owned deadline.
unfoldable pub check_deadline_wall : ℤ → ℤ → Result WriterError (Unit {0})
check_deadline_wall created_secs now_secs = do
  elapsed ← ok_or (checked_sub_i64 now_secs created_secs) (rate_indeterminate "wall-rollback")
  refuse_if (is_negative elapsed) (rate_indeterminate "wall-rollback")
  elapsed_u ← ok_or (u64_of_i64 elapsed) (rate_indeterminate "wall-rollback")
  refuse_if (leb owned_deadline_secs elapsed_u) (deadline_exceeded elapsed_u owned_deadline_secs)

abbrev clamped_i64 : ℕ → ℤ
clamped_i64 n = elim (i64_of_u64 n) [ none ↦ pos i64_max | some z ↦ z ]

-- lifecycle.rs: whether a terminal SET still carries its cleanup obligation.
unfoldable pub is_cleanup_due : ℤ → ℤ → ℕ → Bool
is_cleanup_due created_secs now_secs horizon_secs = elim (checked_sub_i64 now_secs created_secs) [
  | none ↦ false
  | some delta ↦ if is_negative delta then false else ltb_ℤ delta (clamped_i64 horizon_secs)
]

abbrev pub required_publish_ceiling : ℕ
required_publish_ceiling = 2

unfoldable pub check_ceiling : ℕ → RoleKind → Result WriterError (Unit {0})
check_ceiling ceiling publisher =
    refuse_if (ltb ceiling required_publish_ceiling)
      (ceiling_exceeded ceiling required_publish_ceiling)
check_ceiling ceiling reviewer = err (ceiling_exceeded ceiling required_publish_ceiling)

abbrev is_framing : ℕ → Bool
is_framing c = nat_eq c 0x1f || nat_eq c 0x0a || nat_eq c 0x0d

unfoldable pub check_actor : String → Result WriterError String
check_actor raw = do
  refuse_if (raw == "") (invalid "empty actor")
  refuse_if (ltb 128 (len raw)) (invalid "actor too long")
  ensure (all is_id_char (codes raw)) (invalid "actor characters")
  ensure (all (λ c. not (is_framing c)) (codes raw)) (invalid "actor framing")
  refuse_if (raw == "VERDANT_BEGIN" || raw == "VERDANT_DATA" || raw == "VERDANT_END")
      (invalid "actor sentinel")
  ok raw
