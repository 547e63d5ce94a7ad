-- ===== src/Action/Dispatch.antt =====
-- src/action_dispatch/lifecycle_decision.rs and the protocol results of outcome.rs.
use verdant.Base.{ℕ, String, leb, Result, ok, err, ◌>>=◌, ◌>>◌, refuse_if, ok_or}
use verdant.Base.Int.{ℤ, checked_sub_i64, u64_of_i64, is_negative}
use verdant.Action.Journal.{Admitted, admitted, dispatched, terminal, unresolved}

-- `InvalidDetail` keeps its `what`; `wall_expired` is the one whose formatted detail shows the
-- elapsed seconds and the deadline.
pub data DispatchError : Type 0 where
  invalid invalid_detail : String → DispatchError
  wall_expired : ℕ → ℕ → DispatchError

unfoldable pub check_lifecycle_for_dispatch : Admitted → Result DispatchError (Unit {0})
check_lifecycle_for_dispatch a = elim a.lifecycle [
  | admitted ↦ ok tt
  | dispatched ↦ ok tt
  | unresolved ↦ ok tt
  | terminal ↦ err (invalid "lifecycle terminal is final; reconcile history, do not resend")
]

unfoldable pub verify_durable_wall_for_set_with_now : Admitted → ℤ → Result DispatchError (Unit {0})
verify_durable_wall_for_set_with_now a now_secs = do
  delta ← ok_or (checked_sub_i64 now_secs a.created_secs) (invalid_detail "wall")
  refuse_if (is_negative delta) (invalid_detail "wall")
  elapsed_u ← ok_or (u64_of_i64 delta) (invalid_detail "wall")
  refuse_if (leb a.deadline_secs elapsed_u) (wall_expired elapsed_u a.deadline_secs)

-- The WriteProperty wire outcome alone.
pub data ProtocolResult : Type 0 where
  confirmed timeout invalid_reply transport_failure : ProtocolResult
  remote_error : ℕ → ℕ → ProtocolResult
  reject abort : ℕ → ProtocolResult
