-- ===== src/Access/Histories.antt =====
-- Any sequence of the attempts of gate.rs to change the admission rows, by any callers. Each caller's
-- snapshot may be older than the store when the batch runs.
use verdant.Base.{ℕ, String, List, [], ◌∷◌, take, Result, ok, err, ◌>>=◌, map_err}
use verdant.Base.Int.{ℤ}
use verdant.Base.Bytes.{Bytes}
use verdant.Storage.Mutation.{conflict}
use verdant.Access.{AccessError, already_bootstrapped, store, Credential}
use verdant.Access.Records.{Log, State, read_state}
use verdant.Access.Gate.{
  PreparedBatch, Moment, submit, bootstrap_batch, issue_batch, rotate_batch, revoke_batch,
  IssueRequest,
}

-- `bootstrap`, `issue_with_policy`, `rotate` and `revoke`; `issue` is the second with an entry-only policy.
pub data Call : Type 0 where
  bootstrapping : Bytes → Bytes → String → Call
  issuing : IssueRequest → Result AccessError ℤ → Call
  rotating : Credential → String → Bytes → String → Call
  revoking : Credential → String → Call

pub record Attempt : Type 0 where
  pub seen : ℕ
  pub call : Call
  pub clock : Result AccessError ℤ
  pub moment : Moment

unfoldable pub prepared : State → Call → Result AccessError ℤ → Result AccessError PreparedBatch
unfolding bootstrap_batch issue_batch rotate_batch revoke_batch
prepared state (bootstrapping reviewer_key publisher_key reason) clock =
    bootstrap_batch state reviewer_key publisher_key reason
prepared state (issuing request later_clock) clock = issue_batch state request clock later_clock
prepared state (rotating current new_key_id new_key reason) clock =
    rotate_batch state current new_key_id new_key reason clock
prepared state (revoking current reason) clock = revoke_batch state current reason clock

-- `bootstrap` takes a conflict of its batch for another bootstrap that came first.
abbrev bootstrap_error : AccessError → AccessError
bootstrap_error (store (conflict detail)) = already_bootstrapped
bootstrap_error e = e

abbrev pub reported : Call → Result AccessError (Unit {0}) → Result AccessError (Unit {0})
reported (bootstrapping reviewer_key publisher_key reason) answer = map_err bootstrap_error answer
reported (issuing request later_clock) answer = answer
reported (rotating current new_key_id new_key reason) answer = answer
reported (revoking current reason) answer = answer

abbrev submitted :
    Call → Moment → Log → Result AccessError PreparedBatch → Log × Result AccessError (Unit {0})
submitted call at_store log (err e) = (log, err e)
submitted call at_store log (ok p) =
    let landed = submit p at_store log in (landed.0, reported call landed.1)

-- One attempt: the rows that it leaves, and its answer.
unfoldable pub attempt : ℕ → Log → Attempt → Log × Result AccessError (Unit {0})
unfolding prepared submit
attempt max_replay_rows log a =
    submitted a.call a.moment log
      (do state ← read_state max_replay_rows (take a.seen log); prepared state a.call a.clock)

unfoldable pub run : ℕ → Log → List Attempt → Log
run max_replay_rows log [] = log
run max_replay_rows log (a ∷ later) = run max_replay_rows (attempt max_replay_rows log a).0 later
