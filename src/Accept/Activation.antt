-- ===== src/Accept/Activation.antt =====
-- src/accept/activation.rs: the active pointer of a scope, one durable event for each activation of an
-- accepted revision, and the requests that move it.
use verdant.Base.{
  ℕ, suc, String, Bool, false, not, ◌&&◌, ◌||◌, Option, none, some, List, [], ◌∷◌, ltb, nat_eq, any,
  length, Result, ok, err, ◌>>=◌, ◌>>◌, ensure, refuse_if, ok_or, ◌==◌, string_partial_eq,
  if◌then◌else◌,
}
use verdant.Accept.Store.{
  AcceptRow, Accepted, ActivationRequest, ActiveRow, Error, acceptance_eq, activation_eq,
  actives_of, conflict, current_accepted, accepted_history, invalid, is_repeated, limit,
  max_accepted, new_revision, next_revision, pop, stale_generation, superseded,
}

-- `ActiveGeneration::new` and `next`.
unfoldable pub new_generation : ℕ → Result Error ℕ
new_generation value = do refuse_if (ltb max_accepted value) (limit "active generation"); ok value

unfoldable pub generation_after : ℕ → Result Error ℕ
unfolding new_generation
generation_after value = new_generation (suc value)

pub record Activated : Type 0 where
  pub row_id : ℕ
  pub generation : ℕ
  pub revision : ℕ
  pub request : ActivationRequest
  pub reconciled : Bool

abbrev pub is_join : ActiveRow → Accepted → Bool
is_join r a = acceptance_eq a.request r.request.acceptance && ltb a.row_id r.id

-- One round of `activation_history`, at `index`, behind rows of these operations and of revisions up to
-- `revision`.
unfoldable pub activated_from :
    String → List Accepted → ℕ → List String → ℕ → List ActiveRow → Result Error (List Activated)
unfolding new_revision next_revision new_generation generation_after
activated_from scope chain index operations revision [] = ok []
activated_from scope chain index operations revision (r ∷ rows) = do
  ensure (nat_eq r.seq (suc index)) (invalid "activation sequence/columns")
  ensure
      (r.request.acceptance.scope == scope
        && nat_eq r.request.expected index
        && ltb 0 r.id
        && not (is_repeated r.request.operation operations))
      (invalid "activation event chain")
  new_revision r.request.acceptance.expected
  target ← next_revision r.request.acceptance.expected
  ensure (ltb revision target && any (is_join r) chain) (invalid "activation accepted join/order")
  new_generation index
  generation ← generation_after index
  rest ← activated_from scope chain (suc index) (r.request.operation ∷ operations) target rows
  ok (
      record {
        row_id = r.id;
        generation = generation;
        revision = target;
        request = r.request;
        reconciled = false;
      }
      ∷ rest)

-- The rows that a call reads: those of the outbox when it reads them.
unfoldable pub activation_history :
    String → List AcceptRow → List ActiveRow → Result Error (List Activated)
unfolding activated_from
activation_history scope accepts actives = do
  refuse_if (ltb max_accepted (length (actives_of scope actives))) (limit "activation history")
  chain ← accepted_history scope accepts
  activated_from scope chain 0 [] 0 (actives_of scope actives)

unfoldable pub active_revision :
    String → List AcceptRow → List ActiveRow → Result Error (Option Activated)
unfolding activation_history
active_revision scope accepts actives = do
  chain ← activation_history scope accepts actives
  ok (pop chain)

abbrev pub generation_or_initial : Option Activated → ℕ
generation_or_initial none = 0
generation_or_initial (some a) = a.generation

abbrev is_replay : ActivationRequest → Option ℕ → Option Activated → Bool
is_replay request (some row) (some a) = nat_eq a.row_id row && activation_eq a.request request
is_replay request _ _ = false

-- Whether the current revision is the active one, for a request that is not replayed.
abbrev pub is_active_already : Option ℕ → Option Activated → ℕ → Bool
is_active_already none (some a) revision = nat_eq a.revision revision
is_active_already _ _ revision = false

abbrev pub require_accepted : ActivationRequest → Accepted → Result Error (Unit {0})
require_accepted request now = if acceptance_eq now.request request.acceptance then ok tt else (do
  requested ← next_revision request.acceptance.expected
  err (superseded requested now.revision))

unfoldable pub check_activation_order :
    ActivationRequest → Option ℕ → List AcceptRow → List ActiveRow → Result Error Accepted
unfolding active_revision current_accepted
check_activation_order request replay accepts actives = do
  found ← active_revision request.acceptance.scope accepts actives
  ensure (is_replay request replay found || nat_eq request.expected (generation_or_initial found))
      (stale_generation request.expected (generation_or_initial found))
  newest ← current_accepted request.acceptance.scope accepts
  now ← ok_or newest (invalid "activation requires committed acceptance")
  require_accepted request now
  refuse_if (is_active_already replay found now.revision)
      (conflict "already active; reconcile original operation")
  ok now

unfoldable pub superseded_by : ActivationRequest → List AcceptRow → Result Error Error
unfolding current_accepted
superseded_by request accepts = do
  newest ← current_accepted request.acceptance.scope accepts
  now ← ok_or newest (invalid "missing accepted history")
  requested ← next_revision request.acceptance.expected
  ok (superseded requested now.revision)
