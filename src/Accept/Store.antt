-- ===== src/Accept/Store.antt =====
-- src/accept/store.rs: the chain of accepted revisions of a scope, one durable event for each, and the
-- tickets that add to it. A row's event is typed; its column `entity` is the scope behind its prefix.
use verdant.Base.{
  ℕ, suc, String, Bool, false, not, ◌&&◌, Option, none, some, List, [], ◌∷◌, ltb, nat_eq, any, keep,
  length, Result, ok, ◌>>=◌, ◌>>◌, ensure, refuse_if, ◌==◌, string_partial_eq,
}
use verdant.Storage.Mutation.{StorageError}

pub data Stage : Type 0 where
  staged sealed accepted activated qualified : Stage

pub data Error : Type 0 where
  invalid limit conflict : String → Error
  environment_override approval_mismatch : Error
  not_yet : Stage → Error
  blocked binding access seal io : String → Error
  activation_blocked : String → String → String → Error
  stale_generation superseded : ℕ → ℕ → Error
  unknown : String → String → Error
  storage : StorageError → Error

abbrev pub max_accepted : ℕ
max_accepted = 256

-- `AcceptedRevision::new` and `next`.
unfoldable pub new_revision : ℕ → Result Error ℕ
new_revision value = do refuse_if (ltb max_accepted value) (limit "accepted revision"); ok value

unfoldable pub next_revision : ℕ → Result Error ℕ
unfolding new_revision
next_revision value = new_revision (suc value)

pub record AcceptanceRequest : Type 0 where
  pub operation : String
  pub expected : ℕ
  pub scope : String
  pub staged_operation : String
  pub seal : String

abbrev pub acceptance_eq : AcceptanceRequest → AcceptanceRequest → Bool
acceptance_eq a b =
    a.operation == b.operation
    && nat_eq a.expected b.expected
    && a.scope == b.scope
    && a.staged_operation == b.staged_operation
    && a.seal == b.seal

pub record ActivationRequest : Type 0 where
  pub operation : String
  pub expected : ℕ
  pub acceptance : AcceptanceRequest

abbrev pub activation_eq : ActivationRequest → ActivationRequest → Bool
activation_eq a b =
    a.operation == b.operation
    && nat_eq a.expected b.expected
    && acceptance_eq a.acceptance b.acceptance

pub record Accepted : Type 0 where
  pub row_id : ℕ
  pub revision : ℕ
  pub request : AcceptanceRequest
  pub actor_reference : String
  pub reconciled : Bool

-- The rows `accept-revision-v1` and `accept-active-v1` of the outbox.
pub record AcceptRow : Type 0 where
  pub id : ℕ
  pub entity : String
  pub seq : ℕ
  pub request : AcceptanceRequest
  pub actor : String

pub record ActiveRow : Type 0 where
  pub id : ℕ
  pub entity : String
  pub seq : ℕ
  pub request : ActivationRequest

abbrev pub accepts_of : String → List AcceptRow → List AcceptRow
accepts_of scope rows = keep (λ r. r.entity == scope) rows

abbrev pub actives_of : String → List ActiveRow → List ActiveRow
actives_of scope rows = keep (λ r. r.entity == scope) rows

abbrev pub is_repeated : String → List String → Bool
is_repeated operation operations = any (λ o. o == operation) operations

-- One round of `history`, at `index`, behind rows of these operations.
unfoldable pub accepted_from :
    String → ℕ → List String → List AcceptRow → Result Error (List Accepted)
unfolding new_revision next_revision
accepted_from scope index operations [] = ok []
accepted_from scope index operations (r ∷ rows) = do
  ensure (nat_eq r.seq (suc index)) (invalid "accepted sequence/columns")
  ensure
      (r.request.scope == scope
        && nat_eq r.request.expected index
        && ltb 0 r.id
        && not (is_repeated r.request.operation operations))
      (invalid "accepted event chain")
  new_revision index
  revision ← next_revision index
  rest ← accepted_from scope (suc index) (r.request.operation ∷ operations) rows
  ok (
      record {
        row_id = r.id;
        revision = revision;
        request = r.request;
        actor_reference = r.actor;
        reconciled = false;
      }
      ∷ rest)

unfoldable pub accepted_history : String → List AcceptRow → Result Error (List Accepted)
unfolding accepted_from
accepted_history scope rows = do
  refuse_if (ltb max_accepted (length (accepts_of scope rows))) (limit "accepted history")
  accepted_from scope 0 [] (accepts_of scope rows)

abbrev pub pop : {A : Type 0} → List A → Option A
pop [] = none
pop (x ∷ xs) = elim (pop xs) [ none ↦ some x | some y ↦ some y ]

unfoldable pub current_accepted : String → List AcceptRow → Result Error (Option Accepted)
unfolding accepted_history
current_accepted scope rows = do chain ← accepted_history scope rows; ok (pop chain)
