-- ===== src/Observation/Receiver.antt =====
-- src/observation/index.rs: the state of the synthetic receiver, and how producers start and resume. `enter_review` is the answer of the access gate
-- for the call's credential. A method that changes the receiver returns the new one; on an error it
-- has changed nothing.
pub mod Ledgers
use verdant.Base.{
  ℕ, ◌+◌, ◌-◌, String, Bool, true, false, not, ◌&&◌, ◌||◌, Option, none, some, List, [], ◌∷◌, ◌++◌,
  if◌then◌else◌, ltb, leb, nat_eq, ◌==◌, PartialEq, string_partial_eq, nat_partial_eq, length,
  get_elem?, set, any, find, position, keep, map, is_ok, Result, ok, err, ◌>>=◌, ◌>>◌, refuse_if,
  ensure, ok_or, map_err, checked_add, u64_max, len,
}
use Prim.Native.String.{◌++◌ as text_append}
use verdant.Base.Decimal.{decimal}
use verdant.Base.Int.{ℤ, ltb_ℤ}
use verdant.Domain.Ids
use verdant.Domain.Clock.{elapsed_since}
use verdant.Observation.Time.{
  Error, invalid, conflict, domain, Freshness, fresh, stale, unknown, retain, ClockReading, source,
}
use verdant.Observation.Records.{
  ObservationId, observation_id_eq, ProducerCheckpoint, checkpoint_eq, Producer, next_id,
  BindingContext, PendingObservation, NormalizedObservation, identify, assess_observation,
}
use verdant.Runtime.Mapping.{
  Value, Suitability, synthetic_value_only, refused, Refusal, not_fresh_refused,
}

pub record Ledger : Type 0 where
  pub checkpoint : ProducerCheckpoint
  pub lease : ℕ

pub record Current : Type 0 where
  pub scope : String
  pub key : String
  pub record_index : ℕ

pub record Stored (E P O : Type 0) : Type 0 where
  pub observation : NormalizedObservation E P O
  pub freshness : Freshness

pub record SyntheticReceiver (E P O : Type 0) : Type 0 where
  pub namespace : String
  pub allocation : ℕ
  pub limit : ℕ
  pub producers : List Ledger
  pub records : List (Stored E P O)
  pub bindings : List (BindingContext E P)
  pub current : List Current

-- The generation that the `allocation`-th call of `allocate` names.
unfoldable pub generation_text : String → ℕ → String
generation_text namespace allocation = text_append namespace (text_append ":" (decimal allocation))

unfoldable pub is_producer : String → String → Ledger → Bool
is_producer scope producer p = p.checkpoint.scope == scope && p.checkpoint.producer == producer

unfoldable pub holds_lease : Producer → Ledger → Bool
holds_lease producer p = checkpoint_eq p.checkpoint producer.checkpoint && p.lease == producer.lease

-- The checkpoint that a resume goes on from.
unfoldable pub resumed_checkpoint : Bool → ProducerCheckpoint → String → ProducerCheckpoint
resumed_checkpoint intact restored fresh_generation =
    if intact then restored else record restored { generation = fresh_generation; next = 0 }

unfoldable pub is_intact : Option Ledger → ProducerCheckpoint → Bool
is_intact none restored = false
is_intact (some p) restored = checkpoint_eq p.checkpoint restored

module _ {E P O : Type 0} where
  unfoldable pub new_receiver : String → ℕ → Result Error (SyntheticReceiver E P O)
  new_receiver namespace limit = do
    refuse_if (nat_eq limit 0 || ltb 96 (len namespace)) (invalid "receiver namespace/capacity")
    ok (record {
      namespace = namespace;
      allocation = 0;
      limit = limit;
      producers = [];
      records = [];
      bindings = [];
      current = [];
    })

  unfoldable pub allocate :
      SyntheticReceiver E P O → Result Error ((String × ℕ) × SyntheticReceiver E P O)
  unfolding generation_text
  allocate self = do
    allocation ←
        ok_or (checked_add u64_max self.allocation 1) (invalid "receiver generation exhausted")
    generation ←
        map_err domain (Ids.parse "source_generation" (generation_text self.namespace allocation))
    ok ((generation, allocation), record self { allocation = allocation })

  unfoldable pub start :
      (String → Result Error (Unit {0}))
      → SyntheticReceiver E P O
      → String
      → String
      → String
      → Result Error (Producer × SyntheticReceiver E P O)
  start enter_review self scope producer incarnation = do
    enter_review scope
    refuse_if (any (is_producer scope producer) self.producers)
        (conflict "producer exists; reconcile its checkpoint")
    refuse_if (leb self.limit (length self.producers)) (invalid "producer capacity")
    ((generation, lease), allocated) ← allocate self
    let checkpoint : ProducerCheckpoint = record {
      scope = scope;
      producer = producer;
      generation = generation;
      next = 0;
    }
    ok (
      record { checkpoint = checkpoint; incarnation = incarnation; lease = lease },
      record allocated {
        producers = self.producers ++ record { checkpoint = checkpoint; lease = lease } ∷ [];
      },
    )

  unfoldable pub resume :
      (String → Result Error (Unit {0}))
      → SyntheticReceiver E P O
      → ProducerCheckpoint
      → String
      → Result Error (Producer × SyntheticReceiver E P O)
  resume enter_review self restored incarnation = do
    enter_review restored.scope
    index ←
        ok_or (position (is_producer restored.scope restored.producer) self.producers)
          (conflict "receiver has no continuity evidence")
    let intact = is_intact (get_elem? self.producers index) restored
    ((fresh_generation, lease), allocated) ← allocate self
    let checkpoint = resumed_checkpoint intact restored fresh_generation
    ok (
      record { checkpoint = checkpoint; incarnation = incarnation; lease = lease },
      record allocated {
        producers = set self.producers index (record { checkpoint = checkpoint; lease = lease });
      },
    )
  -- Neither late arrivals nor an incomparable boot can become current.
