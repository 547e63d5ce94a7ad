-- ===== src/Observation/Records.antt =====
-- src/observation/mod.rs, identity.rs and normalize.rs: the records of an observation. The accepted
-- entry, the property and the outcome of a read are types of other owners, which these records only
-- carry and compare.
use verdant.Base.{
  ℕ, String, Option, ◌==◌, string_partial_eq, Bool, Result, ok, ◌>>◌, ◌>>=◌, ensure, ok_or,
  checked_add, u64_max, nat_partial_eq, ◌&&◌,
}
use verdant.Base.Int.{ℤ}
use verdant.Observation.Time.{
  Error, invalid, ReceiptOrigin, TimeEvidence, Freshness, FreshnessPolicy, ClockReading, assess,
}
use verdant.Runtime.Mapping.{Value, MapUnit, TransportResult, ValueQuality, Suitability}

-- src/domain/outcomes.rs.
pub record RecordIdentity : Type 0 where
  pub generation : String
  pub seq : ℕ

pub record ObservationId : Type 0 where
  pub scope : String
  pub producer : String
  pub position : RecordIdentity

unfoldable pub observation_id_eq : ObservationId → ObservationId → Bool
observation_id_eq a b =
    a.scope == b.scope
    && a.producer == b.producer
    && a.position.generation == b.position.generation
    && a.position.seq == b.position.seq

pub record ProducerCheckpoint : Type 0 where
  pub scope : String
  pub producer : String
  pub generation : String
  pub next : ℕ

unfoldable pub checkpoint_eq : ProducerCheckpoint → ProducerCheckpoint → Bool
checkpoint_eq a b =
    a.scope == b.scope
    && a.producer == b.producer
    && a.generation == b.generation
    && a.next == b.next

pub record Producer : Type 0 where
  pub checkpoint : ProducerCheckpoint
  pub incarnation : String
  pub lease : ℕ

unfoldable pub next_id : Producer → Result Error (ObservationId × ℕ)
next_id self = do
  next ← ok_or (checked_add u64_max self.checkpoint.next 1) (invalid "producer sequence exhausted")
  ok (
    record {
      scope = self.checkpoint.scope;
      producer = self.checkpoint.producer;
      position = record { generation = self.checkpoint.generation; seq = self.checkpoint.next };
    },
    next,
  )

-- src/runtime/mod.rs.
pub record WorkId : Type 0 where
  pub incarnation : ℕ
  pub sequence : ℕ

pub record RawRecord (Outcome : Type 0) : Type 0 where
  pub work : WorkId
  pub scope : String
  pub accepted_revision : ℕ
  pub active_generation : ℕ
  pub runtime_incarnation : ℕ
  pub source_generation : ℕ
  pub binding_key : String
  pub source : String
  pub endpoint : String
  pub property : String
  pub source_time : Option ℤ
  pub receipt_time : ℤ
  pub receipt_origin : ReceiptOrigin
  pub outcome : Outcome

pub record BindingContext (Entry Property : Type 0) : Type 0 where
  pub scope : String
  pub key : String
  pub binding_revision : ℕ
  pub accepted_revision : ℕ
  pub active_generation : ℕ
  pub runtime_incarnation : ℕ
  pub source_generation : ℕ
  pub entry : Entry
  pub property : Property

-- src/observation/normalize.rs.
pub data Codec : Type 0 where
  scalar exact_decimal_text : Codec

pub data UnitProvenance : Type 0 where
  synthetic_binding : MapUnit → UnitProvenance
  bacnet_engineering_units : ℕ → UnitProvenance
  absent : UnitProvenance

pub record Decoded : Type 0 where
  pub value : Value
  pub unit : MapUnit
  pub unit_provenance : UnitProvenance
  pub codec : Codec
  pub transport : TransportResult
  pub quality : ValueQuality
  pub suitability : Suitability

pub record PendingObservation (Entry Property Outcome : Type 0) : Type 0 where
  pub raw : RawRecord Outcome
  pub binding : BindingContext Entry Property
  pub decoded : Decoded
  pub time : TimeEvidence
  pub freshness : Freshness
  pub policy : FreshnessPolicy

pub record NormalizedObservation (Entry Property Outcome : Type 0) : Type 0 where
  pub id : ObservationId
  pub incarnation : String
  pub content : PendingObservation Entry Property Outcome

module _ {E P O : Type 0} where
  unfoldable pub identify :
      PendingObservation E P O → ObservationId → String → Result Error (NormalizedObservation E P O)
  identify self id incarnation = do
    ensure (id.scope == self.binding.scope) (invalid "identity scope")
    ok (record { id = id; incarnation = incarnation; content = self })

  unfoldable pub assess_observation : NormalizedObservation E P O → ClockReading → Freshness
  assess_observation self now = assess self.content.policy self.content.time now
