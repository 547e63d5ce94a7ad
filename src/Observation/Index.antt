-- ===== src/Observation/Index.antt =====
-- src/observation/index.rs: the selected bindings, the records and the current values of the receiver. `enter_review` is the answer of the access gate
-- for the call's credential. A method that changes the receiver returns the new one; on an error it
-- has changed nothing.
pub mod Histories
pub mod Identity
pub mod Currency
pub mod Bounds
pub mod Fence
use verdant.Base.{
  ℕ, ◌+◌, ◌-◌, String, Bool, true, false, not, ◌&&◌, ◌||◌, Option, none, some, List, [], ◌∷◌, ◌++◌,
  if◌then◌else◌, ltb, leb, nat_eq, ◌==◌, PartialEq, string_partial_eq, nat_partial_eq, length,
  get_elem?, set, any, find, position, keep, map, is_ok, Result, ok, err, ◌>>=◌, ◌>>◌, refuse_if,
  ensure, ok_or, map_err, checked_add, u64_max, len,
}
use Prim.Native.String.{◌++◌ as text_append}
use verdant.Base.Decimal.{decimal}
use verdant.Base.Int.{ℤ, ltb_ℤ}
use verdant.Domain.Ids
use verdant.Domain.Clock.{elapsed_since}
use verdant.Observation.Time.{
  Error, invalid, conflict, domain, Freshness, fresh, stale, unknown, retain, ClockReading, source,
}
use verdant.Observation.Records.{
  ObservationId, observation_id_eq, ProducerCheckpoint, checkpoint_eq, Producer, next_id,
  BindingContext, PendingObservation, NormalizedObservation, identify, assess_observation,
}
use verdant.Observation.Receiver.{
  Ledger, Current, Stored, SyntheticReceiver, holds_lease, is_producer,
}
use verdant.Runtime.Mapping.{
  Value, Suitability, synthetic_value_only, refused, Refusal, not_fresh_refused,
}

pub data Reconciliation : Type 0 where
  same_content : Reconciliation

pub record CurrentValue (E P O : Type 0) : Type 0 where
  pub observation : NormalizedObservation E P O
  pub freshness : Freshness
  pub suitability : Suitability

abbrev source_before : Option ℤ → Option ℤ → Bool
source_before (some new) (some old) = ltb_ℤ new old
source_before _ _ = false

abbrev pub at_position : {A : Type 0} → List A → Option ℕ → Option A
at_position xs none = none
at_position xs (some i) = get_elem? xs i

abbrev is_fresh : Freshness → Bool
is_fresh fresh = true
is_fresh stale = false
is_fresh unknown = false

module _ {E P : Type 0} where
  unfoldable pub is_slot : BindingContext E P → Current → Bool
  is_slot context c = c.scope == context.scope && c.key == context.key

module _ {E P : Type 0} ⦃context_eq : PartialEq (BindingContext E P)⦄ where
  unfoldable pub is_binding : BindingContext E P → BindingContext E P → Bool
  is_binding selected b = b.scope == selected.scope && b.key == selected.key

  unfoldable pub is_expected : Option (BindingContext E P) → Option (BindingContext E P) → Bool
  is_expected none none = true
  is_expected (some old) (some expected) = old == expected
  is_expected _ _ = false

abbrev pub advance : List Ledger → ℕ → ℕ → Option Ledger → List Ledger
advance ps index next none = ps
advance ps index next (some p) =
    set ps index (record p { checkpoint = record p.checkpoint { next = next } })

unfoldable pub current_suitability : Freshness → Suitability → Suitability
current_suitability f synthetic_value_only =
    if is_fresh f then synthetic_value_only else refused not_fresh_refused
current_suitability f (refused reason) = refused reason

module _ {E P O : Type 0} where
  unfoldable pub dependent_value : CurrentValue E P O → Result Refusal Value
  dependent_value c = elim c.suitability [
    | synthetic_value_only ↦ ok c.observation.content.decoded.value
    | refused reason ↦ err reason
  ]

  unfoldable pub is_late : NormalizedObservation E P O → NormalizedObservation E P O → Bool
  is_late new old =
      not (is_ok (elapsed_since new.content.time.receipt_mark old.content.time.receipt_mark))
      || ltb_ℤ new.content.raw.receipt_time old.content.raw.receipt_time
      || source_before (source new.content.time.times) (source old.content.time.times)

  unfoldable pub placed :
      List (Stored E P O) → List Current → ℕ → NormalizedObservation E P O → Option ℕ → List Current
  placed records current index new none =
      current
      ++ record {
        scope = new.content.binding.scope;
        key = new.content.binding.key;
        record_index = index;
      }
        ∷ []
  placed records current index new (some slot) = elim (get_elem? current slot) [
    | none ↦ current
    | some c ↦ elim (get_elem? records c.record_index) [
      | none ↦ current
      | some old ↦
          if is_late new old.observation
          then current
          else set current slot (record c { record_index = index })
    ]
  ]

module _ {E P O : Type 0} ⦃context_eq : PartialEq (BindingContext E P)⦄ where
  unfoldable pub considered :
      List (BindingContext E P)
      → List (Stored E P O)
      → List Current
      → ℕ
      → Option (Stored E P O)
      → List Current
  considered bindings records current index none = current
  considered bindings records current index (some stored) =
      let context = stored.observation.content.binding in
      if any (λ b. b == context) bindings
      then placed records current index stored.observation (position (is_slot context) current)
      else current

  unfoldable pub consider : SyntheticReceiver E P O → ℕ → SyntheticReceiver E P O
  consider self index = record self {
    current =
        considered self.bindings self.records self.current index (get_elem? self.records index);
  }

  -- The indices from `i` on, as many as the records of the list.
  unfoldable pub consider_from :
      SyntheticReceiver E P O → ℕ → List (Stored E P O) → SyntheticReceiver E P O
  consider_from self i [] = self
  consider_from self i (r ∷ rs) = consider_from (consider self i) (i + 1) rs

  unfoldable pub rebuild_current : SyntheticReceiver E P O → SyntheticReceiver E P O
  rebuild_current self = consider_from (record self { current = [] }) 0 self.records

  -- `into_image` moves the receiver into its image, which is the receiver.
  unfoldable pub reopen : SyntheticReceiver E P O → SyntheticReceiver E P O
  reopen image = rebuild_current image

  unfoldable pub place_binding :
      SyntheticReceiver E P O
      → BindingContext E P
      → Option ℕ
      → Option (BindingContext E P)
      → Result Error (SyntheticReceiver E P O)
  place_binding self selected (some i) (some old) =
      if old == selected
      then ok self
      else if leb selected.active_generation old.active_generation
      then err (conflict "selection requires a newer activation")
      else ok (rebuild_current (record self { bindings = set self.bindings i selected }))
  place_binding self selected _ _ =
      if leb self.limit (length self.bindings)
      then err (invalid "binding capacity")
      else ok (rebuild_current (record self { bindings = self.bindings ++ selected ∷ [] }))

  unfoldable pub select_binding :
      (String → Result Error (Unit {0}))
      → SyntheticReceiver E P O
      → Option (BindingContext E P)
      → BindingContext E P
      → Result Error (SyntheticReceiver E P O)
  select_binding enter_review self expected selected = do
    enter_review selected.scope
    let old = position (is_binding selected) self.bindings
    ensure (is_expected (at_position self.bindings old) expected) (conflict "selection changed")
    place_binding self selected old (at_position self.bindings old)

  unfoldable pub emit :
      (String → Result Error (Unit {0}))
      → SyntheticReceiver E P O
      → Producer
      → PendingObservation E P O
      → Result Error (NormalizedObservation E P O × Producer × SyntheticReceiver E P O)
  emit enter_review self producer pending = do
    enter_review producer.checkpoint.scope
    index ←
        ok_or (position (holds_lease producer) self.producers)
          (conflict "stale producer or restored counter")
    refuse_if (leb self.limit (length self.records)) (invalid "observation capacity; no eviction")
    (id, next) ← next_id producer
    observation ← identify pending id producer.incarnation
    ok (
      observation,
      record producer { checkpoint = record producer.checkpoint { next = next } },
      consider
          (record self {
            producers = advance self.producers index next (get_elem? self.producers index);
            records =
                self.records
                ++ record { observation = observation; freshness = observation.content.freshness }
                  ∷ [];
          })
          (length self.records),
    )

module _ {E P O : Type 0} where
  unfoldable pub is_record : String → ObservationId → Stored E P O → Bool
  is_record scope id r = r.observation.id.scope == scope && observation_id_eq r.observation.id id

  unfoldable pub reconcile :
      ⦃e : PartialEq (NormalizedObservation E P O)⦄
      → (String → Result Error (Unit {0}))
      → SyntheticReceiver E P O
      → String
      → NormalizedObservation E P O
      → Result Error Reconciliation
  reconcile ⦃e⦄ enter_review self scope observation = do
    enter_review scope
    old ←
        ok_or (find (is_record scope observation.id) self.records)
          (conflict "no matching scoped identity")
    ensure (old.observation == observation) (conflict "same identity, different content")
    ok same_content

  abbrev observation_of : Option (Stored E P O) → Option (NormalizedObservation E P O)
  observation_of none = none
  observation_of (some r) = some r.observation

  unfoldable pub read :
      (String → Result Error (Unit {0}))
      → SyntheticReceiver E P O
      → String
      → ObservationId
      → Result Error (Option (NormalizedObservation E P O))
  read enter_review self scope id = do
    enter_review scope
    ok (observation_of (find (is_record scope id) self.records))

  unfoldable pub history :
      (String → Result Error (Unit {0}))
      → SyntheticReceiver E P O
      → String
      → String
      → Result Error (List (NormalizedObservation E P O))
  history enter_review self scope key = do
    enter_review scope
    ok (
        map (λ r. r.observation)
          (keep (λ r. r.observation.id.scope == scope && r.observation.content.binding.key == key)
            self.records))

  unfoldable pub refreshed : ClockReading → Stored E P O → Stored E P O
  refreshed now stored = record stored {
    freshness = retain stored.freshness (assess_observation stored.observation now);
  }

  unfoldable pub current_at :
      SyntheticReceiver E P O
      → ClockReading
      → ℕ
      → Option (Stored E P O)
      → Option (CurrentValue E P O) × SyntheticReceiver E P O
  current_at self now i none = (none, self)
  current_at self now i (some stored) = (
    some (record {
      observation = stored.observation;
      freshness = (refreshed now stored).freshness;
      suitability =
          current_suitability (refreshed now stored).freshness
            stored.observation.content.decoded.suitability;
    }),
    record self { records = set self.records i (refreshed now stored) },
  )

  unfoldable pub current_found :
      SyntheticReceiver E P O
      → ClockReading
      → Option Current
      → Option (CurrentValue E P O) × SyntheticReceiver E P O
  current_found self now none = (none, self)
  current_found self now (some c) =
      current_at self now c.record_index (get_elem? self.records c.record_index)

  unfoldable pub current :
      (String → Result Error (Unit {0}))
      → SyntheticReceiver E P O
      → String
      → String
      → ClockReading
      → Result Error (Option (CurrentValue E P O) × SyntheticReceiver E P O)
  current enter_review self scope key now = do
    enter_review scope
    ok (
        current_found self now
          (find (λ (c : Current). c.scope == scope && c.key == key) self.current))
