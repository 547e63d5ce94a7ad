-- ===== src/Tests/Receiver.antt =====
-- Runs of the synthetic receiver.
use verdant.Base.{
  ℕ, ◌≡◌, ◌≢◌, ◌↔◌, ◌&&◌, refl, Bool, true, false, none, some, List, [], ◌∷◌, ◌++◌, String, ok,
  Result, is_ok, any, ◌==◌, PartialEq, nat_partial_eq, string_partial_eq, arith, eq_iff, nat_eq_iff,
  err,
}
use verdant.Base.Int.{pos}
use verdant.Base.Pairwise.{Pairwise}
use verdant.Domain.Clock.{MonotonicMark}
use verdant.Observation.Time.{
  Error, source_absent, bacnet_client_return, ClockReading, confirmed, fresh, TimeEvidence,
}
use verdant.Observation.Records.{
  RecordIdentity, ProducerCheckpoint, Producer, BindingContext, PendingObservation,
  NormalizedObservation, scalar, absent,
}
use verdant.Observation.Receiver.{SyntheticReceiver, resume}
use verdant.Observation.Index.{CurrentValue, emit, current}
use verdant.Observation.Index.Histories.{
  Review, Event, starts, resumes, selects, emits, reads_current, reopens, run, empty_receiver,
}
use verdant.Observation.Index.Identity.{positions, run-Pairwise}
use verdant.Observation.Index.Currency.{run-current}
use verdant.Observation.Index.Bounds.{IsWithin, observations, run-IsWithin, run-observations}
use verdant.Observation.Index.Fence.{resume-fences}
use verdant.Runtime.Mapping.{integer, known, value_returned, valid, synthetic_value_only}

abbrev Context : Type 0
Context = BindingContext ℕ ℕ

abbrev same_context : Context → Context → Bool
same_context a b =
    a.scope == b.scope
    && a.key == b.key
    && a.binding_revision == b.binding_revision
    && a.accepted_revision == b.accepted_revision
    && a.active_generation == b.active_generation
    && a.runtime_incarnation == b.runtime_incarnation
    && a.source_generation == b.source_generation
    && a.entry == b.entry
    && a.property == b.property

same_context_iff : (a b : Context) → (same_context a b ≡ true) ↔ (a ≡ b)
same_context_iff a b = (
  (λ h. ground (arith, eq_iff a.scope b.scope, eq_iff a.key b.key)),
  (λ h. ground (arith, h, eq_iff a.scope b.scope, eq_iff a.key b.key)),
)

instance abbrev context_partial_eq : PartialEq Context
context_partial_eq = record { eq = same_context; iff = same_context_iff }

abbrev site : String
site = "site-a"

abbrev device : String
device = "device-1"

abbrev point : String
point = "point-1"

abbrev boot : String
boot = "boot-1"

abbrev review : Review
review scope = ok tt

abbrev context : Context
context = record {
  scope = site;
  key = point;
  binding_revision = 1;
  accepted_revision = 1;
  active_generation = 1;
  runtime_incarnation = 1;
  source_generation = 1;
  entry = 0;
  property = 85;
}

abbrev evidence : TimeEvidence
evidence = record {
  times = source_absent (pos 8_000) (pos 8_000);
  receipt_origin = bacnet_client_return;
  receipt_mark = record { boot = boot; nanos_since_boot = 1_000_000_000 };
  ingestion = record {
    wall = pos 8_000_000_000;
    monotonic = record { boot = boot; nanos_since_boot = 1_000_000_000 };
    continuity = confirmed;
  };
}

abbrev pending : PendingObservation ℕ ℕ ℕ
pending = record {
  raw = record {
    work = record { incarnation = 1; sequence = 1 };
    scope = site;
    accepted_revision = 1;
    active_generation = 1;
    runtime_incarnation = 1;
    source_generation = 1;
    binding_key = point;
    source = device;
    endpoint = device;
    property = point;
    source_time = none;
    receipt_time = pos 8_000_000_000;
    receipt_origin = bacnet_client_return;
    outcome = 0;
  };
  binding = context;
  decoded = record {
    value = integer (pos 21);
    unit = known site;
    unit_provenance = absent;
    codec = scalar;
    transport = value_returned;
    quality = valid;
    suitability = synthetic_value_only;
  };
  time = evidence;
  freshness = fresh;
  policy = record { max_age = 5_000_000_000; max_wall_skew = 100_000_000 };
}

abbrev first_generation : String
first_generation = "site-a:1"

abbrev first_checkpoint : ProducerCheckpoint
first_checkpoint = record {
  scope = site;
  producer = device;
  generation = first_generation;
  next = 0;
}

abbrev first_producer : Producer
first_producer = record { checkpoint = first_checkpoint; incarnation = boot; lease = 1 }

abbrev events : List (Event ℕ ℕ ℕ)
events =
    starts review site device boot
    ∷ emits review first_producer pending
    ∷ selects review none context
    ∷ []

abbrev receiver : SyntheticReceiver ℕ ℕ ℕ
receiver = empty_receiver site 4

run-Pairwise_example : Pairwise ◌≢◌ (positions (run receiver events))
unfolding verdant.Observation.Receiver.new_receiver
run-Pairwise_example = run-Pairwise site 4 receiver events refl

run-IsWithin_example : IsWithin 4 (run receiver events)
unfolding verdant.Observation.Receiver.new_receiver
run-IsWithin_example = run-IsWithin site 4 receiver events refl

run-observations_example :
    (new : List (NormalizedObservation ℕ ℕ ℕ)) × (observations (run receiver events)
      ≡ observations receiver ++ new)
run-observations_example = run-observations receiver events

abbrev soon : ClockReading
soon = record {
  wall = pos 9_000_000_000;
  monotonic = record { boot = boot; nanos_since_boot = 2_000_000_000 };
  continuity = confirmed;
}

abbrev read_value : CurrentValue ℕ ℕ ℕ
read_value = record {
  observation = record {
    id = record {
      scope = site;
      producer = device;
      position = record { generation = first_generation; seq = 0 };
    };
    incarnation = boot;
    content = pending;
  };
  freshness = fresh;
  suitability = synthetic_value_only;
}

run-current_example :
    (any (λ b. b == read_value.observation.content.binding) (run receiver events).bindings ≡ true)
    × (read_value.observation.content.binding.scope ≡ site)
    × (read_value.observation.content.binding.key ≡ point)
unfolding verdant.Observation.Receiver.new_receiver current verdant.Observation.Index.current_found
    run verdant.Observation.Index.Histories.step verdant.Observation.Index.select_binding
    verdant.Observation.Index.is_expected emit verdant.Observation.Receiver.start
    verdant.Observation.Receiver.allocate verdant.Domain.Ids.parse verdant.Base.Decimal.decimal
    verdant.Domain.Ids.is_id_char verdant.Observation.Receiver.holds_lease
    verdant.Observation.Records.checkpoint_eq verdant.Observation.Records.next_id
    verdant.Observation.Records.identify verdant.Base.Int.◌-ℤ◌ verdant.Domain.Clock.elapsed_since
    verdant.Observation.Index.consider verdant.Observation.Index.consider_from
    verdant.Observation.Index.considered verdant.Observation.Index.current_at
    verdant.Observation.Index.current_suitability verdant.Observation.Index.is_binding
    verdant.Observation.Index.is_late verdant.Observation.Index.is_slot
    verdant.Observation.Index.place_binding verdant.Observation.Index.rebuild_current
    verdant.Observation.Index.refreshed verdant.Observation.Index.placed
    verdant.Observation.Receiver.is_intact verdant.Observation.Receiver.is_producer
    verdant.Observation.Receiver.resume verdant.Observation.Receiver.resumed_checkpoint
    verdant.Observation.Records.assess_observation verdant.Observation.Time.assess
    verdant.Observation.Time.millis verdant.Observation.Time.receipt verdant.Observation.Time.retain
    verdant.Observation.Time.source
run-current_example =
    run-current site 4 receiver events review site point soon read_value _ refl refl

-- The checkpoint is from before the emit: a restored counter, which begins a generation.
abbrev resumed : Producer
resumed = record {
  checkpoint = record { scope = site; producer = device; generation = "site-a:2"; next = 0 };
  incarnation = boot;
  lease = 2;
}

abbrev resumed_receiver : SyntheticReceiver ℕ ℕ ℕ
unfolding verdant.Observation.Receiver.new_receiver current verdant.Observation.Index.current_found
    run verdant.Observation.Index.Histories.step verdant.Observation.Index.select_binding
    verdant.Observation.Index.is_expected emit verdant.Observation.Receiver.start
    verdant.Observation.Receiver.allocate verdant.Domain.Ids.parse verdant.Base.Decimal.decimal
    verdant.Domain.Ids.is_id_char verdant.Observation.Receiver.holds_lease
    verdant.Observation.Records.checkpoint_eq verdant.Observation.Records.next_id
    verdant.Observation.Records.identify verdant.Base.Int.◌-ℤ◌ verdant.Domain.Clock.elapsed_since
    verdant.Observation.Index.consider verdant.Observation.Index.consider_from
    verdant.Observation.Index.considered verdant.Observation.Index.current_at
    verdant.Observation.Index.current_suitability verdant.Observation.Index.is_binding
    verdant.Observation.Index.is_late verdant.Observation.Index.is_slot
    verdant.Observation.Index.place_binding verdant.Observation.Index.rebuild_current
    verdant.Observation.Index.refreshed verdant.Observation.Index.placed
    verdant.Observation.Receiver.is_intact verdant.Observation.Receiver.is_producer
    verdant.Observation.Receiver.resume verdant.Observation.Receiver.resumed_checkpoint
    verdant.Observation.Records.assess_observation verdant.Observation.Time.assess
    verdant.Observation.Time.millis verdant.Observation.Time.receipt verdant.Observation.Time.retain
    verdant.Observation.Time.source
resumed_receiver = after_resume (resume review (run receiver events) first_checkpoint boot)
  where
    after_resume : Result Error (Producer × SyntheticReceiver ℕ ℕ ℕ) → SyntheticReceiver ℕ ℕ ℕ
    after_resume (ok (p, s)) = s
    after_resume (err e) = receiver

resume-fences_example : is_ok (emit review resumed_receiver first_producer pending) ≡ false
unfolding verdant.Observation.Receiver.new_receiver current verdant.Observation.Index.current_found
    run verdant.Observation.Index.Histories.step verdant.Observation.Index.select_binding
    verdant.Observation.Index.is_expected emit verdant.Observation.Receiver.start
    verdant.Observation.Receiver.allocate verdant.Domain.Ids.parse verdant.Base.Decimal.decimal
    verdant.Domain.Ids.is_id_char verdant.Observation.Receiver.holds_lease
    verdant.Observation.Records.checkpoint_eq verdant.Observation.Records.next_id
    verdant.Observation.Records.identify verdant.Base.Int.◌-ℤ◌ verdant.Domain.Clock.elapsed_since
    verdant.Observation.Index.consider verdant.Observation.Index.consider_from
    verdant.Observation.Index.considered verdant.Observation.Index.current_at
    verdant.Observation.Index.current_suitability verdant.Observation.Index.is_binding
    verdant.Observation.Index.is_late verdant.Observation.Index.is_slot
    verdant.Observation.Index.place_binding verdant.Observation.Index.rebuild_current
    verdant.Observation.Index.refreshed verdant.Observation.Index.placed
    verdant.Observation.Receiver.is_intact verdant.Observation.Receiver.is_producer
    verdant.Observation.Receiver.resume verdant.Observation.Receiver.resumed_checkpoint
    verdant.Observation.Records.assess_observation verdant.Observation.Time.assess
    verdant.Observation.Time.millis verdant.Observation.Time.receipt verdant.Observation.Time.retain
    verdant.Observation.Time.source resumed_receiver
resume-fences_example =
    resume-fences site 4 receiver events review review first_checkpoint boot resumed first_producer
      resumed_receiver pending refl refl refl refl (λ e. absurd (omega (arith, e)))
