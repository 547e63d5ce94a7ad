-- ===== src/Tests/Clocks.antt =====
-- Runs of identities, clocks and freshness.
use verdant.Base.{Option, ℕ, refl, String}
use verdant.Base.Int.{ℤ, pos, ◌-ℤ◌}
use verdant.Domain.Clock.{MonotonicMark, elapsed_since}
use verdant.Observation.Time.{
  source_absent, bacnet_client_return, ClockReading, confirmed, Freshness, fresh, stale,
  FreshnessPolicy, TimeEvidence, assess, millis, nanos_per_milli,
}
use verdant.Observation.Time.Assess.{FreshAt, assess-FreshAt}

abbrev mark : ℕ → MonotonicMark
mark n = record { boot = "boot-1"; nanos_since_boot = n }

abbrev site : String
site = "site-a"

abbrev policy : FreshnessPolicy
policy = record { max_age = 5_000_000_000; max_wall_skew = 100_000_000 }

abbrev evidence : TimeEvidence
evidence = record {
  times = source_absent (pos 8_000) (pos 8_000);
  receipt_origin = bacnet_client_return;
  receipt_mark = mark 1_000_000_000;
  ingestion = record {
    wall = pos 8_000_000_000;
    monotonic = mark 1_000_000_000;
    continuity = confirmed;
  };
}

abbrev soon : ClockReading
soon = record { wall = pos 9_000_000_000; monotonic = mark 2_000_000_000; continuity = confirmed }

assess-FreshAt_example :
    (elapsed : ℕ) × (wall : ℤ) × (received : ℤ) × (claimed : Option ℤ) × (age : ℕ) × FreshAt policy
      evidence soon elapsed wall received claimed age
unfolding assess millis elapsed_since ◌-ℤ◌ verdant.Observation.Time.receipt
    verdant.Observation.Time.source
assess-FreshAt_example = assess-FreshAt policy evidence soon refl
