-- ===== src/Observation/Time/Assess.antt =====
-- What the verdicts of the freshness policy of src/observation/time.rs rest on.
use verdant.Base.{
  Option, none, ℕ, ◌+◌, ◌*◌, ◌≤◌, ◌<◌, ◌≡◌, ◌≢◌, refl, true, is_ok, false, some, List, [], ◌∷◌, ok,
  arith, Result-cases, Option-cases, inl, inr, eq_iff, subst, Bool-cases, nat_eq, ◌/◌, ◌%◌,
}
use verdant.Base.Int.{ℤ, pos_part, neg_part, u64_of_i64, ◌-ℤ◌, pos, negsuc, sub_ℕ}
use verdant.Domain.Clock.{MonotonicMark, elapsed_since, elapsed_since_iff}
use verdant.Observation.Time.{
  Freshness, fresh, stale, unknown, retain, confirmed, ClockReading, TimeEvidence, FreshnessPolicy,
  assess, millis, receipt, is_wall_ambiguous, nanos_per_milli, millis_value, source, source_age,
  ObservationTimes, source_present, source_absent, wall_ambiguous,
}

-- `ms` milliseconds are `time` nanoseconds, rounded down.
abbrev pub IsFloor : ℤ → ℤ → Type 0
IsFloor time ms =
    (pos_part ms * 1_000_000 + neg_part time ≤ pos_part time + neg_part ms * 1_000_000)
    × (pos_part time + neg_part ms * 1_000_000
        < pos_part ms * 1_000_000 + neg_part time + 1_000_000)

minus_parts : (k : ℕ) → (pos_part (sub_ℕ 0 k) ≡ 0) × (neg_part (sub_ℕ 0 k) ≡ k)
minus_parts k = (ground arith, ground arith)

millis_value-IsFloor : (time : ℤ) → IsFloor time (millis_value time)
millis_value-IsFloor (pos d) = (omega arith, omega arith)
millis_value-IsFloor (negsuc d) = elim (Bool-cases (nat_eq ((d + 1) % nanos_per_milli) 0)) [
  | inl whole ↦ ground (arith, whole, minus_parts ((d + 1) / nanos_per_milli))
  | inr part ↦ ground (arith, part, minus_parts ((d + 1) / nanos_per_milli + 1))
]

millis-IsFloor : (time ms : ℤ) → millis time ≡ ok ms → IsFloor time ms
unfolding millis
millis-IsFloor time ms h =
    let same : millis_value time ≡ ms = ground (arith, h) in
    subst (IsFloor time) same (millis_value-IsFloor time)

-- The receipt and the source time, where there is one, of times that are not tagged as ambiguous.
abbrev pub TimesAt : ObservationTimes → ℤ → Option ℤ → Type 0
TimesAt (source_present triple) received claimed =
    (received ≡ triple.receipt) × (claimed ≡ some triple.source)
TimesAt (source_absent r i) received claimed = (received ≡ r) × (claimed ≡ none)
TimesAt (wall_ambiguous s r i) received claimed = ⊥

-- The source time is less than `limit` nanoseconds before the wall reading, in milliseconds.
abbrev pub YoungSince : Option ℤ → ℤ → ℕ → Type 0
YoungSince none wall limit = Unit {0}
YoungSince (some s) wall limit =
    (n : ℕ) × (pos_part wall + neg_part s ≡ neg_part wall + pos_part s + n)
    × (n * 1_000_000 < limit)

times_at :
    (times : ObservationTimes)
    → is_wall_ambiguous times ≡ false
    → TimesAt times (receipt times) (source times)
unfolding receipt source
times_at (source_present triple) h = (refl, refl)
times_at (source_absent r i) h = (refl, refl)
times_at (wall_ambiguous s r i) h = absurd (cc)

age_parts :
    (a b : ℤ) (n : ℕ)
    → u64_of_i64 (a -ℤ b) ≡ some n
    → pos_part a + neg_part b ≡ neg_part a + pos_part b + n
unfolding ◌-ℤ◌
age_parts a b n h = ground arith

young_since :
    (s : Option ℤ) (wall : ℤ) (age limit : ℕ)
    → source_age s wall ≡ some age
    → age < limit
    → YoungSince s wall limit
young_since none wall age limit h k = tt
young_since (some s) wall age limit h k = elim (Option-cases (u64_of_i64 (wall -ℤ s))) [
  | inl c ↦ absurd (ground (arith, c, h))
  | inr (n, c) ↦ (n, age_parts wall s n c, ground (arith, c, h, k))
]

-- A fresh verdict with the elapsed time, the wall reading and the wall age that it rests on.
pub record FreshAt (p : FreshnessPolicy) (e : TimeEvidence) (now : ClockReading) (elapsed : ℕ)
    (wall received : ℤ) (claimed : Option ℤ) (age : ℕ) : Type 0 where
  pub steady : now.continuity ≡ confirmed
  pub steady_ingestion : e.ingestion.continuity ≡ confirmed
  pub times : TimesAt e.times received claimed
  pub receipt_boot : now.monotonic.boot ≡ e.receipt_mark.boot
  pub since_receipt : e.receipt_mark.nanos_since_boot + elapsed ≡ now.monotonic.nanos_since_boot
  pub boot : now.monotonic.boot ≡ e.ingestion.monotonic.boot
  pub not_before : e.ingestion.monotonic.nanos_since_boot ≤ now.monotonic.nanos_since_boot
  pub reading : IsFloor now.wall wall
  pub aged : pos_part wall + neg_part received ≡ neg_part wall + pos_part received + age
  pub young_source : YoungSince claimed wall p.max_age
  pub young : elapsed < p.max_age
  pub young_wall : age * 1_000_000 < p.max_age
  pub fast : age * 1_000_000 ≤ elapsed + p.max_wall_skew
  pub slow : elapsed ≤ age * 1_000_000 + p.max_wall_skew

-- The verdicts of successive reads, each retained over the ones before.
pub retain_all : Freshness → List Freshness → Freshness
retain_all f [] = f
retain_all f (assessed ∷ rest) = retain_all (retain f assessed) rest

marks_ordered :
    (a b : MonotonicMark)
    → is_ok (elapsed_since a b) ≡ true
    → (a.boot ≡ b.boot) × (b.nanos_since_boot ≤ a.nanos_since_boot)
unfolding elapsed_since
marks_ordered a b h = ground (arith, eq_iff a.boot b.boot)

after_ingestion :
    (p : FreshnessPolicy) (e : TimeEvidence) (now : ClockReading)
    → assess p e now ≡ fresh
    → (now.monotonic.boot ≡ e.ingestion.monotonic.boot)
      × (e.ingestion.monotonic.nanos_since_boot ≤ now.monotonic.nanos_since_boot)
unfolding assess
after_ingestion p e now h = marks_ordered now.monotonic e.ingestion.monotonic (ground arith)

-- A verdict is fresh only on confirmed clocks, with the receipt's mark and the ingestion's of the reading's
-- boot and not after it, and times that are not tagged as ambiguous; the elapsed time is the distance
-- from the receipt's mark, the wall age that of the wall clock, in milliseconds rounded down, from the
-- receipt; both are under the horizon, and so is the age of the source time, where there is one; and
-- the elapsed time and the wall age are within the skew of one another.
pub assess-FreshAt :
    (p : FreshnessPolicy) (e : TimeEvidence) (now : ClockReading)
    → assess p e now ≡ fresh
    → (elapsed : ℕ) × (wall : ℤ) × (received : ℤ) × (claimed : Option ℤ) × (age : ℕ) × FreshAt p e
        now elapsed wall received claimed age
unfolding assess
assess-FreshAt p e now h = elim (Result-cases (elapsed_since now.monotonic e.receipt_mark)) [
  | inr (x, a) ↦ absurd (ground arith)
  | inl (elapsed, a) ↦
      let from_receipt = (elapsed_since_iff now.monotonic e.receipt_mark elapsed).0 a in
      elim (Result-cases (millis now.wall)) [
        | inr (x, b) ↦ absurd (ground arith)
        | inl (wall, b) ↦ elim (Option-cases (u64_of_i64 (wall -ℤ receipt e.times))) [
          | inl c ↦ absurd (ground arith)
          | inr (age, c) ↦ elim (Option-cases (source_age (source e.times) wall)) [
            | inl d ↦ absurd (ground arith)
            | inr (old, d) ↦ (
              elapsed,
              wall,
              receipt e.times,
              source e.times,
              age,
              record {
                steady = ground arith;
                steady_ingestion = ground arith;
                times = times_at e.times (ground arith);
                receipt_boot = from_receipt.0;
                since_receipt = from_receipt.1;
                boot = (after_ingestion p e now h).0;
                not_before = (after_ingestion p e now h).1;
                reading = millis-IsFloor now.wall wall b;
                aged = age_parts wall (receipt e.times) age c;
                young_source = young_since (source e.times) wall old p.max_age d (ground arith);
                young = ground arith;
                young_wall = ground arith;
                fast = ground arith;
                slow = ground arith;
              },
            )
          ]
        ]
      ]
]

-- Once a record has been seen stale or unknown, no later assessment makes it fresh again.
pub retain_sticky :
    (f : Freshness) (assessed : List Freshness) → f ≢ fresh → retain_all f assessed ≡ f
unfolding retain_all retain
retain_sticky f [] h = refl
retain_sticky fresh (a ∷ as') h = absurd (h refl)
retain_sticky stale (a ∷ as') h = retain_sticky stale as' h
retain_sticky unknown (a ∷ as') h = retain_sticky unknown as' h
