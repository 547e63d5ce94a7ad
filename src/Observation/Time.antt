-- ===== src/Observation/Time.antt =====
-- src/observation/time.rs: clock evidence of an observation and the freshness policy. A
-- `SystemTime` is its nanoseconds from the Unix epoch, a `Duration` its nanoseconds.
pub mod Floor
pub mod Assess
use verdant.Base.{
  ℕ, ◌+◌, ◌-◌, ◌*◌, ◌/◌, ◌%◌, Bool, true, false, not, ◌||◌, Option, none, some, String, ltb, leb,
  nat_eq, if◌then◌else◌, abs_diff, Result, ok, err, ◌>>=◌, ◌>>◌, refuse_if, ok_or, map_err,
}
use verdant.Base.Int.{ℤ, pos, negsuc, ◌-ℤ◌, sub_ℕ, ltb_ℤ, in_i64, checked_sub_i64, u64_of_i64}
use verdant.Domain.Errors
use verdant.Domain.Clock.{MonotonicMark, elapsed_since, TimeTriple, time_triple}

-- src/observation/mod.rs `Error`; refusals of the access owner carry its code.
pub data Error : Type 0 where
  invalid conflict : String → Error
  domain : Errors.Error → Error
  access : String → Error

pub data ObservationTimes : Type 0 where
  source_present : TimeTriple → ObservationTimes
  source_absent : ℤ → ℤ → ObservationTimes
  wall_ambiguous : Option ℤ → ℤ → ℤ → ObservationTimes

unfoldable pub source : ObservationTimes → Option ℤ
source (source_present triple) = some triple.source
source (source_absent receipt ingestion) = none
source (wall_ambiguous s receipt ingestion) = s

unfoldable pub receipt : ObservationTimes → ℤ
receipt (source_present triple) = triple.receipt
receipt (source_absent r ingestion) = r
receipt (wall_ambiguous s r ingestion) = r

abbrev pub is_wall_ambiguous : ObservationTimes → Bool
is_wall_ambiguous (wall_ambiguous s r i) = true
is_wall_ambiguous _ = false

pub data Continuity : Type 0 where
  confirmed wall_or_suspend_ambiguous : Continuity

abbrev pub is_confirmed : Continuity → Bool
is_confirmed confirmed = true
is_confirmed wall_or_suspend_ambiguous = false

pub data Freshness : Type 0 where
  fresh stale unknown : Freshness

-- Uncertainty or staleness is sticky for an existing record.
unfoldable pub retain : Freshness → Freshness → Freshness
retain stale assessed = stale
retain unknown assessed = unknown
retain fresh assessed = assessed

pub record ClockReading : Type 0 where
  pub wall : ℤ
  pub monotonic : MonotonicMark
  pub continuity : Continuity

-- src/runtime/inert.rs `ReceiptOrigin`.
pub data ReceiptOrigin : Type 0 where
  inert_adapter_return bacnet_client_return : ReceiptOrigin

pub record TimeEvidence : Type 0 where
  pub times : ObservationTimes
  pub receipt_origin : ReceiptOrigin
  pub receipt_mark : MonotonicMark
  pub ingestion : ClockReading

pub record FreshnessPolicy : Type 0 where
  pub max_age : ℕ
  pub max_wall_skew : ℕ

unfoldable pub freshness_policy : ℕ → ℕ → Result Error FreshnessPolicy
freshness_policy max_age max_wall_skew = do
  refuse_if (nat_eq max_age 0) (invalid "zero freshness horizon")
  ok (record { max_age = max_age; max_wall_skew = max_wall_skew })

abbrev pub nanos_per_milli : ℕ
nanos_per_milli = 1_000_000

-- `UNIX_EPOCH.duration_since` has a positive and a negative side; the negative one rounds down.
abbrev pub millis_value : ℤ → ℤ
millis_value (pos d) = pos (d / nanos_per_milli)
millis_value (negsuc d) =
    sub_ℕ 0 ((d + 1) / nanos_per_milli + (if nat_eq ((d + 1) % nanos_per_milli) 0 then 0 else 1))

unfoldable pub millis : ℤ → Result Error ℤ
millis time =
    let value = millis_value time in
    if in_i64 value then ok value else err (invalid "wall time range")

-- The `Freshness` that an early `return` hands back is the error side of a result.
abbrev pub or_returned : Result Freshness Freshness → Freshness
or_returned (ok f) = f
or_returned (err f) = f

-- The age of the source time, zero where there is none.
abbrev pub source_age : Option ℤ → ℤ → Option ℕ
source_age none wall = some 0
source_age (some s) wall = elim (checked_sub_i64 wall s) [
  | none ↦ none
  | some age ↦ elim (u64_of_i64 age) [ none ↦ none | some n ↦ some (n * nanos_per_milli) ]
]

unfoldable pub assess : FreshnessPolicy → TimeEvidence → ClockReading → Freshness
assess p evidence now = or_returned (do
  refuse_if
      (not (is_confirmed evidence.ingestion.continuity)
        || not (is_confirmed now.continuity)
        || is_wall_ambiguous evidence.times)
      unknown
  elapsed ← map_err (λ _. unknown) (elapsed_since now.monotonic evidence.receipt_mark)
  _ ← map_err (λ _. unknown) (elapsed_since now.monotonic evidence.ingestion.monotonic)
  wall ← map_err (λ _. unknown) (millis now.wall)
  wall_delta ← ok_or (checked_sub_i64 wall (receipt evidence.times)) unknown
  wall_millis ← ok_or (u64_of_i64 wall_delta) unknown
  let wall_age = wall_millis * nanos_per_milli
  refuse_if (ltb p.max_wall_skew (abs_diff elapsed wall_age)) unknown
  age ← ok_or (source_age (source evidence.times) wall) unknown
  ok (
      if leb p.max_age elapsed || leb p.max_age wall_age || leb p.max_age age
      then stale
      else fresh))

abbrev later_than : Option ℤ → ℤ → Bool
later_than none r = false
later_than (some s) r = ltb_ℤ r s

abbrev transpose_millis : Option ℤ → Result Error (Option ℤ)
transpose_millis none = ok none
transpose_millis (some t) = elim (millis t) [ ok m ↦ ok (some m) | err e ↦ err e ]

abbrev ordered_times : Option ℤ → ℤ → ℤ → Result Error ObservationTimes
ordered_times none r i = ok (source_absent r i)
ordered_times (some s) r i = elim (time_triple s r i) [
  | ok t ↦ ok (source_present t)
  | err e ↦ err (domain e)
]

unfoldable pub time_evidence :
    Option ℤ → ℤ → ReceiptOrigin → MonotonicMark → ClockReading → Result Error TimeEvidence
time_evidence source_wall receipt_wall origin mark ingestion = do
  s ← transpose_millis source_wall
  r ← millis receipt_wall
  ingested ← millis ingestion.wall
  times ←
      if later_than s r || ltb_ℤ ingested r
      then ok (wall_ambiguous s r ingested)
      else ordered_times s r ingested
  ok (record { times = times; receipt_origin = origin; receipt_mark = mark; ingestion = ingestion })
