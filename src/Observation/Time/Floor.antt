-- ===== src/Observation/Time/Floor.antt =====
-- The rounding of wall times to milliseconds (src/observation/time.rs).
use verdant.Base.{◌+◌, ◌*◌, ◌≤◌, ◌<◌, ◌≡◌, ok, arith}
use verdant.Base.Int.{ℤ, pos, negsuc, pos_part, neg_part}
use verdant.Observation.Time.{millis, nanos_per_milli}

-- `millis` returns the last whole millisecond at or before the time, also before the epoch.
pub millis_floor :
    (time ms : ℤ)
    → millis time ≡ ok ms
    → (nanos_per_milli * pos_part ms + neg_part time
        ≤ pos_part time + nanos_per_milli * neg_part ms)
      × (pos_part time + nanos_per_milli * neg_part ms
          < nanos_per_milli * pos_part ms + neg_part time + nanos_per_milli)
unfolding millis
millis_floor (pos d) ms h = ground arith
millis_floor (negsuc d) ms h = ground arith
