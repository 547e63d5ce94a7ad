-- ===== src/Domain/Clock.antt =====
-- src/domain/clock.rs: monotonic marks of an identified boot, and the ordered time triple.
-- A `Duration` is its nanoseconds, an `i64` an integer.
use verdant.Base.{
  ℕ, ◌+◌, ◌≡◌, ◌↔◌, String, arith, ◌==◌, string_partial_eq, eq_iff, checked_sub, Result, ok, ◌>>◌,
  ensure, refuse_if, ok_or,
}
use verdant.Base.Int.{ℤ, ◌≤ℤ◌, ltb_ℤ}
use verdant.Domain.Errors.{Error, boot_mismatch, impossible_elapsed, impossible_order}

-- Portable monotonic mark: identified boot plus nanoseconds since that boot.
pub record MonotonicMark : Type 0 where
  pub boot : String
  pub nanos_since_boot : ℕ

unfoldable pub elapsed_since : MonotonicMark → MonotonicMark → Result Error ℕ
elapsed_since self earlier = do
  ensure (self.boot == earlier.boot) (boot_mismatch earlier.boot self.boot)
  ok_or (checked_sub self.nanos_since_boot earlier.nanos_since_boot) impossible_elapsed

pub record TimeTriple : Type 0 where
  pub source : ℤ
  pub receipt : ℤ
  pub ingestion : ℤ

unfoldable pub time_triple : ℤ → ℤ → ℤ → Result Error TimeTriple
time_triple source receipt ingestion = do
  refuse_if (ltb_ℤ receipt source) impossible_order
  refuse_if (ltb_ℤ ingestion receipt) impossible_order
  ok (record { source = source; receipt = receipt; ingestion = ingestion })

-- An elapsed time is given exactly for two marks of one boot in order, and it is their distance.
pub elapsed_since_iff :
    (self earlier : MonotonicMark) (d : ℕ)
    → (elapsed_since self earlier ≡ ok d)
      ↔ ((self.boot ≡ earlier.boot) × (earlier.nanos_since_boot + d ≡ self.nanos_since_boot))
unfolding elapsed_since
elapsed_since_iff self earlier d = (
  λ h. (
    ground (arith, eq_iff self.boot earlier.boot),
    ground (arith, eq_iff self.boot earlier.boot),
  ),
  λ h. ground (arith, h.0, h.1, eq_iff self.boot earlier.boot),
)

-- Elapsed times over three marks in a row add up.
pub elapsed_since_add :
    (a b c : MonotonicMark) (d e : ℕ)
    → elapsed_since b a ≡ ok d
    → elapsed_since c b ≡ ok e
    → elapsed_since c a ≡ ok (d + e)
elapsed_since_add a b c d e h k =
    let (p, q) = (elapsed_since_iff b a d).0 h in
    let (r, s) = (elapsed_since_iff c b e).0 k in
    (elapsed_since_iff c a (d + e)).1 (ground arith, omega arith)

-- A triple exists exactly for source ≤ receipt ≤ ingestion, and keeps the three times.
pub time_triple_iff :
    (s r i : ℤ) (t : TimeTriple)
    → (time_triple s r i ≡ ok t)
      ↔ ((s ≤ℤ r) × (r ≤ℤ i) × (t.source ≡ s) × (t.receipt ≡ r) × (t.ingestion ≡ i))
unfolding time_triple
time_triple_iff s r i t = (
  λ h. (ground arith, ground arith, ground arith, ground arith, ground arith),
  λ h. ground (arith, h),
)
