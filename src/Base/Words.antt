-- ===== src/Base/Words.antt =====
-- Machine integers as native numbers with their bounds: checked and saturating operations.
use Prim.Native.Nat.{ℕ, ◌+◌, ◌-◌}
use mathlib.Core.Option.{Option, none, some}
use verdant.Base.Tests.{leb, if◌then◌else◌}

abbrev pub u32_max : ℕ
u32_max = 0xffff_ffff

abbrev pub u64_max : ℕ
u64_max = 0xffff_ffff_ffff_ffff

-- `i64::MAX` as a number.
abbrev pub i64_max : ℕ
i64_max = 0x7fff_ffff_ffff_ffff

-- `checked_add` at the width whose largest value is `most`.
abbrev pub checked_add : ℕ → ℕ → ℕ → Option ℕ
checked_add most a b = if leb (a + b) most then some (a + b) else none

-- `checked_sub` of an unsigned type.
abbrev pub checked_sub : ℕ → ℕ → Option ℕ
checked_sub a b = if leb b a then some (a - b) else none

abbrev pub saturating_add : ℕ → ℕ → ℕ → ℕ
saturating_add most a b = if leb (a + b) most then a + b else most

abbrev pub abs_diff : ℕ → ℕ → ℕ
abs_diff a b = if leb b a then a - b else b - a
