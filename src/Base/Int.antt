-- ===== src/Base/Int.antt =====
-- Signed machine integers over the native numbers, read through the two parts of an integer.
use Prim.Native.Nat.{ℕ, suc, ◌+◌, ◌-◌, ◌≤◌}
use mathlib.Core.Bool.{Bool, true, false}
use mathlib.Core.Option.{Option, none, some}
use verdant.Base.Tests.{ltb, leb, if◌then◌else◌}
use verdant.Base.Words.{i64_max}

-- `negsuc n` is -(n + 1).
pub data ℤ : Type 0 where
  pos : ℕ → ℤ
  negsuc : ℕ → ℤ

abbrev pub pos_part : ℤ → ℕ
pos_part (pos n) = n
pos_part (negsuc n) = 0

abbrev pub neg_part : ℤ → ℕ
neg_part (pos n) = 0
neg_part (negsuc n) = suc n

abbrev pub sub_ℕ : ℕ → ℕ → ℤ
sub_ℕ a b = if leb b a then pos (a - b) else negsuc (b - a - 1)

infixl 65 ◌+ℤ◌ ◌-ℤ◌
infix 50 ◌≤ℤ◌ ◌<ℤ◌
unfoldable pub ◌+ℤ◌ : ℤ → ℤ → ℤ
a +ℤ b = sub_ℕ (pos_part a + pos_part b) (neg_part a + neg_part b)

unfoldable pub ◌-ℤ◌ : ℤ → ℤ → ℤ
a -ℤ b = sub_ℕ (pos_part a + neg_part b) (neg_part a + pos_part b)

abbrev pub ◌≤ℤ◌ : ℤ → ℤ → Type 0
a ≤ℤ b = pos_part a + neg_part b ≤ pos_part b + neg_part a

abbrev pub ◌<ℤ◌ : ℤ → ℤ → Type 0
a <ℤ b = suc (pos_part a + neg_part b) ≤ pos_part b + neg_part a

abbrev pub ltb_ℤ : ℤ → ℤ → Bool
ltb_ℤ a b = ltb (pos_part a + neg_part b) (pos_part b + neg_part a)

-- The range of `i64`: negsuc n is -(n + 1), so both sides have the bound 2^63 - 1.
abbrev pub in_i64 : ℤ → Bool
in_i64 (pos n) = leb n i64_max
in_i64 (negsuc n) = leb n i64_max

-- `i64::checked_sub`.
abbrev pub checked_sub_i64 : ℤ → ℤ → Option ℤ
checked_sub_i64 a b = if in_i64 (a -ℤ b) then some (a -ℤ b) else none

-- `u64::try_from` of an `i64`.
abbrev pub u64_of_i64 : ℤ → Option ℕ
u64_of_i64 (pos n) = some n
u64_of_i64 (negsuc n) = none

-- `i64::try_from` of a `u64`.
abbrev pub i64_of_u64 : ℕ → Option ℤ
i64_of_u64 n = if leb n i64_max then some (pos n) else none

abbrev pub is_negative : ℤ → Bool
is_negative (pos n) = false
is_negative (negsuc n) = true
