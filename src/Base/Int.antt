-- ===== src/Base/Int.antt =====
-- Go's signed integers: ℤ over the native numbers, and the wrap-around of int64.
use Prim.Native.Nat.{ℕ, suc, ◌+◌, ◌-◌, ◌*◌, ◌%◌, ◌≤◌, ◌<◌}
use mathlib.Core.Path.{◌≡◌}
use mathlib.Core.Bool.{Bool}
use native.Mathlib.Omega.{arith}
use tamga_go.Base.Tests.{ltb, leb, if◌then◌else◌}

-- `negsuc n` is -(n + 1).
pub data ℤ : Type 0 where
  pos : ℕ → ℤ
  negsuc : ℕ → ℤ

abbrev pub pos_part : ℤ → ℕ
pos_part (pos n) = n
pos_part (negsuc n) = 0

abbrev pub neg_part : ℤ → ℕ
neg_part (pos n) = 0
neg_part (negsuc n) = suc n

-- a - b, as an integer.
abbrev pub sub_ℕ : ℕ → ℕ → ℤ
sub_ℕ a b = if leb b a then pos (a - b) else negsuc (b - a - 1)

infixl 65 ◌+ℤ◌ ◌-ℤ◌
infixl 70 ◌*ℤ◌
infix 50 ◌≤ℤ◌ ◌<ℤ◌
abbrev pub ◌+ℤ◌ : ℤ → ℤ → ℤ
a +ℤ b = sub_ℕ (pos_part a + pos_part b) (neg_part a + neg_part b)

abbrev pub ◌-ℤ◌ : ℤ → ℤ → ℤ
a -ℤ b = sub_ℕ (pos_part a + neg_part b) (neg_part a + pos_part b)

abbrev pub ◌*ℤ◌ : ℤ → ℤ → ℤ
a *ℤ b =
    sub_ℕ (pos_part a * pos_part b + neg_part a * neg_part b)
      (pos_part a * neg_part b + neg_part a * pos_part b)

abbrev pub ◌≤ℤ◌ : ℤ → ℤ → Type 0
a ≤ℤ b = pos_part a + neg_part b ≤ pos_part b + neg_part a

abbrev pub ◌<ℤ◌ : ℤ → ℤ → Type 0
a <ℤ b = pos_part a + neg_part b < pos_part b + neg_part a

abbrev pub ltb_ℤ : ℤ → ℤ → Bool
ltb_ℤ a b = ltb (pos_part a + neg_part b) (pos_part b + neg_part a)

abbrev pub leb_ℤ : ℤ → ℤ → Bool
leb_ℤ a b = leb (pos_part a + neg_part b) (pos_part b + neg_part a)

-- 2 ^ 63 and 2 ^ 64.
abbrev pub half_range : ℕ
half_range = 9223372036854775808

abbrev pub full_range : ℕ
full_range = 18446744073709551616

-- The bit pattern of an int64, and the int64 of a bit pattern.
abbrev bits64 : ℤ → ℕ
bits64 (pos n) = n % full_range
bits64 (negsuc n) = full_range - 1 - n % full_range

abbrev of_bits64 : ℕ → ℤ
of_bits64 n = if ltb n half_range then pos n else negsuc (full_range - 1 - n)

unfoldable pub wrap64 : ℤ → ℤ
wrap64 a = of_bits64 (bits64 a)

abbrev pub InInt64 : ℤ → Type 0
InInt64 a = (pos_part a < half_range) × (neg_part a ≤ half_range)

-- Within the range of int64 nothing wraps.
pub wrap64-InInt64 : (a : ℤ) → InInt64 a → wrap64 a ≡ a
unfolding wrap64
wrap64-InInt64 (pos n) h = ground arith
wrap64-InInt64 (negsuc n) h = ground arith
