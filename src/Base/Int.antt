-- ===== src/Base/Int.antt =====
-- Go's signed integers: the integer over the native numbers, and the conversion to 32 bits.
use Prim.Native.Nat.{ℕ, zero, suc, ◌/◌, ◌+◌, ◌-◌, ◌%◌, ◌^◌, ◌≤◌, ◌<◌}
use mathlib.Core.Path.{◌≡◌}
use mathlib.Core.Bool.{Bool}
use native.Mathlib.Omega.{arith}
use screenspace.Base.Tests.{ltb, leb, if◌then◌else◌}

-- `negsuc n` is -(n + 1).
pub data ℤ : Type 0 where
  pos : ℕ → ℤ
  negsuc : ℕ → ℤ

abbrev pub pos_part : ℤ → ℕ
pos_part (pos n) = n
pos_part (negsuc n) = 0

abbrev pub neg_part : ℤ → ℕ
neg_part (pos n) = 0
neg_part (negsuc n) = suc n

infix 50 ◌≤ℤ◌
abbrev pub ◌≤ℤ◌ : ℤ → ℤ → Type 0
a ≤ℤ b = pos_part a + neg_part b ≤ pos_part b + neg_part a

-- a < b
abbrev pub ltb_ℤ : ℤ → ℤ → Bool
ltb_ℤ a b = ltb (pos_part a + neg_part b) (pos_part b + neg_part a)

-- -n
abbrev pub of_neg : ℕ → ℤ
of_neg zero = pos 0
of_neg (suc n) = negsuc n

-- a + b, within the range of the type.
abbrev pub sub_ℕ : ℕ → ℕ → ℤ
sub_ℕ a b = if leb b a then pos (a - b) else negsuc (b - a - 1)

abbrev pub add_ℤ : ℤ → ℤ → ℤ
add_ℤ a b = sub_ℕ (pos_part a + pos_part b) (neg_part a + neg_part b)

-- a / k for a number k above 0: Go's division goes towards zero.
abbrev pub div_ℤ : ℤ → ℕ → ℤ
div_ℤ (pos n) k = pos (n / k)
div_ℤ (negsuc n) k = of_neg (suc n / k)

-- a + 1 in 64 bits.
abbrev pub suc_int64 : ℤ → ℤ
suc_int64 (pos n) = if ltb n (2 ^ 63 - 1) then pos (n + 1) else negsuc (2 ^ 63 - 1)
suc_int64 (negsuc zero) = pos 0
suc_int64 (negsuc (suc n)) = negsuc n

-- The 32-bit pattern as a signed number.
abbrev pub of_word32 : ℕ → ℤ
of_word32 n = if ltb n (2 ^ 31) then pos n else negsuc (2 ^ 32 - 1 - n)

-- `int32(a)`: the low 32 bits of the two's complement form.
unfoldable pub int32 : ℤ → ℤ
int32 (pos n) = of_word32 (n % 2 ^ 32)
int32 (negsuc n) = of_word32 (2 ^ 32 - 1 - n % 2 ^ 32)

-- Within 32 bits the conversion changes nothing.
pub int32_small : (n : ℕ) → n < 2 ^ 31 → int32 (pos n) ≡ pos n
unfolding int32
int32_small n h = ground arith
