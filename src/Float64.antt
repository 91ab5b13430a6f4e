-- ===== src/Float64.antt =====
-- Go's float64 by its 64-bit pattern (IEEE 754), with the comparison that the program makes.
use screenspace.Base.{
  ℕ, ◌*◌, ◌%◌, ◌^◌, ◌≡◌, refl, Bool, true, false, not, ◌&&◌, ◌||◌, ltb, leb, ◌==◌, if◌then◌else◌,
}

-- Exponent and fraction, without the sign.
abbrev magnitude : ℕ → ℕ
magnitude x = x % 2 ^ 63

abbrev is_negative : ℕ → Bool
is_negative x = leb (2 ^ 63) x

-- The exponent is all ones and the fraction is not zero.
abbrev pub is_nan : ℕ → Bool
is_nan x = ltb (0x7ff * 2 ^ 52) (magnitude x)

-- a > b: false where either is not a number; the two zeros are equal.
unfoldable pub float_gt : ℕ → ℕ → Bool
float_gt a b =
    if is_nan a || is_nan b
    then false
    else if is_negative a
    then is_negative b && ltb (magnitude a) (magnitude b)
    else if is_negative b
    then not (magnitude a == 0 && magnitude b == 0)
    else ltb (magnitude b) (magnitude a)

-- 60.0 and 61.5, and a value that is not a number.
abbrev pub sixty : ℕ
sixty = 0x404e000000000000

abbrev pub a_nan : ℕ
a_nan = 0x7ff8000000000001

float_gt_tests : (float_gt 0x404ec00000000000 sixty ≡ true) × (float_gt sixty sixty ≡ false)
unfolding float_gt
float_gt_tests = (refl, refl)

-- No comparison with a value that is not a number holds.
pub float_gt_nan : (a b : ℕ) → is_nan a ≡ true → float_gt a b ≡ false
unfolding float_gt
float_gt_nan a b h = rw h
