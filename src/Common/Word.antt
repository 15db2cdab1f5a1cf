-- ===== src/Common/Word.antt =====
-- Go's fixed-width signed integers. A value is an integer in range; an addition wraps around.
use shop_catalog_service.Common.{ℕ, ◌+◌, ◌-◌, ◌%◌, ◌^◌, ◌<◌, ◌≡◌, arith, ltb, if◌then◌else◌}
use shop_catalog_service.Common.Int.{ℤ, pos, negsuc, ◌+ℤ◌, ◌≤ℤ◌, ◌<ℤ◌}

-- The bit pattern of an integer in 32 bits, and the int32 that a pattern stands for.
abbrev bits32 : ℤ → ℕ
bits32 (pos n) = n % 2 ^ 32
bits32 (negsuc n) = 2 ^ 32 - 1 - n % 2 ^ 32

abbrev of_bits32 : ℕ → ℤ
of_bits32 b = if ltb b (2 ^ 31) then pos b else negsuc (2 ^ 32 - 1 - b)

pub wrap32 : ℤ → ℤ
wrap32 a = of_bits32 (bits32 a)

-- `a + b` on int32.
unfoldable pub add32 : ℤ → ℤ → ℤ
unfolding wrap32
add32 a b = wrap32 (a +ℤ b)

pub record IsInt32 (a : ℤ) : Type 0 where
  pub low : negsuc (2 ^ 31 - 1) ≤ℤ a
  pub high : a ≤ℤ pos (2 ^ 31 - 1)

pub wrap32-IsInt32 : (a : ℤ) → IsInt32 (wrap32 a)
unfolding wrap32
wrap32-IsInt32 a = ground arith

pub wrap32_exact : (a : ℤ) → IsInt32 a → wrap32 a ≡ a
unfolding wrap32
wrap32_exact a h = ground arith

-- Past the largest int32 the sum is 2^32 too small, so negative.
pub wrap32_above : (a : ℤ) → pos (2 ^ 31) ≤ℤ a → a <ℤ pos (2 ^ 32) → wrap32 a <ℤ pos 0
unfolding wrap32
wrap32_above a h k = ground arith

-- Go's `int` on a 64-bit platform.
wrap64 : ℤ → ℤ
wrap64 (pos n) = let b = n % 2 ^ 64 in if ltb b (2 ^ 63) then pos b else negsuc (2 ^ 64 - 1 - b)
wrap64 (negsuc n) =
    let b = 2 ^ 64 - 1 - n % 2 ^ 64 in if ltb b (2 ^ 63) then pos b else negsuc (2 ^ 64 - 1 - b)

-- `a + b` on int.
pub add64 : ℤ → ℤ → ℤ
unfolding wrap64
add64 a b = wrap64 (a +ℤ b)

-- Below the largest int, sums of numbers that are not negative are exact.
pub add64_exact : (m n : ℕ) → m + n < 2 ^ 63 → add64 (pos m) (pos n) ≡ pos (m + n)
unfolding add64 ◌+ℤ◌
add64_exact m n h = ground arith
