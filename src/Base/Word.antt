-- ===== src/Base/Word.antt =====
-- Machine integers: `i64` arithmetic with its wrap-around, the casts `as u32` and `as i8`, and
-- division with a remainder that is not negative.
use convobs_rs.Base.{ℕ, ◌+◌, ◌-◌, ◌*◌, ◌/◌, ◌%◌, ◌≤◌, ◌<◌, ◌≡◌, arith, ltb, if◌then◌else◌}
use convobs_rs.Base.Int.{ℤ, pos, negsuc, pos_part, neg_part, ◌+ℤ◌, ◌-ℤ◌, ◌*ℤ◌}

-- The quotient rounded down, and the remainder from 0 up to the divisor (`rem_euclid`).
unfoldable pub ediv : ℤ → ℕ → ℤ
ediv (pos n) d = pos (n / d)
ediv (negsuc n) d = negsuc (n / d)

unfoldable pub emod : ℤ → ℕ → ℕ
emod (pos n) d = n % d
emod (negsuc n) d = d - 1 - n % d

-- The signed reading of a bit pattern below `2 * half`.
unfoldable pub signed : ℕ → ℕ → ℤ
signed half u = if ltb u half then pos u else negsuc (2 * half - 1 - u)

abbrev pub i64_half : ℕ
i64_half = 0x8000000000000000

unfoldable pub wrap_i64 : ℤ → ℤ
unfolding signed emod
wrap_i64 z = signed i64_half (emod z (2 * i64_half))

unfoldable pub add_i64 : ℤ → ℤ → ℤ
add_i64 a b = wrap_i64 (a +ℤ b)

unfoldable pub sub_i64 : ℤ → ℤ → ℤ
sub_i64 a b = wrap_i64 (a -ℤ b)

unfoldable pub mul_i64 : ℤ → ℕ → ℤ
mul_i64 a k = wrap_i64 (a *ℤ k)

abbrev pub Is64 : ℤ → Type 0
Is64 z = (pos_part z < i64_half) × (neg_part z ≤ i64_half)

-- `as u32`, and `as i8` of a wider integer.
unfoldable pub as_u32 : ℤ → ℕ
unfolding emod
as_u32 z = emod z 0x100000000

unfoldable pub as_i8 : ℤ → ℤ
unfolding signed emod
as_i8 z = signed 128 (emod z 256)

-- A value that fits is not changed by the wrap-around.
pub wrap_i64_fits : (z : ℤ) → Is64 z → wrap_i64 z ≡ z
unfolding wrap_i64
wrap_i64_fits (pos n) h = ground arith
wrap_i64_fits (negsuc n) h = ground arith

pub wrap_i64-Is64 : (z : ℤ) → Is64 (wrap_i64 z)
unfolding wrap_i64
wrap_i64-Is64 (pos n) = ground arith
wrap_i64-Is64 (negsuc n) = ground arith

pub add_i64_fits : (a b : ℤ) → Is64 (a +ℤ b) → add_i64 a b ≡ a +ℤ b
unfolding add_i64
add_i64_fits a b h = wrap_i64_fits (a +ℤ b) h

pub sub_i64_fits : (a b : ℤ) → Is64 (a -ℤ b) → sub_i64 a b ≡ a -ℤ b
unfolding sub_i64
sub_i64_fits a b h = wrap_i64_fits (a -ℤ b) h

pub mul_i64_fits : (a : ℤ) (k : ℕ) → Is64 (a *ℤ k) → mul_i64 a k ≡ a *ℤ k
unfolding mul_i64
mul_i64_fits a k h = wrap_i64_fits (a *ℤ k) h

-- Division with remainder: existence, and the bound of the remainder.
pub div_with_rest : (z : ℤ) (d : ℕ) → 0 < d → ediv z d *ℤ d +ℤ pos (emod z d) ≡ z
unfolding ediv emod ◌+ℤ◌ ◌*ℤ◌
div_with_rest (pos n) d h = grind arith
div_with_rest (negsuc n) d h = grind arith

pub emod-lt : (z : ℤ) (d : ℕ) → 0 < d → emod z d < d
unfolding emod
emod-lt (pos n) d h = grind arith
emod-lt (negsuc n) d h = omega arith

-- On numbers that are not negative and stay small, the `i64` operations are those of ℕ.
pub add_pos : (a b : ℕ) → a + b < i64_half → add_i64 (pos a) (pos b) ≡ pos (a + b)
unfolding add_i64 ◌+ℤ◌ wrap_i64
add_pos a b h = ground arith

pub sub_pos : (a b : ℕ) → b ≤ a → a < i64_half → sub_i64 (pos a) (pos b) ≡ pos (a - b)
unfolding sub_i64 ◌-ℤ◌ wrap_i64
sub_pos a b h k = ground arith

pub mul_pos : (a k : ℕ) → a * k < i64_half → mul_i64 (pos a) k ≡ pos (a * k)
unfolding mul_i64 ◌*ℤ◌ wrap_i64
mul_pos a k h = ground arith
