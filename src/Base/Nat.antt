-- ===== src/Base/Nat.antt =====
-- Division by a positive number, as bounds that the arithmetic tactics read.
use Prim.Native.Nat.{ℕ, ◌+◌, ◌*◌, ◌/◌, ◌≤◌, ◌<◌}
use native.Mathlib.Omega.{arith}
use native.Mathlib.Nat.{
  div-mul-le_self, lt-div-mul-add, le-div_iff_mul-le, div-lt_iff_lt-mul, mul-le-mul,
}

-- The quotient is the largest number whose product with the divisor does not exceed `n`.
pub div_bounds : (n d : ℕ) → 0 < d → (n / d * d ≤ n) × (n < n / d * d + d)
div_bounds n d h = (div-mul-le_self n d, lt-div-mul-add h)

pub le-div : (n d k : ℕ) → 0 < d → k * d ≤ n → k ≤ n / d
le-div n d k h p = (le-div_iff_mul-le h).1 p

pub div-lt : (n d k : ℕ) → 0 < d → n < k * d → n / d < k
div-lt n d k h p = (div-lt_iff_lt-mul h).1 p

pub div-le : (n d k : ℕ) → 0 < d → n < k * d + d → n / d ≤ k
div-le n d k h p = omega (arith, div-lt n d (k + 1) h (omega arith))

pub div_mono : (m n d : ℕ) → 0 < d → m ≤ n → m / d ≤ n / d
div_mono m n d h p = le-div n d (m / d) h (omega (arith, div-mul-le_self m d))

pub mul_mono : (a b c d : ℕ) → a ≤ c → b ≤ d → a * b ≤ c * d
mul_mono a b c d p q = mul-le-mul p q
