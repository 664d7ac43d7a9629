-- ===== src/Shared/Wide.antt =====
-- Rust's checked `u128` arithmetic, and the host's `U256`: 256-bit unsigned integers whose
-- operations trap where the exact result does not fit (or the divisor is zero).
use k.Base.{
  ℕ, ◌+◌, ◌-◌, ◌*◌, ◌/◌, ◌^◌, ◌≤◌, ◌<◌, ◌≡◌, Option, none, some, arith, ltb, leb, ◌==◌,
  if◌then◌else◌, Result, ok, panic, host, ok_or, mul_mono,
}
use k.Shared.Constants.{u128_max, IsU128}
use k.Shared.Errors.{KineticRouterError, math_overflow}

abbrev pub u256_modulus : ℕ
u256_modulus = 2 ^ 256

unfoldable pub to_u128 : ℕ → Option ℕ
to_u128 n = if leb n u128_max then some n else none

unfoldable pub checked_add : ℕ → ℕ → Option ℕ
checked_add a b = if leb (a + b) u128_max then some (a + b) else none

unfoldable pub checked_sub : ℕ → ℕ → Option ℕ
checked_sub a b = if leb b a then some (a - b) else none

unfoldable pub checked_mul : ℕ → ℕ → Option ℕ
checked_mul a b = if leb (a * b) u128_max then some (a * b) else none

unfoldable pub checked_div : ℕ → ℕ → Option ℕ
checked_div a b = if b == 0 then none else some (a / b)

unfoldable pub saturating_add : ℕ → ℕ → ℕ
saturating_add a b = if leb (a + b) u128_max then a + b else u128_max

module _ {E : Type 0} where
  unfoldable pub u256_mul : ℕ → ℕ → Result E ℕ
  u256_mul a b = if ltb (a * b) u256_modulus then ok (a * b) else panic host

  unfoldable pub u256_add : ℕ → ℕ → Result E ℕ
  u256_add a b = if ltb (a + b) u256_modulus then ok (a + b) else panic host

  unfoldable pub u256_sub : ℕ → ℕ → Result E ℕ
  u256_sub a b = if leb b a then ok (a - b) else panic host

  unfoldable pub u256_div : ℕ → ℕ → Result E ℕ
  u256_div a b = if b == 0 then panic host else ok (a / b)

  pub u256_mul_lem : (a b : ℕ) → a * b < u256_modulus → u256_mul a b ≡ ok (a * b)
  unfolding u256_mul
  u256_mul_lem a b h = ground arith

  pub u256_add_lem : (a b : ℕ) → a + b < u256_modulus → u256_add a b ≡ ok (a + b)
  unfolding u256_add
  u256_add_lem a b h = ground arith

  pub u256_sub_lem : (a b : ℕ) → b ≤ a → u256_sub a b ≡ ok (a - b)
  unfolding u256_sub
  u256_sub_lem a b h = ground arith

  pub u256_div_lem : (a b : ℕ) → 0 < b → u256_div a b ≡ ok (a / b)
  unfolding u256_div
  u256_div_lem a b h = ground arith

-- `.to_u128().ok_or(KineticRouterError::MathOverflow)`
unfoldable pub narrow : ℕ → Result KineticRouterError ℕ
unfolding to_u128
narrow n = ok_or (to_u128 n) math_overflow

pub narrow_ok : (n : ℕ) → IsU128 n → narrow n ≡ ok n
unfolding narrow
narrow_ok n h = ground arith

pub narrow-eq-ok : (n r : ℕ) → narrow n ≡ ok r → (n ≡ r) × IsU128 r
unfolding narrow
narrow-eq-ok n r h = ground arith

-- The product of two `u128` values, and some room above it, fits 256 bits.
pub u128_product : (a b : ℕ) → IsU128 a → IsU128 b → a * b + u128_max < u256_modulus
u128_product a b ha hb = omega (arith, mul_mono a b u128_max u128_max ha hb)
