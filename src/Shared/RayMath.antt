-- ===== src/Shared/RayMath.antt =====
-- The fixed-point arithmetic of contracts/shared/src/utils.rs: `wad` has 18
-- decimals, `ray` 27, percentages are basis points.
pub mod Closed
pub mod Rounding
pub mod Scaled
pub mod Unit
use k.Base.{
  ℕ, ◌+◌, ◌-◌, ◌/◌, Result, err, ok, ok_or, and_then, fail_if, ◌>>=◌, ◌>>◌, ◌==◌, if◌then◌else◌,
  Bool,
}
use k.Shared.Constants.{
  wad, half_wad, ray, half_ray, ray_wad_ratio, half_ray_wad_ratio, basis_points, half_basis_points,
}
use k.Shared.Errors.{KineticRouterError, math_overflow, invalid_amount}
use k.Shared.Wide.{
  to_u128, checked_add, checked_mul, checked_div, u256_mul, u256_add, u256_sub, u256_div, narrow,
}

abbrev pub Checked : Type 0
Checked = Result KineticRouterError ℕ

unfoldable pub wad_mul : ℕ → ℕ → Checked
wad_mul a b = do
  product ← u256_mul a b
  numerator ← u256_add product half_wad
  result ← u256_div numerator wad
  narrow result

unfoldable pub wad_div : ℕ → ℕ → Checked
wad_div a b = do
  fail_if (b == 0) math_overflow
  half_b ← u256_div b 2
  product ← u256_mul a wad
  numerator ← u256_add product half_b
  result ← u256_div numerator b
  narrow result

unfoldable pub ray_mul : ℕ → ℕ → Checked
ray_mul a b = do
  product ← u256_mul a b
  numerator ← u256_add product half_ray
  result ← u256_div numerator ray
  narrow result

unfoldable pub ray_mul_down : ℕ → ℕ → Checked
ray_mul_down a b = do product ← u256_mul a b; result ← u256_div product ray; narrow result

unfoldable pub ray_div : ℕ → ℕ → Checked
ray_div a b = do
  fail_if (b == 0) math_overflow
  half_b ← u256_div b 2
  product ← u256_mul a ray
  numerator ← u256_add product half_b
  result ← u256_div numerator b
  narrow result

unfoldable pub ray_div_down : ℕ → ℕ → Checked
ray_div_down a b = do
  fail_if (b == 0) math_overflow
  product ← u256_mul a ray
  result ← u256_div product b
  narrow result

unfoldable pub ray_div_up : ℕ → ℕ → Checked
ray_div_up a b = do
  fail_if (b == 0) math_overflow
  product ← u256_mul a ray
  sum ← u256_add product b
  numerator ← u256_sub sum 1
  result ← u256_div numerator b
  narrow result

unfoldable pub wad_to_ray : ℕ → Checked
wad_to_ray a = ok_or (checked_mul a ray_wad_ratio) math_overflow

unfoldable pub ray_to_wad : ℕ → Checked
ray_to_wad a =
    ok_or (and_then (checked_add a half_ray_wad_ratio) (λ sum. checked_div sum ray_wad_ratio))
      math_overflow

unfoldable pub percent_mul : ℕ → ℕ → Checked
percent_mul value percentage =
    ok_or
      (and_then (checked_mul value percentage) (λ prod.
        and_then (checked_add prod half_basis_points) (λ sum. checked_div sum basis_points)))
      math_overflow

unfoldable pub percent_mul_up : ℕ → ℕ → Checked
percent_mul_up value percentage =
    ok_or
      (and_then (checked_mul value percentage) (λ prod.
        and_then (checked_add prod (basis_points - 1)) (λ sum. checked_div sum basis_points)))
      math_overflow

unfoldable pub percent_div : ℕ → ℕ → Checked
percent_div value percentage = do
  fail_if (percentage == 0) math_overflow
  let half_percentage = percentage / 2
  ok_or
      (and_then (checked_mul value basis_points)
        (λ prod. and_then (checked_add prod half_percentage) (λ sum. checked_div sum percentage)))
      math_overflow
