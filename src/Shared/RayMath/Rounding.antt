-- ===== src/Shared/RayMath/Rounding.antt =====
-- In which direction each routine rounds, by how much, and when it fails.
use k.Base.{
  ℕ, ◌+◌, ◌-◌, ◌*◌, ◌/◌, ◌≤◌, ◌<◌, ◌≡◌, refl, ok, err, panic, arith, div_bounds, leb, Bool-cases,
  inl, inr, mul_mono,
}
use k.Shared.Constants.{IsU128, u128_max, ray, half_ray, wad, half_wad}
use k.Shared.Errors.{math_overflow}
use k.Shared.Wide.{narrow, to_u128}
use k.Shared.RayMath.{
  Checked, wad_mul, wad_div, ray_mul, ray_mul_down, ray_div, ray_div_down, ray_div_up,
}
use k.Shared.RayMath.Closed.{
  wad_mul_closed, wad_div_closed, ray_mul_closed, ray_mul_down_closed, ray_div_closed,
  ray_div_down_closed, ray_div_up_closed,
}

-- The routine returns the truncated quotient of `n` by `d`, or `MathOverflow` where that exceeds
-- a `u128`; it never panics.
abbrev pub Truncates : ℕ → ℕ → Checked → Type 0
Truncates n d (ok r) = (r * d ≤ n) × (n < r * d + d) × IsU128 r
Truncates n d (err e) = (e ≡ math_overflow) × (u128_max * d + d ≤ n)
Truncates n d (panic p) = ⊥

pub narrow-Truncates : (n d : ℕ) → 0 < d → Truncates n d (narrow (n / d))
unfolding narrow
narrow-Truncates n d h =
    let bounds = div_bounds n d h in
    elim (Bool-cases (leb (n / d) u128_max)) [
      | inl fits ↦ rw (fits, narrow, to_u128) (bounds.0, bounds.1, ground arith)
      | inr large ↦
          let over : u128_max + 1 ≤ n / d = ground arith in
          rw (large, narrow, to_u128)
            (refl, omega (arith, mul_mono (u128_max + 1) d (n / d) d over (omega arith)))
    ]

module _ (a b : ℕ) (ha : IsU128 a) (hb : IsU128 b) where
  -- On `u128` values, `ray_mul` rounds the product to the nearest multiple of one ray, halves upward, and fails
  -- exactly when the rounded value exceeds a `u128`.
  pub ray_mul-Truncates : Truncates (a * b + half_ray) ray (ray_mul a b)
  ray_mul-Truncates =
      rw (ray_mul_closed a b ha hb) (narrow-Truncates (a * b + half_ray) ray (omega arith))

  pub wad_mul-Truncates : Truncates (a * b + half_wad) wad (wad_mul a b)
  wad_mul-Truncates =
      rw (wad_mul_closed a b ha hb) (narrow-Truncates (a * b + half_wad) wad (omega arith))

  pub ray_mul_down-Truncates : Truncates (a * b) ray (ray_mul_down a b)
  ray_mul_down-Truncates =
      rw (ray_mul_down_closed a b ha hb) (narrow-Truncates (a * b) ray (omega arith))

  -- On `u128` values and a divisor that is not 0, `ray_div` rounds the quotient to the nearest multiple, halves of
  -- the divisor upward, and fails exactly when that exceeds a `u128`.
  pub ray_div-Truncates : 0 < b → Truncates (a * ray + b / 2) b (ray_div a b)
  ray_div-Truncates h = rw (ray_div_closed a b ha hb h) (narrow-Truncates (a * ray + b / 2) b h)

  pub wad_div-Truncates : 0 < b → Truncates (a * wad + b / 2) b (wad_div a b)
  wad_div-Truncates h = rw (wad_div_closed a b ha hb h) (narrow-Truncates (a * wad + b / 2) b h)

  pub ray_div_down-Truncates : 0 < b → Truncates (a * ray) b (ray_div_down a b)
  ray_div_down-Truncates h = rw (ray_div_down_closed a b ha hb h) (narrow-Truncates (a * ray) b h)

  -- On `u128` values and a divisor that is not 0, `ray_div_up` rounds the quotient up, and fails exactly when that
  -- exceeds a `u128`.
  pub ray_div_up-Truncates : 0 < b → Truncates (a * ray + b - 1) b (ray_div_up a b)
  ray_div_up-Truncates h =
      rw (ray_div_up_closed a b ha hb h) (narrow-Truncates (a * ray + b - 1) b h)
