-- ===== src/Shared/RayMath/Scaled.antt =====
-- Round trips between a balance and its scaled form, which the token contracts rest on. A new
-- reserve's indices are one ray.
use native.Mathlib.Nat.{lt_of_mul-lt-mul_right}
use k.Base.{ℕ, ◌+◌, ◌-◌, ◌*◌, ◌/◌, ◌≤◌, ◌<◌, ◌≡◌, subst, ok, arith, div-le, div_bounds, ◌∙◌}
use k.Shared.Constants.{IsU128, i128_max, ray, half_ray}
use k.Shared.Wide.{narrow_ok}
use k.Shared.RayMath.{Checked, ray_mul, ray_mul_down, ray_div_down, ray_div_up}
use k.Shared.RayMath.Closed.{ray_div_down_closed, ray_div_up_closed}
use k.Shared.RayMath.Rounding.{
  Truncates, ray_mul-Truncates, ray_mul_down-Truncates, ray_div_down-Truncates,
}

-- The bounds of a routine that has returned `r`.
pub Truncates-ok :
    (n d r : ℕ) (c : Checked)
    → c ≡ ok r
    → Truncates n d c
    → (r * d ≤ n) × (n < r * d + d) × IsU128 r
Truncates-ok n d r c e t = subst (Truncates n d) e t

module _ (s i x : ℕ) (hs : IsU128 s) (hi : IsU128 i) where
  -- The value of `s` scaled units, rounded down, costs at most `s` units to burn, at any
  -- index above 0; both are `u128` values.
  pub ray_div_up-ray_mul_down :
      0 < i → ray_mul_down s i ≡ ok x → (y : ℕ) × (ray_div_up x i ≡ ok y) × (y ≤ s)
  ray_div_up-ray_mul_down h e =
      let t = Truncates-ok (s * i) ray x _ e (ray_mul_down-Truncates s i hs hi) in
      let y : ℕ = (x * ray + i - 1) / i in
      let y-le : y ≤ s = div-le (x * ray + i - 1) i s h (omega arith) in
      (y, ray_div_up_closed x i t.2 hi h ∙ narrow_ok y (omega arith), y-le)

  -- At an index of at least one ray, the displayed balance of `s` scaled units (rounded half up; `s`
  -- an `i128`) costs `s` units or one more.
  pub ray_div_up-ray_mul :
      ray ≤ i
      → s ≤ i128_max
      → ray_mul s i ≡ ok x
      → (y : ℕ) × (ray_div_up x i ≡ ok y) × (y ≤ s + 1) × (s ≤ y)
  ray_div_up-ray_mul h small e =
      let t = Truncates-ok (s * i + half_ray) ray x _ e (ray_mul-Truncates s i hs hi) in
      let y : ℕ = (x * ray + i - 1) / i in
      let y-le : y ≤ s + 1 = div-le (x * ray + i - 1) i (s + 1) (omega arith) (omega arith) in
      let bounds = div_bounds (x * ray + i - 1) i (omega arith) in
      let near : s < y + 1 = lt_of_mul-lt-mul_right i (omega arith) in
      (y, ray_div_up_closed x i t.2 hi (omega arith) ∙ narrow_ok y (omega arith), y-le, omega arith)

  -- At an index of at least one ray, scaling the displayed balance back, rounded down, gives `s` or
  -- one unit less.
  pub ray_div_down-ray_mul :
      ray ≤ i → ray_mul s i ≡ ok x → (y : ℕ) × (ray_div_down x i ≡ ok y) × (y ≤ s) × (s ≤ y + 1)
  ray_div_down-ray_mul h e =
      let t = Truncates-ok (s * i + half_ray) ray x _ e (ray_mul-Truncates s i hs hi) in
      let y : ℕ = x * ray / i in
      let bounds = div_bounds (x * ray) i (omega arith) in
      let y-le : y ≤ s = div-le (x * ray) i s (omega arith) (omega arith) in
      let near : s < y + 2 = lt_of_mul-lt-mul_right i (omega arith) in
      (
        y,
        ray_div_down_closed x i t.2 hi (omega arith) ∙ narrow_ok y (omega arith),
        y-le,
        omega arith,
      )

-- A deposit of `x` at an index above 0, both `u128` values, is credited with scaled units worth at
-- most `x`, and less than one unit of each below it.
pub ray_mul_down-ray_div_down :
    (x i s v : ℕ)
    → IsU128 x
    → IsU128 i
    → 0 < i
    → ray_div_down x i ≡ ok s
    → ray_mul_down s i ≡ ok v
    → (v ≤ x) × (x * ray < v * ray + i + ray)
ray_mul_down-ray_div_down x i s v hx hi h e f =
    let t = Truncates-ok (x * ray) i s _ e (ray_div_down-Truncates x i hx hi h) in
    let u = Truncates-ok (s * i) ray v _ f (ray_mul_down-Truncates s i t.2 hi) in
    (omega arith, omega arith)
