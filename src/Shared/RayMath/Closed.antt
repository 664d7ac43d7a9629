-- ===== src/Shared/RayMath/Closed.antt =====
-- Each routine as one expression: on `u128` arguments no 256-bit step traps.
use k.Base.{ℕ, ◌+◌, ◌-◌, ◌*◌, ◌/◌, ◌<◌, ◌≡◌, refl, arith, ◌==◌, false}
use k.Shared.Constants.{IsU128, wad, half_wad, ray, half_ray}
use k.Shared.Wide.{narrow, u256_mul_lem, u256_add_lem, u256_sub_lem, u256_div_lem, u128_product}
use k.Shared.RayMath.{wad_mul, wad_div, ray_mul, ray_mul_down, ray_div, ray_div_down, ray_div_up}

module _ (a b : ℕ) (ha : IsU128 a) (hb : IsU128 b) where
  pub wad_mul_closed : wad_mul a b ≡ narrow ((a * b + half_wad) / wad)
  unfolding wad_mul
  wad_mul_closed =
      let fits = u128_product a b ha hb in
      rw (u256_mul_lem a b (omega arith), u256_add_lem (a * b) half_wad (omega arith))
        (rw (u256_div_lem (a * b + half_wad) wad (omega arith)) refl)

  pub ray_mul_closed : ray_mul a b ≡ narrow ((a * b + half_ray) / ray)
  unfolding ray_mul
  ray_mul_closed =
      let fits = u128_product a b ha hb in
      rw (u256_mul_lem a b (omega arith), u256_add_lem (a * b) half_ray (omega arith))
        (rw (u256_div_lem (a * b + half_ray) ray (omega arith)) refl)

  pub ray_mul_down_closed : ray_mul_down a b ≡ narrow (a * b / ray)
  unfolding ray_mul_down
  ray_mul_down_closed =
      let fits = u128_product a b ha hb in
      rw (u256_mul_lem a b (omega arith), u256_div_lem (a * b) ray (omega arith)) refl

  pub wad_div_closed : 0 < b → wad_div a b ≡ narrow ((a * wad + b / 2) / b)
  unfolding wad_div
  wad_div_closed h =
      let fits = u128_product a wad ha (omega arith) in
      let nonzero : (b == 0) ≡ false = ground arith in
      rw
        (
          nonzero,
          u256_div_lem b 2 (omega arith),
          u256_mul_lem a wad (omega arith),
          u256_add_lem (a * wad) (b / 2) (omega arith),
          u256_div_lem (a * wad + b / 2) b h,
        )
        refl

  pub ray_div_closed : 0 < b → ray_div a b ≡ narrow ((a * ray + b / 2) / b)
  unfolding ray_div
  ray_div_closed h =
      let fits = u128_product a ray ha (omega arith) in
      let nonzero : (b == 0) ≡ false = ground arith in
      rw
        (
          nonzero,
          u256_div_lem b 2 (omega arith),
          u256_mul_lem a ray (omega arith),
          u256_add_lem (a * ray) (b / 2) (omega arith),
          u256_div_lem (a * ray + b / 2) b h,
        )
        refl

  pub ray_div_down_closed : 0 < b → ray_div_down a b ≡ narrow (a * ray / b)
  unfolding ray_div_down
  ray_div_down_closed h =
      let fits = u128_product a ray ha (omega arith) in
      let nonzero : (b == 0) ≡ false = ground arith in
      rw (nonzero, u256_mul_lem a ray (omega arith), u256_div_lem (a * ray) b h) refl

  pub ray_div_up_closed : 0 < b → ray_div_up a b ≡ narrow ((a * ray + b - 1) / b)
  unfolding ray_div_up
  ray_div_up_closed h =
      let fits = u128_product a ray ha (omega arith) in
      let nonzero : (b == 0) ≡ false = ground arith in
      rw
        (
          nonzero,
          u256_mul_lem a ray (omega arith),
          u256_add_lem (a * ray) b (omega arith),
          u256_sub_lem (a * ray + b) 1 (omega arith),
          u256_div_lem (a * ray + b - 1) b h,
        )
        refl
