-- ===== src/Router/Value.antt =====
-- Values in the base currency and the health factor (`value_in_base` and `calculate_health_factor_u256`
-- in src/calculation.rs).
use k.Base.{
  none, some, ◌↔◌, ◌⊎◌, inl, inr, ℕ, ◌+◌, ◌*◌, ◌/◌, ◌≤◌, ◌<◌, ◌≡◌, arith, ◌==◌, if◌then◌else◌, ok,
  panic, contract, ◌>>=◌, div_bounds, div_mono, mul_mono, le-div,
}
use k.Shared.Constants.{IsU128, u128_max, wad, basis_points, health_factor_liquidation_threshold}
use k.Shared.Errors.{math_overflow_code}
use k.Shared.Wide.{u256_mul, u256_div, narrow, to_u128}
use k.Router.Accrual.{Outcome}

unfoldable pub value_in_base : ℕ → ℕ → ℕ → ℕ → Outcome ℕ
value_in_base amount price oracle_to_wad decimals_pow = do
  a ← u256_mul amount price
  b ← u256_mul a oracle_to_wad
  c ← u256_div b decimals_pow
  narrow c

-- `.to_u128().unwrap_or_else(|| panic_with_error!(env, MathOverflow))`
abbrev or_overflow : ℕ → Outcome ℕ
or_overflow n = elim (to_u128 n) [ none ↦ panic (contract math_overflow_code) | some v ↦ ok v ]

abbrev health_factor_of_debt : ℕ → ℕ → ℕ → Outcome ℕ
health_factor_of_debt collateral threshold debt = do
  a ← u256_mul collateral threshold
  b ← u256_mul a wad
  c ← u256_div b 10_000
  d ← u256_div c debt
  or_overflow d

unfoldable pub calculate_health_factor_u256 : ℕ → ℕ → ℕ → Outcome ℕ
calculate_health_factor_u256 total_collateral_base current_liquidation_threshold total_debt_base =
    if total_debt_base == 0
    then ok u128_max
    else health_factor_of_debt total_collateral_base current_liquidation_threshold total_debt_base

value_in_base_lem :
    (a p o d v : ℕ) → value_in_base a p o d ≡ ok v → (0 < d) × (v ≡ a * p * o / d) × IsU128 v
unfolding value_in_base u256_mul u256_div narrow to_u128
value_in_base_lem a p o d v e = ground arith

-- The value of an amount is its product with the price, truncated; more of the asset is never
-- worth less.
pub value_in_base_mono :
    (a b p o d v w : ℕ)
    → a ≤ b
    → value_in_base a p o d ≡ ok v
    → value_in_base b p o d ≡ ok w
    → (v * d ≤ a * p * o) × (a * p * o < v * d + d) × (v ≤ w)
value_in_base_mono a b p o d v w h e f =
    let (d_pos, v_eq, _) = value_in_base_lem a p o d v e in
    let (_, w_eq, _) = value_in_base_lem b p o d w f in
    let (low, high) = div_bounds (a * p * o) d d_pos in
    let more = mul_mono (a * p) o (b * p) o (mul_mono a p b p h (omega arith)) (omega arith) in
    let grows = div_mono (a * p * o) (b * p * o) d d_pos more in
    (rw v_eq low, rw v_eq high, rw (v_eq, w_eq) grows)

-- With a debt, the factor is a quotient; without one it is the largest `u128`.
health_lem :
    (c t d h : ℕ)
    → calculate_health_factor_u256 c t d ≡ ok h
    → ((d ≡ 0) × (h ≡ u128_max)) ⊎ ((0 < d) × (h ≡ c * t * wad / 10_000 / d) × IsU128 h)
unfolding calculate_health_factor_u256 u256_mul u256_div to_u128
health_lem c t d h e = ground arith

-- A position is healthy (its factor is at least the liquidation threshold of one) exactly when its
-- collateral at the liquidation threshold covers its debt.
pub healthy_iff :
    (collateral threshold debt h : ℕ)
    → calculate_health_factor_u256 collateral threshold debt ≡ ok h
    → (health_factor_liquidation_threshold ≤ h) ↔ (debt * basis_points ≤ collateral * threshold)
healthy_iff c t d h e = elim (health_lem c t d h e) [
  | inl (no_debt, high) ↦ (λ _. omega arith, λ _. omega arith)
  | inr (debt, eq, _) ↦
      let n : ℕ = c * t * wad / 10_000 in
      let (low, high) = div_bounds n d debt in
      let low' : h * d ≤ n = rw eq low in
      (
        λ k. omega (arith, mul_mono wad d h d k (omega arith)),
        λ k. let quotient : wad ≤ n / d = le-div n d wad debt (omega arith) in omega arith,
      )
]

-- More collateral and less debt, at the same threshold, never make a position less healthy.
pub health_mono :
    (c c' t d d' h h' : ℕ)
    → c ≤ c'
    → d' ≤ d
    → calculate_health_factor_u256 c t d ≡ ok h
    → calculate_health_factor_u256 c' t d' ≡ ok h'
    → h ≤ h'
health_mono c c' t d d' h h' more less e f =
    by_debt (health_lem c t d h e) (health_lem c' t d' h' f)
  where
    by_debt :
        ((d ≡ 0) × (h ≡ u128_max)) ⊎ ((0 < d) × (h ≡ c * t * wad / 10_000 / d) × IsU128 h)
        → ((d' ≡ 0) × (h' ≡ u128_max)) ⊎ ((0 < d') × (h' ≡ c' * t * wad / 10_000 / d') × IsU128 h')
        → h ≤ h'
    by_debt (inl (_, a)) (inl (_, b)) = omega arith
    by_debt (inl (a, _)) (inr (b, _, _)) = omega arith
    by_debt (inr (_, _, a)) (inl (_, b)) = omega arith
    by_debt (inr (debt, eq, _)) (inr (debt', eq', _)) =
        let n : ℕ = c * t * wad / 10_000 in
        let n' : ℕ = c' * t * wad / 10_000 in
        let low : h * d ≤ n = rw eq (div_bounds n d debt).0 in
        let quotient : h ≤ n' / d' = le-div n' d' h debt' (
          omega
            (arith, mul_mono h d' h d (omega arith) less, mul_mono c t c' t more (omega arith))) in
        omega arith
