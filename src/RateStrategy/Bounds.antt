-- ===== src/RateStrategy/Bounds.antt =====
-- The curve under valid parameters: it never fails, stays within its slopes, and never falls.
use k.Base.{
  true, ℕ, ◌+◌, ◌-◌, ◌*◌, ◌/◌, ◌≤◌, ◌<◌, ◌≡◌, ◌↔◌, inl, inr, ltb, ◌==◌, Bool-cases, ok, arith,
}
use k.Shared.Constants.{IsU128, ray, basis_points}
use k.Shared.Wide.{checked_add, checked_sub, checked_mul, checked_div, saturating_add}
use k.Shared.RayMath.Unit.{ray_mul_unit, ray_div_unit, ray_mul_mono, ray_div_mono}
use k.RateStrategy.Curve.{
  InterestRateParams, max_total_rate, max_component_rate, validate_interest_rate_params,
  CalculatedRates, utilization_rate, ratio_above, rate_above, rate_below, variable_borrow_rate,
  calculate_with,
}

-- What valid parameters satisfy.
pub record IsCurve (p : InterestRateParams) : Type 0 where
  pub optimum_pos : 0 < p.optimal_utilization_rate
  pub optimum_lt : p.optimal_utilization_rate < ray
  pub base_le : p.base_variable_borrow_rate ≤ max_component_rate
  pub slope1_pos : 0 < p.variable_rate_slope1
  pub slopes_rise : p.variable_rate_slope1 ≤ p.variable_rate_slope2
  pub slope2_le : p.variable_rate_slope2 ≤ max_component_rate
  pub total_le :
      p.base_variable_borrow_rate + p.variable_rate_slope1 + p.variable_rate_slope2 ≤ max_total_rate

-- The validation accepts exactly the parameters of a rising curve within the rate caps.
pub validate_iff : (p : InterestRateParams) → (validate_interest_rate_params p ≡ ok tt) ↔ IsCurve p
unfolding validate_interest_rate_params saturating_add
validate_iff p = (λ h. ground arith, λ c. ground arith)

module _ (p : InterestRateParams) (c : IsCurve p) where
  abbrev base : ℕ
  base = p.base_variable_borrow_rate

  abbrev knee : ℕ
  knee = p.base_variable_borrow_rate + p.variable_rate_slope1

  abbrev top : ℕ
  top = p.base_variable_borrow_rate + p.variable_rate_slope1 + p.variable_rate_slope2

  rate_below_bounds :
      (u : ℕ)
      → u ≤ p.optimal_utilization_rate
      → (r : ℕ) × (rate_below p u ≡ ok r) × (base ≤ r) × (r ≤ knee)
  unfolding rate_below checked_add
  rate_below_bounds u h =
      let opt : ℕ = p.optimal_utilization_rate in
      let (ratio, e, small) = ray_div_unit u opt c.optimum_pos (omega arith) h in
      let (part, f, le) = ray_mul_unit p.variable_rate_slope1 ratio (omega arith) small in
      (p.base_variable_borrow_rate + part, ground arith, omega arith, omega arith)

  rate_above_bounds :
      (u : ℕ)
      → p.optimal_utilization_rate < u
      → u ≤ ray
      → (r : ℕ) × (rate_above p u ≡ ok r) × (knee ≤ r) × (r ≤ top)
  unfolding rate_above ratio_above checked_add checked_sub
  rate_above_bounds u h k =
      let opt : ℕ = p.optimal_utilization_rate in
      let (ratio, e, small) =
        ray_div_unit (u - opt) (ray - opt) (omega arith) (omega arith) (omega arith) in
      let (part, f, le) = ray_mul_unit p.variable_rate_slope2 ratio (omega arith) small in
      (knee + part, ground arith, omega arith, omega arith)

  variable_borrow_rate_bounds :
      (u : ℕ) → u ≤ ray → (r : ℕ) × (variable_borrow_rate p u ≡ ok r) × (base ≤ r) × (r ≤ top)
  unfolding variable_borrow_rate
  variable_borrow_rate_bounds u h = elim (Bool-cases (ltb p.optimal_utilization_rate u)) [
    | inl over ↦
        let (r, e, lo, hi) = rate_above_bounds u (ground arith) h in (r, rw over e, omega arith, hi)
    | inr under ↦
        let (r, e, lo, hi) = rate_below_bounds u (ground arith) in (r, rw under e, lo, omega arith)
  ]

  rate_below_mono :
      (u v r s : ℕ)
      → u ≤ v
      → v ≤ p.optimal_utilization_rate
      → rate_below p u ≡ ok r
      → rate_below p v ≡ ok s
      → r ≤ s
  unfolding rate_below checked_add
  rate_below_mono u v r s h k e f =
      let opt : ℕ = p.optimal_utilization_rate in
      let (ratio, e1, small) = ray_div_unit u opt c.optimum_pos (omega arith) (omega arith) in
      let (part, e2, le) = ray_mul_unit p.variable_rate_slope1 ratio (omega arith) small in
      let (ratio', f1, small') = ray_div_unit v opt c.optimum_pos (omega arith) k in
      let (part', f2, le') = ray_mul_unit p.variable_rate_slope1 ratio' (omega arith) small' in
      let ratios =
        ray_div_mono u v opt ratio ratio' (omega arith) (omega arith) c.optimum_pos h e1 f1 in
      let parts =
        ray_mul_mono p.variable_rate_slope1 ratio p.variable_rate_slope1 ratio' part part'
          (omega arith) (omega arith) (omega arith) ratios e2 f2 in
      ground arith

  rate_above_mono :
      (u v r s : ℕ)
      → p.optimal_utilization_rate < u
      → u ≤ v
      → v ≤ ray
      → rate_above p u ≡ ok r
      → rate_above p v ≡ ok s
      → r ≤ s
  unfolding rate_above ratio_above checked_add checked_sub
  rate_above_mono u v r s o h k e f =
      let opt : ℕ = p.optimal_utilization_rate in
      let room : ℕ = ray - opt in
      let (ratio, e1, small) =
        ray_div_unit (u - opt) room (omega arith) (omega arith) (omega arith) in
      let (part, e2, le) = ray_mul_unit p.variable_rate_slope2 ratio (omega arith) small in
      let (ratio', f1, small') =
        ray_div_unit (v - opt) room (omega arith) (omega arith) (omega arith) in
      let (part', f2, le') = ray_mul_unit p.variable_rate_slope2 ratio' (omega arith) small' in
      let ratios =
        ray_div_mono (u - opt) (v - opt) room ratio ratio' (omega arith) (omega arith) (omega arith)
          (omega arith) e1 f1 in
      let parts =
        ray_mul_mono p.variable_rate_slope2 ratio p.variable_rate_slope2 ratio' part part'
          (omega arith) (omega arith) (omega arith) ratios e2 f2 in
      ground arith

  -- Under valid parameters the borrow rate never falls as utilisation rises, through the kink
  -- at the optimum too.
  pub variable_borrow_rate_mono :
      (u v r s : ℕ)
      → u ≤ v
      → v ≤ ray
      → variable_borrow_rate p u ≡ ok r
      → variable_borrow_rate p v ≡ ok s
      → r ≤ s
  unfolding variable_borrow_rate
  variable_borrow_rate_mono u v r s h k e f = elim (Bool-cases (ltb p.optimal_utilization_rate u)) [
    | inl over ↦
        let over' : ltb p.optimal_utilization_rate v ≡ true = ground arith in
        rate_above_mono u v r s (ground arith) h k (rw over at e) (rw over' at f)
    | inr under ↦ elim (Bool-cases (ltb p.optimal_utilization_rate v)) [
      | inl crossed ↦
          let (a, ea, lo, hi) = rate_below_bounds u (ground arith) in
          let (b, fb, lo', hi') = rate_above_bounds v (ground arith) k in ground arith
      | inr still ↦ rate_below_mono u v r s h (ground arith) (rw under at e) (rw still at f)
    ]
  ]

-- Utilisation is a part of one ray, and computing it never fails on amounts whose sum fits.
pub utilization_rate_bounds :
    (available debt : ℕ)
    → IsU128 (available + debt)
    → (u : ℕ) × (utilization_rate available debt ≡ ok u) × (u ≤ ray)
unfolding utilization_rate checked_add
utilization_rate_bounds available debt h = elim (Bool-cases (available + debt == 0)) [
  | inl empty ↦ (0, ground arith, omega arith)
  | inr funded ↦
      let (u, e, small) = ray_div_unit debt (available + debt) (ground arith) h (omega arith) in
      (u, ground arith, small)
]

-- With valid parameters, a reserve factor of at most 100% and amounts whose sum is a `u128`, the
-- rates are always computed: the borrow rate lies between the base rate and the sum of all three
-- components, and suppliers earn a rate no higher than borrowers pay.
pub calculate_with_total :
    (p : InterestRateParams) (available debt factor : ℕ)
    → IsCurve p
    → IsU128 (available + debt)
    → factor ≤ basis_points
    → (q : CalculatedRates) × (calculate_with p available debt factor ≡ ok q)
      × (p.base_variable_borrow_rate ≤ q.variable_borrow_rate)
      × (q.variable_borrow_rate
          ≤ p.base_variable_borrow_rate + p.variable_rate_slope1 + p.variable_rate_slope2)
      × (q.liquidity_rate ≤ q.variable_borrow_rate)
unfolding calculate_with checked_mul checked_div checked_sub
calculate_with_total p available debt factor c h k =
    let (u, eu, u-le) = utilization_rate_bounds available debt h in
    let (r, er, lo, hi) = variable_borrow_rate_bounds p c u u-le in
    let (x, ex, x-le) = ray_mul_unit r u (omega arith) u-le in
    let (y, ey, y-le) =
      ray_mul_unit x (ray - factor * ray / basis_points) (omega arith) (omega arith) in
    (record { liquidity_rate = y; variable_borrow_rate = r }, ground arith, lo, hi, omega arith)
