-- ===== src/RateStrategy/Curve.antt =====
-- The rate curve: `validate_interest_rate_params` (src/validation.rs) and
-- `calculate_interest_rates` (src/contract.rs).
use k.Base.{
  ℕ, ◌*◌, ◌==◌, ltb, leb, if◌then◌else◌, ◌||◌, Result, ok, ok_or, and_then, fail_if, ◌>>=◌, ◌>>◌,
}
use k.Shared.Constants.{ray, basis_points}
use k.Shared.Errors.{KineticRouterError, invalid_amount, math_overflow}
use k.Shared.Wide.{checked_add, checked_sub, checked_mul, checked_div, saturating_add}
use k.Shared.RayMath.{Checked, ray_mul, ray_div}

pub record InterestRateParams : Type 0 where
  pub base_variable_borrow_rate : ℕ
  pub variable_rate_slope1 : ℕ
  pub variable_rate_slope2 : ℕ
  pub optimal_utilization_rate : ℕ

abbrev pub max_total_rate : ℕ
max_total_rate = 20 * ray

abbrev pub max_component_rate : ℕ
max_component_rate = 10 * ray

unfoldable pub validate_interest_rate_params :
    InterestRateParams → Result KineticRouterError (Unit {0})
validate_interest_rate_params params = do
  let optimal = params.optimal_utilization_rate
  let base = params.base_variable_borrow_rate
  let slope1 = params.variable_rate_slope1
  let slope2 = params.variable_rate_slope2
  fail_if (optimal == 0 || leb ray optimal) invalid_amount
  fail_if (ltb max_component_rate base) invalid_amount
  fail_if (ltb max_component_rate slope1 || ltb max_component_rate slope2) invalid_amount
  fail_if (slope1 == 0 || slope2 == 0) invalid_amount
  fail_if (ltb slope2 slope1) invalid_amount
  fail_if (ltb max_total_rate (saturating_add (saturating_add base slope1) slope2)) invalid_amount

pub record CalculatedRates : Type 0 where
  pub liquidity_rate : ℕ
  pub variable_borrow_rate : ℕ

unfoldable pub utilization_rate : ℕ → ℕ → Checked
utilization_rate available_liquidity total_variable_debt = do
  total_liquidity ← ok_or (checked_add available_liquidity total_variable_debt) math_overflow
  if total_liquidity == 0 then ok 0 else ray_div total_variable_debt total_liquidity

-- `excess_utilization_rate_ratio` where the optimum is not one ray.
unfoldable pub ratio_above : InterestRateParams → ℕ → Checked
ratio_above params excess = do
  room ← ok_or (checked_sub ray params.optimal_utilization_rate) math_overflow
  ray_div excess room

-- Above the optimal utilisation.
unfoldable pub rate_above : InterestRateParams → ℕ → Checked
rate_above params utilization = do
  excess ← ok_or (checked_sub utilization params.optimal_utilization_rate) math_overflow
  ratio ← if ray == params.optimal_utilization_rate then ok 0 else ratio_above params excess
  slope2_component ← ray_mul params.variable_rate_slope2 ratio
  ok_or
      (and_then (checked_add params.base_variable_borrow_rate params.variable_rate_slope1)
        (λ v. checked_add v slope2_component))
      math_overflow

-- At or below it.
unfoldable pub rate_below : InterestRateParams → ℕ → Checked
rate_below params utilization = do
  ratio ←
      if params.optimal_utilization_rate == 0
      then ok 0
      else ray_div utilization params.optimal_utilization_rate
  slope1_component ← ray_mul params.variable_rate_slope1 ratio
  ok_or (checked_add params.base_variable_borrow_rate slope1_component) math_overflow

unfoldable pub variable_borrow_rate : InterestRateParams → ℕ → Checked
variable_borrow_rate params utilization =
    if ltb params.optimal_utilization_rate utilization
    then rate_above params utilization
    else rate_below params utilization

-- `calculate_interest_rates` once the asset's parameters have been read from storage.
unfoldable pub calculate_with :
    InterestRateParams → ℕ → ℕ → ℕ → Result KineticRouterError CalculatedRates
calculate_with params available_liquidity total_variable_debt reserve_factor = do
  fail_if (ltb basis_points reserve_factor) invalid_amount
  utilization ← utilization_rate available_liquidity total_variable_debt
  borrow_rate ← variable_borrow_rate params utilization
  reserve_factor_ray ←
      ok_or (and_then (checked_mul reserve_factor ray) (λ v. checked_div v basis_points))
        math_overflow
  fail_if (ltb ray reserve_factor_ray) invalid_amount
  borrow_rate_times_utilization ← ray_mul borrow_rate utilization
  share ← ok_or (checked_sub ray reserve_factor_ray) math_overflow
  supply_rate ← ray_mul borrow_rate_times_utilization share
  ok (record { liquidity_rate = supply_rate; variable_borrow_rate = borrow_rate })
