-- ===== src/Shared/Interest.antt =====
-- Interest over a time span (`calculate_compound_interest` and `calculate_linear_interest` of
-- contracts/shared/src/utils.rs). Timestamps are `u64` seconds, rates are yearly rates in rays.
pub mod Growth
use k.Base.{ℕ, ◌+◌, ◌-◌, ◌*◌, ◌/◌, ◌<◌, ◌≡◌, ok, ok_or, and_then, ◌>>=◌, ◌==◌, ltb, if◌then◌else◌}
use k.Shared.Constants.{ray, seconds_per_year}
use k.Shared.Errors.{math_overflow}
use k.Shared.Wide.{checked_add, checked_sub, checked_mul, checked_div, u256_mul, u256_div, narrow}
use k.Shared.RayMath.{Checked, ray_mul}

-- rate * exp / SECONDS_PER_YEAR
unfoldable pub first_term : ℕ → ℕ → Checked
first_term rate exp = do
  product ← u256_mul rate exp
  quotient ← u256_div product seconds_per_year
  narrow quotient

unfoldable pub base_power_two : ℕ → Checked
base_power_two rate = do
  seconds_per_year_squared ← ok_or (checked_mul seconds_per_year seconds_per_year) math_overflow
  square ← ray_mul rate rate
  ok_or (checked_div square seconds_per_year_squared) math_overflow

unfoldable pub base_power_three : ℕ → ℕ → Checked
base_power_three power_two rate = do
  cube ← ray_mul power_two rate
  ok_or (checked_div cube seconds_per_year) math_overflow

unfoldable pub second_term : ℕ → ℕ → ℕ → Checked
second_term exp exp_minus_one power_two = do
  a ← u256_mul exp exp_minus_one
  b ← u256_mul a power_two
  c ← u256_div b 2
  narrow c

unfoldable pub third_term : ℕ → ℕ → ℕ → ℕ → Checked
third_term exp exp_minus_one exp_minus_two power_three = do
  a ← u256_mul exp exp_minus_one
  b ← u256_mul a exp_minus_two
  c ← u256_mul b power_three
  d ← u256_div c 6
  narrow d

-- The sum at the end of `calculate_compound_interest`.
unfoldable pub sum_of_terms : ℕ → ℕ → ℕ → Checked
sum_of_terms first second third =
    ok_or
      (and_then (checked_add ray first)
        (λ sum. and_then (checked_add sum second) (λ sum'. checked_add sum' third)))
      math_overflow

-- The body of `calculate_compound_interest` below its early return.
unfoldable pub taylor_series : ℕ → ℕ → Checked
taylor_series rate exp = do
  let exp_minus_one = if ltb 0 exp then exp - 1 else 0
  let exp_minus_two = if ltb 1 exp then exp - 2 else 0
  first ← first_term rate exp
  power_two ← base_power_two rate
  power_three ← base_power_three power_two rate
  second ← second_term exp exp_minus_one power_two
  third ← third_term exp exp_minus_one exp_minus_two power_three
  sum_of_terms first second third

unfoldable pub calculate_compound_interest : ℕ → ℕ → ℕ → Checked
calculate_compound_interest rate last_update_timestamp current_timestamp = do
  exp ← ok_or (checked_sub current_timestamp last_update_timestamp) math_overflow
  if exp == 0 then ok ray else taylor_series rate exp

unfoldable pub calculate_linear_interest : ℕ → ℕ → ℕ → Checked
calculate_linear_interest rate last_update_timestamp current_timestamp = do
  time_difference ← ok_or (checked_sub current_timestamp last_update_timestamp) math_overflow
  interest ←
      ok_or
        (and_then (checked_mul rate time_difference) (λ prod. checked_div prod seconds_per_year))
        math_overflow
  ok_or (checked_add ray interest) math_overflow
