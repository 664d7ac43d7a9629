-- ===== src/Tests/Rates.antt =====
-- The interest rate strategy at concrete parameters and histories.
use k.Base.{◌≤◌, ◌≡◌, ◌↔◌, refl, arith, true, none, some, ok, List, [], ◌∷◌}
use k.Shared.Host.{Auth}
use k.Shared.Wide.{
  checked_add, checked_sub, saturating_add, u256_mul, u256_add, u256_div, narrow, to_u128,
}
use k.Shared.RayMath.{ray_mul, ray_div}
use k.RateStrategy.Curve.{
  InterestRateParams, max_total_rate, validate_interest_rate_params, CalculatedRates,
  variable_borrow_rate, rate_above, rate_below, ratio_above,
}
use k.RateStrategy.Bounds.{IsCurve, validate_iff, variable_borrow_rate_mono}
use k.RateStrategy.Admin.{
  Strategy, blank, initialize, propose_admin, accept_admin, get_admin, validate_admin,
  get_pending_admin, calculate_interest_rates,
}
use k.RateStrategy.Governance.{
  Call, Effect, outcome, run, outcome_iff, calculate_interest_rates_total, admin_changes,
}

-- 2% base, 4% up to 80%, 60% above.
abbrev curve : InterestRateParams
curve = record {
  base_variable_borrow_rate = 20_000_000_000_000_000_000_000_000;
  variable_rate_slope1 = 40_000_000_000_000_000_000_000_000;
  variable_rate_slope2 = 600_000_000_000_000_000_000_000_000;
  optimal_utilization_rate = 800_000_000_000_000_000_000_000_000;
}

curve-IsCurve : IsCurve curve
curve-IsCurve = record {
  optimum_pos = omega arith;
  optimum_lt = omega arith;
  base_le = omega arith;
  slope1_pos = omega arith;
  slopes_rise = omega arith;
  slope2_le = omega arith;
  total_le = omega arith;
}

validate_iff_example : (validate_interest_rate_params curve ≡ ok tt) ↔ IsCurve curve
validate_iff_example = validate_iff curve

below_run :
    variable_borrow_rate curve 400_000_000_000_000_000_000_000_000
    ≡ ok 40_000_000_000_000_000_000_000_000
unfolding variable_borrow_rate rate_below checked_add ray_mul ray_div u256_mul u256_add u256_div
    narrow to_u128
below_run = refl

above_run :
    variable_borrow_rate curve 900_000_000_000_000_000_000_000_000
    ≡ ok 360_000_000_000_000_000_000_000_000
unfolding variable_borrow_rate rate_above ratio_above checked_add checked_sub ray_mul ray_div
    u256_mul u256_add u256_div narrow to_u128
above_run = refl

variable_borrow_rate_mono_example :
    40_000_000_000_000_000_000_000_000 ≤ 360_000_000_000_000_000_000_000_000
variable_borrow_rate_mono_example =
    variable_borrow_rate_mono curve curve-IsCurve 400_000_000_000_000_000_000_000_000
      900_000_000_000_000_000_000_000_000 40_000_000_000_000_000_000_000_000
      360_000_000_000_000_000_000_000_000 (omega arith) (omega arith) below_run above_run

abbrev everyone : Auth
everyone = λ a. true

-- Address 1 initialises and hands over to address 2.
abbrev history : List (Auth × Call)
history = (everyone, Call.initialize_call 1 curve) ∷ (everyone, Call.propose 1 2) ∷ []

started : (run blank history).initialized ≡ true
unfolding run outcome initialize propose_admin validate_interest_rate_params saturating_add
    validate_admin get_admin
started = refl

calculate_interest_rates_total_example :
    (q : CalculatedRates) × (calculate_interest_rates (run blank history) 9 1000 4000 1000 ≡ ok q)
    × (q.variable_borrow_rate ≤ max_total_rate)
    × (q.liquidity_rate ≤ q.variable_borrow_rate)
calculate_interest_rates_total_example =
    calculate_interest_rates_total history 9 1000 4000 1000 started (omega arith) (omega arith)

abbrev before : Strategy
before = record blank { initialized = true; admin = some 1; pending_admin = some 2; params = curve }

abbrev after : Strategy
after = record before { admin = some 2; pending_admin = none }

outcome_iff_example :
    (outcome everyone (Call.accept 2) before ≡ ok after)
    ↔ Effect everyone (Call.accept 2) before after
outcome_iff_example = outcome_iff everyone (Call.accept 2) before after

accept_run : outcome everyone (Call.accept 2) before ≡ ok after
unfolding outcome accept_admin get_admin get_pending_admin
accept_run = refl

admin_changes_example :
    (Call.accept 2 ≡ Call.accept 2)
    × (before.pending_admin ≡ some 2)
    × (everyone 2 ≡ true)
    × (after.pending_admin ≡ none)
admin_changes_example =
    admin_changes everyone (Call.accept 2) before after 1 2 refl refl accept_run refl (omega arith)
