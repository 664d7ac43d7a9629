-- ===== src/Tests/Pool.antt =====
-- Accrual, values and liquidation amounts at concrete reserves.
use k.Base.{◌<◌, ℕ, ◌+◌, ◌*◌, ◌^◌, ◌≤◌, ◌≡◌, ◌↔◌, refl, arith, ◌==◌, if◌then◌else◌, some, none, ok}
use k.Shared.Constants.{ray, wad, basis_points, health_factor_liquidation_threshold}
use k.Shared.Wide.{
  checked_add, checked_sub, checked_mul, checked_div, u256_mul, u256_add, u256_div, narrow, to_u128,
}
use k.Shared.RayMath.{ray_mul}
use k.Shared.Interest.{
  calculate_linear_interest, calculate_compound_interest, taylor_series, first_term, second_term,
  third_term, base_power_two, base_power_three, sum_of_terms,
}
use k.Shared.ReserveConfig.{get_decimals, get_liquidation_bonus}
use k.Router.Accrual.{
  ReserveData, Reserves, accrued, update_state, update_state_without_store, set_reserve_data,
  get_current_liquidity_index, get_current_variable_borrow_index,
}
use k.Router.Accrual.Growth.{Grew, update_state_effect, getters_agree}
use k.Router.Value.{value_in_base, calculate_health_factor_u256, healthy_iff}
use k.Router.Liquidation.{
  calculate_liquidation_amounts_with_reserves, pow_ten, units_of_value, bonus_of, seized_bounds,
}

-- A reserve with 7 decimals and a bonus of 5%, rates of 5% and 10%.
abbrev reserve : ReserveData
reserve = record {
  liquidity_index = ray;
  variable_borrow_index = ray;
  current_liquidity_rate = 50_000_000_000_000_000_000_000_000;
  current_variable_borrow_rate = 100_000_000_000_000_000_000_000_000;
  last_update_timestamp = 0;
  a_token_address = 11;
  debt_token_address = 12;
  interest_rate_strategy_address = 13;
  id = 0;
  configuration = record { data_low = 500 * 2 ^ 28 + 7 * 2 ^ 42; data_high = 0 };
}

abbrev reserves : Reserves
reserves = λ a. if a == 9 then some reserve else none

abbrev year : ℕ
year = 31_536_000

abbrev later : ReserveData
later = record reserve {
  liquidity_index = 1_050_000_000_000_000_000_000_000_000;
  variable_borrow_index = 1_105_162_042_821_782_412_575_504_000;
  last_update_timestamp = year;
}

update_run : update_state year 9 reserve reserves ≡ ok (later, set_reserve_data reserves 9 later)
unfolding update_state accrued calculate_linear_interest calculate_compound_interest taylor_series
    first_term second_term third_term base_power_two base_power_three sum_of_terms checked_sub
    checked_mul checked_div checked_add ray_mul u256_mul u256_add u256_div narrow to_u128
update_run = refl

update_state_effect_example :
    Grew year reserve later
    × (set_reserve_data reserves 9 later 8 ≡ (if 8 == 9 then some later else reserves 8))
update_state_effect_example =
    update_state_effect year 9 8 reserve later reserves (set_reserve_data reserves 9 later) refl
      (omega arith) (omega arith) update_run

getters_agree_example :
    (get_current_liquidity_index year 9 reserves ≡ ok (later.liquidity_index))
    × (get_current_variable_borrow_index year 9 reserves ≡ ok (later.variable_borrow_index))
    × (update_state_without_store year reserve ≡ ok later)
getters_agree_example =
    getters_agree year 9 reserve later reserves (set_reserve_data reserves 9 later) refl update_run

-- 100 units of 7 decimals at a price of 2 with 14 decimals are worth 200 wad.
value_run : value_in_base 1_000_000_000 200_000_000_000_000 10_000 10_000_000 ≡ ok (200 * wad)
unfolding value_in_base u256_mul u256_div narrow to_u128
value_run = refl

value_run_more : value_in_base 2_000_000_000 200_000_000_000_000 10_000 10_000_000 ≡ ok (400 * wad)
unfolding value_in_base u256_mul u256_div narrow to_u128
value_run_more = refl

-- 400 wad of collateral at 80% against 200 wad of debt.
health_run :
    calculate_health_factor_u256 (400 * wad) 8000 (200 * wad) ≡ ok 1_600_000_000_000_000_000
unfolding calculate_health_factor_u256 u256_mul u256_div to_u128
health_run = refl

health_run_more :
    calculate_health_factor_u256 (400 * wad) 8000 (100 * wad) ≡ ok 3_200_000_000_000_000_000
unfolding calculate_health_factor_u256 u256_mul u256_div to_u128
health_run_more = refl

healthy_iff_example :
    (health_factor_liquidation_threshold ≤ 1_600_000_000_000_000_000)
    ↔ (200 * wad * basis_points ≤ 400 * wad * 8000)
healthy_iff_example = healthy_iff (400 * wad) 8000 (200 * wad) 1_600_000_000_000_000_000 health_run

-- 100 units of debt at a price of 2 against collateral at a price of 4: 50 units and 5% more.
seized_run :
    calculate_liquidation_amounts_with_reserves reserve reserve 1_000_000_000 400_000_000_000_000
      200_000_000_000_000 10_000
    ≡ ok (500_000_000, 525_000_000)
unfolding calculate_liquidation_amounts_with_reserves pow_ten units_of_value bonus_of value_in_base
    get_decimals get_liquidation_bonus checked_add u256_mul u256_div narrow to_u128
seized_run = refl

seized_bounds_example :
    (value : ℕ) × (value_in_base 1_000_000_000 200_000_000_000_000 10_000
        (10 ^ get_decimals reserve.configuration)
      ≡ ok value)
    × (500_000_000 * (400_000_000_000_000 * 10_000)
        ≤ value * 10 ^ get_decimals reserve.configuration)
    × (value * 10 ^ get_decimals reserve.configuration
        < 500_000_000 * (400_000_000_000_000 * 10_000) + 400_000_000_000_000 * 10_000)
    × (500_000_000 ≤ 525_000_000)
    × (value
          * (basis_points + get_liquidation_bonus reserve.configuration)
          * 10 ^ get_decimals reserve.configuration
        ≤ (525_000_000 * (400_000_000_000_000 * 10_000)
            + 400_000_000_000_000 * 10_000
            + 10 ^ get_decimals reserve.configuration)
          * basis_points)
    × (525_000_000 * (400_000_000_000_000 * 10_000) * basis_points
        ≤ value
          * (basis_points + get_liquidation_bonus reserve.configuration)
          * 10 ^ get_decimals reserve.configuration)
seized_bounds_example =
    seized_bounds reserve reserve 1_000_000_000 400_000_000_000_000 200_000_000_000_000 10_000
      500_000_000 525_000_000 seized_run
