-- ===== src/Tests/Operations.antt =====
-- Borrowing, repaying and collecting at a concrete pool.
use k.Base.{ℕ, some, ◌+◌, ◌<◌, ◌≤◌, ◌⊎◌, ◌≡◌, refl, arith, true, false, ok, List, [], ◌∷◌, inl, inr}
use k.Base.Int.{pos}
use k.Shared.Constants.{u128_max}
use k.Router.State.{Pool, World, Env, a_token, debt_token, rate_strategy}
use k.Router.Accrual.{Outcome}
use k.Router.Operations.Sound.{IsSound}
use k.Router.Calls.Effects.{Sound, put_a_token-Sound, put_debt_token-Sound, set_contract_cases}
use k.Router.Operations.Positions.{RecordsDebt, borrow-RecordsDebt}
use k.Router.Operations.Withdraw.{
  withdraw, amount_to_withdraw, check_health, return_deposit, disable_if_empty,
}
use k.Router.Operations.Redemption.{Redeems, withdraw-Redeems}
use k.Router.Operations.Transfer.{
  validate_and_finalize_transfer, check_sender, release, engage, Finalizes, transfer-Finalizes,
}
use k.Router.Operations.Collateral.{
  set_user_use_reserve_as_coll, toggled, DoesWithout, switch_off-DoesWithout,
}
use k.Router.Operations.Settlement.{Settles, repay-Settles}
use k.Router.Validation.Health.Solvent.{IsAffordable, can_borrow-IsAffordable}
use k.Router.Access.{require_pool_admin, get_pool_admin}
use k.Router.Treasury.{
  collect_protocol_reserves, collectible, cover_deficit, reduce_reserve_deficit,
  cover_deficit_effect, Collects, collect_protocol_reserves_effect,
}
use k.Router.History as History
use k.Tests.World.{
  strategy_only, no_contracts, strategy, deposits, world, env, pool, debts, reserve, succeeded,
  result, result_lem,
}
use k.Router.Accrual.{ReserveData}
use k.Base.Int.{◌+ℤ◌, ◌-ℤ◌}
use k.Shared.Constants.{calculate_oracle_to_wad_factor}
use k.Shared.Wide.{
  to_u128, checked_add, checked_sub, checked_mul, checked_div, saturating_add, u256_mul, u256_add,
  u256_sub, u256_div, narrow,
}
use k.Shared.Signed.{
  checked_add_i128, checked_sub_i128, safe_u128_to_i128, safe_i128_to_u128, safe_reserve_id,
}
use k.Shared.RayMath.{ray_mul, ray_div, ray_div_down, ray_div_up, percent_mul}
use k.Shared.ReserveConfig.{
  get_ltv, get_liquidation_threshold, get_decimals, get_decimals_pow, is_active, is_frozen,
  is_borrowing_enabled, is_paused, get_reserve_factor, get_min_remaining_debt, get_borrow_cap,
}
use k.Shared.UserConfig.{
  is_using_as_collateral, has_any_borrowing, is_borrowing, set_using_as_collateral, set_borrowing,
  count_loop, count_active_reserves,
}
use k.AToken.State as AState
use k.AToken.Supply as ASupply
use k.AToken.Balance as ABalance
use k.DebtToken.State as DState
use k.DebtToken.Supply as DSupply
use k.DebtToken.Balance as DBalance
use k.RateStrategy.Curve.{
  utilization_rate, ratio_above, rate_above, rate_below, variable_borrow_rate, calculate_with,
}
use k.RateStrategy.Admin.{params_for, calculate_interest_rates}
use k.Router.Accrual.{
  get_reserve_data, set_reserve_data, accrued, update_state,
  get_current_variable_borrow_index_with_data,
}
use k.Router.State.{
  a_token_at, debt_token_at, rate_strategy_at, set_contract, set_user_configuration,
}
use k.Router.Access.{
  contains, is_whitelisted, is_blacklisted, validate_reserve_whitelist_access,
  validate_reserve_blacklist_access,
}
use k.Router.Price.{
  validate_price_freshness, price_map, take, fetched, get_prices_for_assets, get_oracle_config,
}
use k.Router.Calls.{pay_underlying, burn_deposit, mint_debt, burn_debt, deposit_of, debt_of_user}
use k.Router.Rates.{
  scaled_total_at, get_scaled_total_supply, get_total_supply_with_index, total_with_index,
  get_atoken_underlying_balance, available_of, calculate_interest_rates_for_reserve,
  update_interest_rates_and_store,
}
use k.Router.Account.{active_positions, weighted_value, price_in, add_collateral, add_debt}
use k.Router.Account.Data.{
  ceiling, floor, available_borrows, account_data_of, add_active, position_totals, account_sums,
  account_result, calculate_user_account_data_unified, calculate_user_account_data,
  calculate_user_account_data_with_prices,
}
use k.Router.Value.{value_in_base, calculate_health_factor_u256}
use k.Router.Liquidation.{pow_ten}
use k.Router.Validation.{
  validate_amount, validate_withdraw, validate_borrow, validate_repay,
  validate_borrow_cap_after_interest,
}
use k.Router.Validation.Health.{
  within_means, validate_user_can_borrow, validate_user_can_withdraw, can_withdraw_collateral,
  check_withdrawal,
}
use k.Router.Operations.{guarded, check_access, check_recipient, accrue, settle_rates}
use k.Router.Operations.Borrow.{
  enough_debt, mark_borrowing, check_borrow, give_loan, borrow, router_borrow,
}
use k.Router.Operations.Repay.{
  amount_to_repay, clear_if_repaid, debt_to_repay, take_repayment, repay, router_repay,
}

abbrev loan : Outcome (Unit {0} × World ℕ)
loan = borrow env 2 9 300_000 1 2 (world 0)

abbrev whole : Outcome (ℕ × World ℕ)
whole = repay env 2 9 500_000 1 2 (world 500_000)

abbrev call : Outcome (World ℕ)
call = History.outcome env (History.Call.borrow_call 2 9 300_000 1 2) (world 0)

abbrev cover : Outcome Pool
cover = validate_user_can_borrow env (world 0) 2 9 300_000 reserve 10_000

-- 500_000 are lent, 900_000 lie in the deposit token, and 1_000_000 may be claimed.
abbrev collection : Outcome (ℕ × World ℕ)
collection = collect_protocol_reserves env 9 (world 500_000)

-- Account 2 takes everything, which lies in the deposit token.
abbrev rich : Env ℕ
rich = record env { balance = λ asset account u. some (pos 1_000_000) }

abbrev redemption : Outcome (ℕ × World ℕ)
redemption = withdraw rich 2 9 u128_max 2 (world 0)

-- Each of them ends well, with these amounts.
runs_succeed :
    (succeeded loan ≡ true)
    × (succeeded whole ≡ true)
    × (succeeded call ≡ true)
    × (succeeded cover ≡ true)
    × (succeeded collection ≡ true)
    × (succeeded redemption ≡ true)
    × ((result (0, world 0) whole).0 ≡ 500_000)
    × ((result (0, world 0) collection).0 ≡ 400_000)
    × ((result (0, world 0) redemption).0 ≡ 1_000_000)
unfolding withdraw amount_to_withdraw check_health return_deposit disable_if_empty History.outcome
    collect_protocol_reserves collectible require_pool_admin get_pool_admin ◌+ℤ◌ ◌-ℤ◌
    calculate_oracle_to_wad_factor to_u128 checked_add checked_sub checked_mul checked_div
    saturating_add u256_mul u256_add u256_sub u256_div narrow checked_add_i128 checked_sub_i128
    safe_u128_to_i128 safe_i128_to_u128 safe_reserve_id ray_mul ray_div ray_div_down ray_div_up
    percent_mul get_ltv get_liquidation_threshold get_decimals get_decimals_pow is_active is_frozen
    is_borrowing_enabled is_paused get_reserve_factor get_min_remaining_debt get_borrow_cap
    is_using_as_collateral has_any_borrowing is_borrowing set_using_as_collateral set_borrowing
    count_loop count_active_reserves AState.get_state AState.handle_incentives_action
    ASupply.transfer_underlying_to ASupply.pay ASupply.burn_scaled ASupply.scaled_to_burn
    ASupply.debit_scaled ABalance.balance_of_with_index ABalance.scaled_total_supply
    DState.get_state DState.handle_incentives_action DSupply.mint_scaled DSupply.burn_scaled
    DSupply.sweep_dust DBalance.balance_of_with_index DBalance.scaled_total_supply utilization_rate
    ratio_above rate_above rate_below variable_borrow_rate calculate_with params_for
    calculate_interest_rates get_reserve_data set_reserve_data accrued update_state
    get_current_variable_borrow_index_with_data a_token_at debt_token_at rate_strategy_at
    set_contract set_user_configuration contains is_whitelisted is_blacklisted
    validate_reserve_whitelist_access validate_reserve_blacklist_access validate_price_freshness
    price_map take fetched get_prices_for_assets get_oracle_config pay_underlying burn_deposit
    mint_debt burn_debt deposit_of debt_of_user scaled_total_at get_scaled_total_supply
    get_total_supply_with_index total_with_index get_atoken_underlying_balance available_of
    calculate_interest_rates_for_reserve update_interest_rates_and_store active_positions
    weighted_value price_in add_collateral add_debt ceiling floor available_borrows account_data_of
    add_active position_totals account_sums account_result calculate_user_account_data_unified
    calculate_user_account_data calculate_user_account_data_with_prices value_in_base
    calculate_health_factor_u256 pow_ten validate_amount validate_withdraw validate_borrow
    validate_repay validate_borrow_cap_after_interest within_means validate_user_can_borrow
    validate_user_can_withdraw can_withdraw_collateral check_withdrawal guarded check_access
    check_recipient accrue settle_rates enough_debt mark_borrowing check_borrow give_loan borrow
    router_borrow amount_to_repay clear_if_repaid debt_to_repay take_repayment repay router_repay
runs_succeed = (refl, refl, refl, refl, refl, refl, refl, refl, refl)

abbrev lent : World ℕ
lent = (result (tt, world 0) loan).1

borrow-RecordsDebt_example : RecordsDebt env 2 9 2 300_000 (world 0) lent
borrow-RecordsDebt_example =
    borrow-RecordsDebt env 2 9 2 300_000 1 (world 0) lent
      (result_lem (tt, world 0) loan runs_succeed.0)

accrue_run : accrue 100 9 reserve (world 500_000) ≡ ok (reserve, world 500_000)
unfolding accrue update_state
accrue_run = refl

repay-Settles_example :
    Settles env 2 9 2
      (result (0, world 0) whole).0
      (world 500_000)
      (result (0, world 0) whole).1
      (debts 500_000)
      reserve
unfolding get_reserve_data set_reserve_data set_contract
repay-Settles_example =
    repay-Settles env 2 9 2 500_000 1 (result (0, world 0) whole).0 (world 500_000)
      (result (0, world 0) whole).1 (world 500_000) reserve reserve (debts 500_000)
      (result_lem (0, world 0) whole runs_succeed.1) refl accrue_run refl (omega arith)
      (omega arith) (omega arith)

strategy_only-Sound : Sound strategy_only
strategy_only-Sound = record {
  deposits = λ b t e.
      elim (set_contract_cases no_contracts 13 b (rate_strategy strategy) (a_token t) e) [
        | inl (_, same) ↦ absurd (cc)
        | inr there ↦ absurd (cc)
      ];
  debts = λ b t e.
      elim (set_contract_cases no_contracts 13 b (rate_strategy strategy) (debt_token t) e) [
        | inl (_, same) ↦ absurd (cc)
        | inr there ↦ absurd (cc)
      ];
}

world-IsSound : IsSound (world 0)
unfolding ◌+ℤ◌
world-IsSound = put_debt_token-Sound _ 12 (debts 0) refl (
    put_a_token-Sound strategy_only 11 deposits
      (record { covered = (omega arith, tt); backed = refl }) strategy_only-Sound)

abbrev calls : List (Env ℕ × History.Call)
calls =
    (env, History.Call.borrow_call 2 9 300_000 1 2)
    ∷ (env, History.Call.repay_call 2 9 100_000 1 2)
    ∷ (env, History.Call.borrow_call 2 9 900_000 1 2)
    ∷ []

run-IsSound_example : IsSound (History.run (world 0) calls)
run-IsSound_example = History.run-IsSound (world 0) calls world-IsSound

outcome-Allowed_example : History.Allowed env (History.Call.borrow_call 2 9 300_000 1 2) (world 0)
outcome-Allowed_example =
    History.outcome-Allowed env (History.Call.borrow_call 2 9 300_000 1 2) (world 0)
      (result (world 0) call) (result_lem (world 0) call runs_succeed.2)

can_borrow-IsAffordable_example :
    IsAffordable env (world 0) 2 9 300_000 10_000 reserve (result pool cover)
can_borrow-IsAffordable_example =
    can_borrow-IsAffordable env (world 0) 2 9 300_000 10_000 reserve (result pool cover)
      (result_lem pool cover runs_succeed.3)

collect_protocol_reserves_effect_example :
    Collects env 9 11
      (result (0, world 0) collection).0
      (world 500_000)
      (world 500_000)
      (result (0, world 0) collection).1
      reserve
unfolding get_reserve_data set_reserve_data
collect_protocol_reserves_effect_example =
    collect_protocol_reserves_effect env 9 11 (result (0, world 0) collection).0 (world 500_000)
      (result (0, world 0) collection).1 (world 500_000) reserve reserve
      (result_lem (0, world 0) collection runs_succeed.4) refl accrue_run

-- A deficit of 700 and an offer of 1000.
abbrev short : World ℕ
short = record (world 0) { pool = record pool { reserve_deficit = λ a. 700 } }

abbrev covered_world : World ℕ
covered_world = record short {
  pool = reduce_reserve_deficit (record pool { reserve_deficit = λ a. 700 }) 9 700;
}

covering_run : cover_deficit env 3 9 1000 short ≡ ok (700, covered_world)
unfolding cover_deficit reduce_reserve_deficit get_reserve_data set_reserve_data safe_u128_to_i128
covering_run = refl

cover_deficit_effect_example :
    (r : ReserveData) × (get_reserve_data short.pool.reserves 9 ≡ ok r)
    × (env.auth 3 ≡ true)
    × (env.transfer 9 3 r.a_token_address (pos 700) short.underlying
        ≡ some covered_world.underlying)
    × (0 < 700)
    × (700 ≤ 1000)
    × (covered_world.pool.reserve_deficit 9 + 700 ≡ 700)
    × (◌≡◌ {A = ℕ} 8 9 ⊎ (covered_world.pool.reserve_deficit 8 ≡ 700))
cover_deficit_effect_example =
    cover_deficit_effect env 3 9 8 1000 700 short covered_world covering_run

withdraw-Redeems_example :
    Redeems rich 2 2 1_000_000
      (result (0, world 0) redemption).0
      (world 0)
      (result (0, world 0) redemption).1
      deposits
      reserve
unfolding get_reserve_data set_reserve_data set_contract accrue update_state
withdraw-Redeems_example =
    withdraw-Redeems rich 2 9 2 u128_max (result (0, world 0) redemption).0 1_000_000 (world 0)
      (result (0, world 0) redemption).1 (world 0) reserve reserve deposits
      (result_lem (0, world 0) redemption runs_succeed.5) refl refl refl refl (omega arith)
      (omega arith) (omega arith)

-- Account 2 sends everything to account 3.
abbrev sending : Outcome (World ℕ)
sending = validate_and_finalize_transfer env 9 2 3 1_000_000 0 1_000_000 (world 0)

sending_succeeds : succeeded sending ≡ true
unfolding validate_and_finalize_transfer check_sender release engage has_any_borrowing
    get_reserve_data set_reserve_data safe_reserve_id is_using_as_collateral set_using_as_collateral
    set_user_configuration
sending_succeeds = refl

transfer-Finalizes_example : Finalizes env 9 2 3 0 1_000_000 (world 0) (result (world 0) sending)
transfer-Finalizes_example =
    transfer-Finalizes env 9 2 3 1_000_000 0 1_000_000 (world 0) (result (world 0) sending) refl
      (result_lem (world 0) sending sending_succeeds)

-- Account 2 owes nothing and stops using its deposit as collateral.
abbrev switching : Outcome (World ℕ)
switching = set_user_use_reserve_as_coll env 2 9 false (world 0)

switching_succeeds : succeeded switching ≡ true
unfolding set_user_use_reserve_as_coll toggled ◌+ℤ◌ ◌-ℤ◌ calculate_oracle_to_wad_factor to_u128
    checked_add checked_sub checked_mul checked_div saturating_add u256_mul u256_add u256_sub
    u256_div narrow checked_add_i128 checked_sub_i128 safe_u128_to_i128 safe_i128_to_u128
    safe_reserve_id ray_mul ray_div ray_div_down ray_div_up percent_mul get_ltv
    get_liquidation_threshold get_decimals get_decimals_pow is_active is_frozen is_borrowing_enabled
    is_paused get_reserve_factor get_min_remaining_debt get_borrow_cap is_using_as_collateral
    has_any_borrowing is_borrowing set_using_as_collateral set_borrowing count_loop
    count_active_reserves AState.get_state AState.handle_incentives_action
    ASupply.transfer_underlying_to ASupply.pay ASupply.burn_scaled ASupply.scaled_to_burn
    ASupply.debit_scaled ABalance.balance_of_with_index ABalance.scaled_total_supply
    DState.get_state DState.handle_incentives_action DSupply.mint_scaled DSupply.burn_scaled
    DSupply.sweep_dust DBalance.balance_of_with_index DBalance.scaled_total_supply utilization_rate
    ratio_above rate_above rate_below variable_borrow_rate calculate_with params_for
    calculate_interest_rates get_reserve_data set_reserve_data accrued update_state
    get_current_variable_borrow_index_with_data a_token_at debt_token_at rate_strategy_at
    set_contract set_user_configuration contains is_whitelisted is_blacklisted
    validate_reserve_whitelist_access validate_reserve_blacklist_access validate_price_freshness
    price_map take fetched get_prices_for_assets get_oracle_config pay_underlying burn_deposit
    mint_debt burn_debt deposit_of debt_of_user scaled_total_at get_scaled_total_supply
    get_total_supply_with_index total_with_index get_atoken_underlying_balance available_of
    calculate_interest_rates_for_reserve update_interest_rates_and_store active_positions
    weighted_value price_in add_collateral add_debt ceiling floor available_borrows account_data_of
    add_active position_totals account_sums account_result calculate_user_account_data_unified
    calculate_user_account_data calculate_user_account_data_with_prices value_in_base
    calculate_health_factor_u256 pow_ten validate_amount validate_withdraw validate_borrow
    validate_repay validate_borrow_cap_after_interest within_means validate_user_can_borrow
    validate_user_can_withdraw can_withdraw_collateral check_withdrawal guarded check_access
    check_recipient accrue settle_rates enough_debt mark_borrowing check_borrow give_loan borrow
    router_borrow amount_to_repay clear_if_repaid debt_to_repay take_repayment repay router_repay
switching_succeeds = refl

switch_off-DoesWithout_example : DoesWithout env 2 3 9 1 (world 0) (result (world 0) switching)
switch_off-DoesWithout_example =
    switch_off-DoesWithout env 2 3 9 1 (world 0) (result (world 0) switching) (omega arith)
      (result_lem (world 0) switching switching_succeeds)
