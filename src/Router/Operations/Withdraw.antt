-- ===== src/Router/Operations/Withdraw.antt =====
-- `withdraw` (src/operations.rs).
use k.Base.{ℕ, ◌==◌, ltb, if◌then◌else◌, false, not, ok, ok_or, fail_if, ◌>>=◌, ◌>>◌}
use k.Shared.Constants.{u128_max, calculate_oracle_to_wad_factor}
use k.Shared.Errors.{
  token_call_failed, insufficient_collateral, insufficient_liquidity, a_token_burn_failed,
  underlying_transfer_failed, math_overflow,
}
use k.Shared.Host.{Address, require_auth}
use k.Shared.Signed.{safe_i128_to_u128, safe_reserve_id}
use k.Shared.UserConfig.{set_using_as_collateral}
use k.Shared.Wide.{checked_sub}
use k.Router.Accrual.{ReserveData, Outcome, get_reserve_data}
use k.Router.State.{Pool, World, Env, caught, get_user_configuration, set_user_configuration}
use k.Router.Price.{get_oracle_config}
use k.Router.Calls.{deposit_of, burn_deposit, pay_underlying}
use k.Router.Rates.{get_total_supply_with_index, get_atoken_underlying_balance}
use k.Router.Validation.{validate_withdraw}
use k.Router.Validation.Health.{validate_user_can_withdraw}
use k.Router.Operations.{
  check_access, unless_caller, check_recipient, accrue, settle_rates, guarded, in_pool,
}

-- The deposit token's answer has to be `true`.
abbrev pub pay_out : {U : Type 0} → Env U → World U → Address → Address → ℕ → Outcome (World U)
pay_out env w a_token_address to amount = do
  (paid, w') ← caught (pay_underlying env w a_token_address to amount) underlying_transfer_failed
  fail_if (not paid) underlying_transfer_failed
  ok w'

abbrev pub clear_collateral : Address → ReserveData → Pool → Outcome Pool
clear_collateral user r p = do
  reserve_id ← safe_reserve_id r.id
  ok (
      set_user_configuration p user
        (set_using_as_collateral (get_user_configuration p user) reserve_id false))

-- Nothing left is no collateral any more.
unfoldable pub disable_if_empty : ℕ → Address → ReserveData → Pool → Outcome Pool
disable_if_empty remaining user r p = if remaining == 0 then clear_collateral user r p else ok p

module _ {U : Type 0} (env : Env U) where
  -- (what the caller has, what goes): the checks of the balance and of the liquidity.
  unfoldable pub amount_to_withdraw :
      Address → Address → ℕ → ReserveData → World U → Outcome (ℕ × ℕ)
  amount_to_withdraw caller asset amount r w = do
    balance ← caught (deposit_of w r.a_token_address caller r.liquidity_index) token_call_failed
    user_balance ← safe_i128_to_u128 balance
    let going = if amount == u128_max then user_balance else amount
    fail_if (ltb user_balance going) insufficient_collateral
    total_supply ← get_total_supply_with_index w.contracts r.a_token_address r.liquidity_index
    underlying_balance ← get_atoken_underlying_balance env w asset r.a_token_address
    fail_if (ltb total_supply going) insufficient_liquidity
    fail_if (ltb underlying_balance going) insufficient_liquidity
    ok (user_balance, going)

  -- The check of the health factor, with the prices' scale.
  unfoldable pub check_health : Address → Address → ℕ → ReserveData → World U → Outcome (World U)
  check_health caller asset going r w = do
    (oracle_config, p) ← get_oracle_config env w.pool
    let oracle_to_wad = calculate_oracle_to_wad_factor oracle_config.price_precision
    p' ← validate_user_can_withdraw env (in_pool w p) caller asset going r oracle_to_wad
    ok (in_pool w p')

  -- The deposit token burns and pays.
  unfoldable pub return_deposit : Address → ℕ → Address → ReserveData → World U → Outcome (World U)
  return_deposit caller going to r w = do
    (burned, w') ←
        caught (burn_deposit env w r.a_token_address caller going r.liquidity_index)
          a_token_burn_failed
    pay_out env w' r.a_token_address to going

  unfoldable pub withdraw : Address → Address → ℕ → Address → World U → Outcome (ℕ × World U)
  withdraw caller asset amount to w = do
    require_auth env.auth caller
    check_access w.pool asset caller
    unless_caller caller to (check_access w.pool asset to)
    r ← get_reserve_data w.pool.reserves asset
    validate_withdraw w.pool amount r
    (updated, w1) ← accrue env.now asset r w
    check_recipient updated to
    (user_balance, going) ← amount_to_withdraw caller asset amount updated w1
    w2 ← check_health caller asset going updated w1
    w3 ← return_deposit caller going to updated w2
    remaining ← ok_or (checked_sub user_balance going) math_overflow
    p ← disable_if_empty remaining caller updated w3.pool
    w4 ← settle_rates asset updated (in_pool w3 p)
    ok (going, w4)

  -- The entry point of src/router.rs.
  unfoldable pub router_withdraw : Address → Address → ℕ → Address → World U → Outcome (ℕ × World U)
  unfolding guarded
  router_withdraw caller asset amount to = guarded (withdraw caller asset amount to)
