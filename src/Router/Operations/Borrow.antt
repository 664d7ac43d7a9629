-- ===== src/Router/Operations/Borrow.antt =====
-- `borrow` (src/operations.rs).
use k.Base.{ℕ, ◌==◌, ltb, if◌then◌else◌, true, ok, fail_if, ◌>>=◌, ◌>>◌}
use k.Shared.Constants.{calculate_oracle_to_wad_factor}
use k.Shared.Errors.{
  token_call_failed, insufficient_liquidity, debt_token_mint_failed, invalid_amount,
}
use k.Shared.Host.{Address, require_auth}
use k.Shared.ReserveConfig.{get_min_remaining_debt}
use k.Shared.Signed.{safe_i128_to_u128, safe_reserve_id}
use k.Shared.UserConfig.{is_borrowing, set_borrowing}
use k.Router.Accrual.{ReserveData, Outcome, get_reserve_data}
use k.Router.State.{Pool, World, Env, caught, get_user_configuration, set_user_configuration}
use k.Router.Price.{get_oracle_config}
use k.Router.Calls.{mint_debt, debt_of_user}
use k.Router.Rates.{get_atoken_underlying_balance}
use k.Router.Validation.{validate_borrow, validate_borrow_cap_after_interest}
use k.Router.Validation.Health.{validate_user_can_borrow}
use k.Router.Operations.{
  check_access, unless_caller, check_recipient, check_positions, accrue, settle_rates, guarded,
  in_pool, min_debt_of,
}
use k.Router.Operations.Withdraw.{pay_out}

abbrev check_min_debt : {U : Type 0} → Address → ReserveData → World U → Outcome (Unit {0})
check_min_debt user r w = do
  min_debt ← min_debt_of r
  balance ←
      caught (debt_of_user w r.debt_token_address user r.variable_borrow_index) token_call_failed
  total_debt ← safe_i128_to_u128 balance
  fail_if (ltb total_debt min_debt) invalid_amount

-- The debt after the borrow, where the reserve sets a least debt.
unfoldable pub enough_debt : {U : Type 0} → Address → ReserveData → World U → Outcome (Unit {0})
enough_debt user r w =
    if get_min_remaining_debt r.configuration == 0 then ok tt else check_min_debt user r w

-- The borrowing flag, if the user may hold another position.
unfoldable pub mark_borrowing : Address → ReserveData → Pool → Outcome Pool
mark_borrowing user r p = do
  let c = get_user_configuration p user
  reserve_id ← safe_reserve_id r.id
  if is_borrowing c reserve_id then ok tt else check_positions c
  ok (set_user_configuration p user (set_borrowing c reserve_id true))

module _ {U : Type 0} (env : Env U) where
  -- The account and the liquidity, with the prices' scale.
  unfoldable pub check_borrow : Address → Address → ℕ → ReserveData → World U → Outcome (World U)
  check_borrow user asset amount r w = do
    (oracle_config, p) ← get_oracle_config env w.pool
    let oracle_to_wad = calculate_oracle_to_wad_factor oracle_config.price_precision
    p' ← validate_user_can_borrow env (in_pool w p) user asset amount r oracle_to_wad
    a_token_liquidity ← get_atoken_underlying_balance env w asset r.a_token_address
    fail_if (ltb a_token_liquidity amount) insufficient_liquidity
    ok (in_pool w p')

  -- The debt token mints, and the deposit token pays.
  unfoldable pub give_loan : Address → ℕ → ReserveData → World U → Outcome (World U)
  give_loan user amount r w = do
    (minted, w') ←
        caught (mint_debt env w r.debt_token_address user amount r.variable_borrow_index)
          debt_token_mint_failed
    enough_debt user r w'
    pay_out env w' r.a_token_address user amount

  unfoldable pub borrow :
      Address → Address → ℕ → ℕ → Address → World U → Outcome (Unit {0} × World U)
  borrow caller asset amount interest_rate_mode on_behalf_of w = do
    require_auth env.auth caller
    unless_caller caller on_behalf_of (require_auth env.auth on_behalf_of)
    check_access w.pool asset caller
    unless_caller caller on_behalf_of (check_access w.pool asset on_behalf_of)
    r ← get_reserve_data w.pool.reserves asset
    validate_borrow w.pool amount interest_rate_mode r
    (updated, w1) ← accrue env.now asset r w
    check_recipient updated on_behalf_of
    validate_borrow_cap_after_interest w1.contracts w1.pool amount updated asset
        updated.variable_borrow_index
    w2 ← check_borrow on_behalf_of asset amount updated w1
    w3 ← give_loan on_behalf_of amount updated w2
    p ← mark_borrowing on_behalf_of updated w3.pool
    w4 ← settle_rates asset updated (in_pool w3 p)
    ok (tt, w4)

  -- The entry point of src/router.rs.
  unfoldable pub router_borrow :
      Address → Address → ℕ → ℕ → Address → World U → Outcome (Unit {0} × World U)
  unfolding guarded
  router_borrow caller asset amount interest_rate_mode on_behalf_of =
      guarded (borrow caller asset amount interest_rate_mode on_behalf_of)
