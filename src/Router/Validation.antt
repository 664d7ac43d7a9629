-- ===== src/Router/Validation.antt =====
-- The checks before an operation (src/validation.rs).
pub mod Health
pub mod Limits
use k.Base.{
  ℕ, ◌*◌, ◌+◌, ◌^◌, ◌==◌, ltb, if◌then◌else◌, Bool, not, ◌||◌, Option, none, some, ok, ok_or,
  fail_if, ◌>>=◌, ◌>>◌,
}
use k.Shared.Constants.{u128_max}
use k.Shared.Errors.{
  invalid_amount, asset_paused, asset_not_active, asset_frozen, borrowing_not_enabled,
  supply_cap_exceeded, borrow_cap_exceeded, debt_ceiling_exceeded, invalid_liquidation,
  math_overflow,
}
use k.Shared.Host.{Address}
use k.Shared.ReserveConfig.{
  is_active, is_paused, is_frozen, is_borrowing_enabled, get_supply_cap, get_borrow_cap,
  get_decimals,
}
use k.Shared.Wide.{checked_add, checked_mul}
use k.Router.Accrual.{ReserveData, Reserves, Outcome, get_reserve_data}
use k.Router.State.{Pool, Contracts}
use k.Router.Rates.{get_total_supply_with_index}
use k.Router.Liquidation.{pow_ten}

-- `validate_amount` of contracts/shared/src/utils.rs
unfoldable pub validate_amount : ℕ → Outcome (Unit {0})
validate_amount amount = fail_if (amount == 0) invalid_amount

unfoldable pub validate_supply : Pool → ℕ → ReserveData → Outcome (Unit {0})
unfolding validate_amount
validate_supply p amount r = do
  fail_if p.paused asset_paused
  validate_amount amount
  fail_if (not (is_active r.configuration)) asset_not_active
  fail_if (is_paused r.configuration) asset_paused
  fail_if (is_frozen r.configuration) asset_frozen

-- The largest `u128` stands for everything.
abbrev unless_max : ℕ → Outcome (Unit {0}) → Outcome (Unit {0})
unless_max amount check = if amount == u128_max then ok tt else check

unfoldable pub validate_withdraw : Pool → ℕ → ReserveData → Outcome (Unit {0})
unfolding validate_amount
validate_withdraw p amount r = do
  fail_if p.paused asset_paused
  unless_max amount (validate_amount amount)
  fail_if (not (is_active r.configuration)) asset_not_active
  fail_if (is_paused r.configuration) asset_paused

unfoldable pub validate_borrow : Pool → ℕ → ℕ → ReserveData → Outcome (Unit {0})
unfolding validate_amount
validate_borrow p amount interest_rate_mode r = do
  fail_if p.paused asset_paused
  validate_amount amount
  fail_if (not (interest_rate_mode == 1)) borrowing_not_enabled
  fail_if (not (is_active r.configuration)) asset_not_active
  fail_if (is_paused r.configuration) asset_paused
  fail_if (is_frozen r.configuration) asset_frozen
  fail_if (not (is_borrowing_enabled r.configuration)) borrowing_not_enabled

unfoldable pub validate_repay : Pool → ℕ → ℕ → ReserveData → Outcome (Unit {0})
unfolding validate_amount
validate_repay p amount rate_mode r = do
  fail_if p.paused asset_paused
  fail_if (amount == 0) invalid_amount
  unless_max amount (validate_amount amount)
  fail_if (not (rate_mode == 1)) borrowing_not_enabled
  fail_if (not (is_active r.configuration)) asset_not_active
  fail_if (is_paused r.configuration) asset_paused

abbrev capped : Contracts → ℕ → ℕ → ReserveData → ℕ → Outcome (Unit {0})
capped m supply_cap amount r liquidity_index = do
  current_supply ← get_total_supply_with_index m r.a_token_address liquidity_index
  multiplier ← pow_ten (get_decimals r.configuration)
  cap_in_smallest_units ← ok_or (checked_mul supply_cap multiplier) math_overflow
  new_total_supply ← ok_or (checked_add current_supply amount) math_overflow
  fail_if (ltb cap_in_smallest_units new_total_supply) supply_cap_exceeded

-- A cap of 0 is no cap.
unfoldable pub validate_supply_cap_after_interest :
    Contracts → ℕ → ReserveData → ℕ → Outcome (Unit {0})
validate_supply_cap_after_interest m amount r liquidity_index =
    if get_supply_cap r.configuration == 0
    then ok tt
    else capped m (get_supply_cap r.configuration) amount r liquidity_index

abbrev below_borrow_cap : ℕ → ℕ → ℕ → Outcome (Unit {0})
below_borrow_cap cap multiplier new_total_debt = do
  cap_in_smallest_units ← ok_or (checked_mul cap multiplier) math_overflow
  fail_if (ltb cap_in_smallest_units new_total_debt) borrow_cap_exceeded

abbrev below_debt_ceiling : ℕ → ℕ → ℕ → Outcome (Unit {0})
below_debt_ceiling ceiling multiplier new_total_debt = do
  ceiling_in_smallest_units ← ok_or (checked_mul ceiling multiplier) math_overflow
  fail_if (ltb ceiling_in_smallest_units new_total_debt) debt_ceiling_exceeded

abbrev debt_capped : Contracts → ℕ → ℕ → ℕ → ReserveData → ℕ → Outcome (Unit {0})
debt_capped m cap ceiling amount r variable_borrow_index = do
  current_debt ← get_total_supply_with_index m r.debt_token_address variable_borrow_index
  multiplier ← pow_ten (get_decimals r.configuration)
  new_total_debt ← ok_or (checked_add current_debt amount) math_overflow
  if cap == 0 then ok tt else below_borrow_cap cap multiplier new_total_debt
  if ceiling == 0 then ok tt else below_debt_ceiling ceiling multiplier new_total_debt

unfoldable pub validate_borrow_cap_after_interest :
    Contracts → Pool → ℕ → ReserveData → Address → ℕ → Outcome (Unit {0})
validate_borrow_cap_after_interest m p amount r asset variable_borrow_index =
    let cap = get_borrow_cap r.configuration in
    let ceiling = p.reserve_debt_ceiling asset in
    if cap == 0
    then if ceiling == 0 then ok tt else debt_capped m cap ceiling amount r variable_borrow_index
    else debt_capped m cap ceiling amount r variable_borrow_index

abbrev usable : ReserveData → Outcome (Unit {0})
usable r = do
  fail_if (not (is_active r.configuration)) asset_not_active
  fail_if (is_paused r.configuration) asset_paused

abbrev stored_usable : Reserves → Address → Outcome (Unit {0})
stored_usable m asset = do r ← get_reserve_data m asset; usable r

-- The four cases of given and fetched reserves, with the checks in the order of each.
abbrev pair_usable :
    Reserves → Address → Address → Option ReserveData → Option ReserveData → Outcome (Unit {0})
pair_usable m collateral_asset debt_asset (some c) (some d) = do
  fail_if (not (is_active c.configuration) || not (is_active d.configuration)) asset_not_active
  fail_if (is_paused c.configuration || is_paused d.configuration) asset_paused
  fail_if (collateral_asset == debt_asset) invalid_liquidation
pair_usable m collateral_asset debt_asset (some c) none = do
  stored_usable m debt_asset
  fail_if (collateral_asset == debt_asset) invalid_liquidation
pair_usable m collateral_asset debt_asset none (some d) = do
  stored_usable m collateral_asset
  fail_if (collateral_asset == debt_asset) invalid_liquidation
pair_usable m collateral_asset debt_asset none none = do
  stored_usable m collateral_asset
  fail_if (collateral_asset == debt_asset) invalid_liquidation
  stored_usable m debt_asset

unfoldable pub validate_liquidation :
    Pool → Address → Address → ℕ → Option ReserveData → Option ReserveData → Outcome (Unit {0})
unfolding validate_amount
validate_liquidation p collateral_asset debt_asset debt_to_cover collateral_reserve debt_reserve =
    do
      fail_if p.paused asset_paused
      validate_amount debt_to_cover
      pair_usable p.reserves collateral_asset debt_asset collateral_reserve debt_reserve
