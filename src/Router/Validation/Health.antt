-- ===== src/Router/Validation/Health.antt =====
-- The checks that a borrow or a withdrawal leaves the account healthy (`validate_user_can_borrow`
-- and `validate_user_can_withdraw` in src/validation.rs).
pub mod Solvent
use k.Base.{
  ℕ, ◌-◌, ◌==◌, ltb, if◌then◌else◌, Bool, Option, none, some, List, [], ◌∷◌, ok, ok_or, fail_if,
  ◌>>=◌, ◌>>◌,
}
use k.Shared.Constants.{wad}
use k.Shared.Errors.{insufficient_collateral, health_factor_too_low, math_overflow}
use k.Shared.Host.{Address}
use k.Shared.ReserveConfig.{get_decimals, get_liquidation_threshold}
use k.Shared.Signed.{safe_reserve_id}
use k.Shared.UserConfig.{UserConfiguration, is_using_as_collateral}
use k.Shared.Wide.{checked_add, u256_mul, u256_div, to_u128}
use k.Router.Accrual.{ReserveData, Outcome}
use k.Router.State.{Pool, World, Env, get_user_configuration}
use k.Router.Liquidation.{pow_ten}
use k.Router.Value.{value_in_base, calculate_health_factor_u256}
use k.Router.Account.{UserAccountData, AccountDataParams, default_params, price_in, weighted_value}
use k.Router.Account.Data.{
  AccountDataResult, calculate_user_account_data_unified, calculate_user_account_data_with_prices,
}

-- What follows once the account and the price are known.
unfoldable pub within_means : ℕ → UserAccountData → ℕ → Outcome (Unit {0})
within_means threshold d value = do
  fail_if (ltb d.available_borrows_base value) insufficient_collateral
  new_total_debt ← ok_or (checked_add d.total_debt_base value) math_overflow
  new_health_factor ←
      calculate_health_factor_u256 d.total_collateral_base d.current_liquidation_threshold
        new_total_debt
  fail_if (ltb new_health_factor threshold) health_factor_too_low

-- `.to_u128().unwrap_or(0)`
abbrev or_zero : ℕ → ℕ
or_zero n = elim (to_u128 n) [ none ↦ 0 | some v ↦ v ]

-- The health factor that the sum without the contribution of the withdrawn units gives.
unfoldable pub health_without : ℕ → ℕ → ℕ → Outcome ℕ
health_without weighted_sum contribution debt = do
  a ← u256_mul (weighted_sum - contribution) wad
  b ← u256_div a 10_000
  c ← u256_div b debt
  ok (or_zero c)

-- The parameters of the account with the asset's price fetched too.
abbrev pub with_asset : Address → AccountDataParams
with_asset asset = record default_params { extra_assets = asset ∷ [] }

-- The same with the user's configuration given.
abbrev pub with_config : Address → UserConfiguration → AccountDataParams
with_config asset c = record default_params { user_config = some c; extra_assets = asset ∷ [] }

module _ {U : Type 0} (env : Env U) (w : World U) (user asset : Address) (amount : ℕ) where
  unfoldable pub validate_user_can_borrow : ReserveData → ℕ → Outcome Pool
  unfolding within_means
  validate_user_can_borrow r oracle_to_wad = do
    ((d, prices), p) ← calculate_user_account_data_with_prices env w user (asset ∷ [])
    price ← price_in prices asset
    decimals_pow ← pow_ten (get_decimals r.configuration)
    fail_if (decimals_pow == 0) math_overflow
    value ← value_in_base amount price oracle_to_wad decimals_pow
    within_means p.health_factor_liquidation_threshold d value
    ok p

  abbrev leaves_healthy : ReserveData → ℕ → AccountDataResult → Pool → Outcome (Unit {0})
  leaves_healthy r oracle_to_wad result p = do
    price ← price_in result.prices asset
    decimals_pow ← pow_ten (get_decimals r.configuration)
    fail_if (decimals_pow == 0) math_overflow
    let threshold = get_liquidation_threshold r.configuration
    contribution ← weighted_value amount price oracle_to_wad threshold decimals_pow
    new_health_factor ←
        health_without result.weighted_threshold_sum contribution
          result.account_data.total_debt_base
    fail_if (ltb new_health_factor p.health_factor_liquidation_threshold) health_factor_too_low

  -- Without debt everything may go.
  unfoldable pub check_withdrawal : ReserveData → ℕ → AccountDataResult → Pool → Outcome (Unit {0})
  unfolding health_without
  check_withdrawal r oracle_to_wad result p =
      if result.account_data.total_debt_base == 0
      then ok tt
      else leaves_healthy r oracle_to_wad result p

  unfoldable pub can_withdraw_collateral : UserConfiguration → ReserveData → ℕ → Outcome Pool
  unfolding check_withdrawal
  can_withdraw_collateral c r oracle_to_wad = do
    (result, p) ← calculate_user_account_data_unified env w user (with_config asset c)
    check_withdrawal r oracle_to_wad result p
    ok p

  unfoldable pub validate_user_can_withdraw : ReserveData → ℕ → Outcome Pool
  unfolding can_withdraw_collateral
  validate_user_can_withdraw r oracle_to_wad = do
    let c = get_user_configuration w.pool user
    reserve_id ← safe_reserve_id r.id
    if is_using_as_collateral c reserve_id
        then can_withdraw_collateral c r oracle_to_wad
        else ok w.pool
