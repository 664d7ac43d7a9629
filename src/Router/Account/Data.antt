-- ===== src/Router/Account/Data.antt =====
-- The loop of `calculate_user_account_data_unified` over the active positions, and what it makes of
-- the sums.
use k.Base.{
  ℕ, ◌==◌, leb, if◌then◌else◌, Bool, ◌||◌, Option, none, some, List, [], ◌∷◌, ◌++◌, ok, ok_or,
  ◌>>=◌,
}
use k.Shared.Constants.{max_reserves, calculate_oracle_to_wad_factor}
use k.Shared.Errors.{token_call_failed, math_overflow}
use k.Shared.Host.{Address}
use k.Shared.ReserveConfig.{get_decimals_pow}
use k.Shared.Signed.{safe_reserve_id, safe_i128_to_u128}
use k.Shared.UserConfig.{UserConfiguration, is_using_as_collateral, is_borrowing}
use k.Shared.Wide.{checked_mul, checked_sub, checked_div, u256_add, u256_sub, u256_div, narrow}
use k.Router.Accrual.{ReserveData, Outcome, get_current_variable_borrow_index_with_data}
use k.Router.State.{Pool, World, Env, caught, get_user_configuration}
use k.Router.Price.{Prices, get_prices_for_assets, get_oracle_config}
use k.Router.Calls.{deposit_of, debt_of_user}
use k.Router.Value.{calculate_health_factor_u256}
use k.Router.Account.{
  UserAccountData, Balances, AccountDataParams, default_params, Position, active_positions,
  not_extra, missing_from, merge, known_balances_of, Totals, no_totals, add_collateral, add_debt,
}

pub record AccountDataResult : Type 0 where
  pub account_data : UserAccountData
  pub prices : Prices
  pub balance_cache : Balances
  pub weighted_threshold_sum : ℕ

-- The quotient rounded up, in `U256`.
unfoldable pub ceiling : ℕ → ℕ → Outcome ℕ
ceiling sum total = do a ← u256_add sum total; b ← u256_sub a 1; c ← u256_div b total; narrow c

unfoldable pub floor : ℕ → ℕ → Outcome ℕ
floor sum total = do a ← u256_div sum total; narrow a

abbrev pub unless_zero : ℕ → Outcome ℕ → Outcome ℕ
unless_zero total quotient = if total == 0 then ok 0 else quotient

abbrev left_to_borrow : ℕ → ℕ → Outcome ℕ
left_to_borrow max_borrow debt =
    if debt == 0
    then ok max_borrow
    else if leb debt max_borrow
    then ok_or (checked_sub max_borrow debt) math_overflow
    else ok 0

-- What may still be borrowed: the collateral at its loan to value, less the debt, at least 0.
unfoldable pub available_borrows : ℕ → ℕ → ℕ → Outcome ℕ
available_borrows collateral ltv debt = do
  product ← ok_or (checked_mul collateral ltv) math_overflow
  max_borrow ← ok_or (checked_div product 10_000) math_overflow
  left_to_borrow max_borrow debt

unfoldable pub account_data_of : Totals → Outcome UserAccountData
unfolding ceiling floor available_borrows
account_data_of t = do
  threshold ← unless_zero t.collateral (ceiling t.weighted_threshold t.collateral)
  ltv ← unless_zero t.collateral (floor t.weighted_ltv t.collateral)
  health_factor ← calculate_health_factor_u256 t.collateral threshold t.debt
  available ← available_borrows t.collateral ltv t.debt
  ok (record {
    total_collateral_base = t.collateral;
    total_debt_base = t.debt;
    available_borrows_base = available;
    current_liquidation_threshold = threshold;
    ltv = ltv;
    health_factor = health_factor;
  })

abbrev remember : Option (ℕ × ℕ) → Bool → Address → ℕ × ℕ → Balances → Balances
remember (some known) active asset balances cache = cache
remember none active asset balances cache =
    if active then (λ a. if a == asset then some balances else cache a) else cache

module _ {U : Type 0} (env : Env U) (w : World U) (user : Address) where
  abbrev collateral_balance : Option (ℕ × ℕ) → ReserveData → Outcome ℕ
  collateral_balance (some (collateral, debt)) r = ok collateral
  collateral_balance none r = do
    balance ← caught (deposit_of w r.a_token_address user r.liquidity_index) token_call_failed
    safe_i128_to_u128 balance

  abbrev debt_balance : Option (ℕ × ℕ) → ReserveData → Outcome ℕ
  debt_balance (some (collateral, debt)) r = ok debt
  debt_balance none r = do
    index ← get_current_variable_borrow_index_with_data env.now r
    balance ← caught (debt_of_user w r.debt_token_address user index) token_call_failed
    safe_i128_to_u128 balance

  -- One round: the position's balances, as far as the user's flags ask for them, go into the sums.
  unfoldable pub add_active :
      UserConfiguration → Prices → ℕ → Position → Totals × Balances → Outcome (Totals × Balances)
  add_active c prices oracle_to_wad (asset, r) (t, cache) = do
    decimals_pow ← get_decimals_pow r.configuration
    reserve_id ← safe_reserve_id r.id
    let is_collateral = is_using_as_collateral c reserve_id
    let borrowing = is_borrowing c reserve_id
    collateral ← if is_collateral then collateral_balance (cache asset) r else ok 0
    t' ← add_collateral prices oracle_to_wad decimals_pow (asset, r) collateral t
    debt ← if borrowing then debt_balance (cache asset) r else ok 0
    let cache' = remember (cache asset) (is_collateral || borrowing) asset (collateral, debt) cache
    t'' ← add_debt prices oracle_to_wad decimals_pow (asset, r) debt t'
    ok (t'', cache')

  unfoldable pub position_totals :
      UserConfiguration
      → Prices
      → ℕ
      → List Position
      → Totals × Balances
      → Outcome (Totals × Balances)
  unfolding add_active
  position_totals c prices oracle_to_wad [] sums = ok sums
  position_totals c prices oracle_to_wad (position ∷ rest) sums = do
    sums' ← add_active c prices oracle_to_wad position sums
    position_totals c prices oracle_to_wad rest sums'

  abbrev merged : Pool → Prices → List Address → List Address → Outcome Prices
  merged p known assets [] = ok known
  merged p known assets (asset ∷ missing) = do
    found ← get_prices_for_assets env p (asset ∷ missing)
    ok (merge (asset ∷ missing) found known)

  abbrev price_all : Pool → AccountDataParams → List Address → Outcome Prices
  price_all p params assets = elim params.known_prices [
    | none ↦ get_prices_for_assets env p assets
    | some known ↦ merged p known assets (missing_from known assets)
  ]

  abbrev config_for : Pool → AccountDataParams → UserConfiguration
  config_for p params = elim params.user_config [
    | none ↦ get_user_configuration p user
    | some c ↦ c
  ]

  abbrev iteration_bound : Pool → ℕ
  iteration_bound p = if leb p.next_reserve_id max_reserves then p.next_reserve_id else max_reserves

  -- The sums over the active positions, and the prices.
  unfoldable pub account_sums :
      AccountDataParams → ℕ → Pool → Outcome ((Totals × Balances) × Prices)
  unfolding position_totals
  account_sums params oracle_to_wad p = do
    let c = config_for p params
    let positions = active_positions p params c (iteration_bound p) 0
    prices ← price_all p params (params.extra_assets ++ not_extra params.extra_assets positions)
    sums ← position_totals c prices oracle_to_wad positions (no_totals, known_balances_of params)
    ok (sums, prices)

  -- The account at the prices' scale.
  unfoldable pub account_result : AccountDataParams → ℕ → Pool → Outcome AccountDataResult
  unfolding account_sums account_data_of
  account_result params oracle_to_wad p = do
    ((totals, balances), prices) ← account_sums params oracle_to_wad p
    account_data ← account_data_of totals
    ok (record {
      account_data = account_data;
      prices = prices;
      balance_cache = balances;
      weighted_threshold_sum = totals.weighted_threshold;
    })

  -- The oracle's configuration may be cached on the way; nothing else is written.
  unfoldable pub calculate_user_account_data_unified :
      AccountDataParams → Outcome (AccountDataResult × Pool)
  unfolding account_result
  calculate_user_account_data_unified params = do
    (oracle_config, p) ← get_oracle_config env w.pool
    result ← account_result params (calculate_oracle_to_wad_factor oracle_config.price_precision) p
    ok (result, p)

  unfoldable pub calculate_user_account_data : Outcome (UserAccountData × Pool)
  unfolding calculate_user_account_data_unified
  calculate_user_account_data = do
    (result, p) ← calculate_user_account_data_unified default_params
    ok (result.account_data, p)

  unfoldable pub calculate_user_account_data_with_prices :
      List Address → Outcome ((UserAccountData × Prices) × Pool)
  unfolding calculate_user_account_data_unified
  calculate_user_account_data_with_prices extra = do
    (result, p) ←
        calculate_user_account_data_unified (record default_params { extra_assets = extra })
    ok ((result.account_data, result.prices), p)
