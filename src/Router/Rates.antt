-- ===== src/Router/Rates.antt =====
-- What the pool reads of the tokens and the rates that it then sets (`get_scaled_total_supply` to
-- `get_protocol_reserves` and `calculate_interest_rates_for_reserve`,
-- `update_interest_rates_and_store` in src/calculation.rs).
use k.Base.{
  ℕ, ◌-◌, ltb, if◌then◌else◌, Option, none, some, Result, ok, panic, host, ok_or, fail_if, ◌>>=◌,
  ◌>>◌,
}
use k.Base.Int.{ℤ, pos, ltb_ℤ}
use k.Shared.Errors.{
  TokenError, token_call_failed, math_overflow, underlying_transfer_failed, invalid_amount,
}
use k.Shared.Host.{Address}
use k.Shared.RayMath.{ray_mul}
use k.Shared.ReserveConfig.{get_reserve_factor}
use k.Shared.Signed.{safe_i128_to_u128}
use k.Shared.Wide.{checked_sub}
use k.RateStrategy.Curve.{CalculatedRates}
use k.RateStrategy.Admin.{calculate_interest_rates}
use k.AToken.Balance as ABalance
use k.DebtToken.Balance as DBalance
use k.Router.Accrual.{ReserveData, Outcome, get_reserve_data, set_reserve_data, update_state}
use k.Router.State.{
  a_token, debt_token, rate_strategy, Contracts, Pool, World, Env, caught, rate_strategy_at,
}

-- Both tokens answer `scaled_total_supply`.
unfoldable pub scaled_total_at : Contracts → Address → Result TokenError ℤ
scaled_total_at m address = elim (m address) [
  | some (a_token t) ↦ ABalance.scaled_total_supply t
  | some (debt_token t) ↦ DBalance.scaled_total_supply t
  | some (rate_strategy s) ↦ panic host
  | none ↦ panic host
]

unfoldable pub get_scaled_total_supply : Contracts → Address → Outcome ℕ
unfolding scaled_total_at
get_scaled_total_supply m token_address = do
  scaled_total_supply ← caught (scaled_total_at m token_address) token_call_failed
  fail_if (ltb_ℤ scaled_total_supply (pos 0)) math_overflow
  safe_i128_to_u128 scaled_total_supply

unfoldable pub get_total_supply_with_index : Contracts → Address → ℕ → Outcome ℕ
unfolding get_scaled_total_supply
get_total_supply_with_index m token_address index = do
  scaled ← get_scaled_total_supply m token_address
  ray_mul scaled index

-- A total whose scaled units are already known is not asked for again.
unfoldable pub total_with_index : Contracts → Option ℕ → Address → ℕ → Outcome ℕ
unfolding get_total_supply_with_index
total_with_index m (some scaled) token_address index = ray_mul scaled index
total_with_index m none token_address index = get_total_supply_with_index m token_address index

module _ {U : Type 0} where
  unfoldable pub get_atoken_underlying_balance : Env U → World U → Address → Address → Outcome ℕ
  get_atoken_underlying_balance env w underlying_asset a_token_address = do
    balance ←
        ok_or (env.balance underlying_asset a_token_address w.underlying) underlying_transfer_failed
    safe_i128_to_u128 balance

unfoldable pub available_of : ℕ → ℕ → Outcome ℕ
available_of total_supply total_debt =
    if ltb total_debt total_supply
    then ok_or (checked_sub total_supply total_debt) math_overflow
    else ok 0

abbrev ask_strategy : Contracts → ReserveData → Address → ℕ → ℕ → ℕ → Outcome CalculatedRates
ask_strategy m r asset available_liquidity total_debt reserve_factor = do
  strategy ← rate_strategy_at m r.interest_rate_strategy_address
  calculate_interest_rates strategy asset available_liquidity total_debt reserve_factor

-- (liquidity rate, variable borrow rate)
unfoldable pub calculate_interest_rates_for_reserve :
    Contracts → Address → ReserveData → Option ℕ → Option ℕ → Outcome (ℕ × ℕ)
unfolding total_with_index available_of
calculate_interest_rates_for_reserve m asset r known_a_scaled known_debt_scaled = do
  total_supply ← total_with_index m known_a_scaled r.a_token_address r.liquidity_index
  total_debt ← total_with_index m known_debt_scaled r.debt_token_address r.variable_borrow_index
  available_liquidity ← available_of total_supply total_debt
  let reserve_factor = get_reserve_factor r.configuration
  rates ←
      caught (ask_strategy m r asset available_liquidity total_debt reserve_factor) invalid_amount
  ok (rates.liquidity_rate, rates.variable_borrow_rate)

abbrev rated : ReserveData → ℕ × ℕ → ReserveData
rated r (liquidity_rate, borrow_rate) = record r {
  current_liquidity_rate = liquidity_rate;
  current_variable_borrow_rate = borrow_rate;
}

abbrev store_rated : Contracts → Address → ReserveData → Option ℕ → Option ℕ → Pool → Outcome Pool
store_rated m asset r known_a_scaled known_debt_scaled p = do
  rates ← calculate_interest_rates_for_reserve m asset r known_a_scaled known_debt_scaled
  ok (record p { reserves = set_reserve_data p.reserves asset (rated r rates) })

-- While a flash loan runs the rates stay as they are.
unfoldable pub update_interest_rates_and_store :
    Contracts → Address → ReserveData → Option ℕ → Option ℕ → Pool → Outcome Pool
update_interest_rates_and_store m asset r known_a_scaled known_debt_scaled p =
    if p.flash_loan_active
    then ok (record p { reserves = set_reserve_data p.reserves asset r })
    else store_rated m asset r known_a_scaled known_debt_scaled p

-- What lies in the deposit token beyond what suppliers may claim, less the recorded deficit. The
-- reserve is brought up to date first.
module _ {U : Type 0} where
  unfoldable pub get_protocol_reserves : Env U → Address → World U → Outcome (ℕ × World U)
  get_protocol_reserves env asset w = do
    r ← get_reserve_data w.pool.reserves asset
    (updated, reserves) ← update_state env.now asset r w.pool.reserves
    underlying_balance ← get_atoken_underlying_balance env w asset updated.a_token_address
    total_supply ←
        get_total_supply_with_index w.contracts updated.a_token_address updated.liquidity_index
    total_borrow ←
        get_total_supply_with_index w.contracts updated.debt_token_address
          updated.variable_borrow_index
    fail_if (ltb total_supply total_borrow) invalid_amount
    available_liquidity ← ok_or (checked_sub total_supply total_borrow) math_overflow
    raw_reserves ← available_of underlying_balance available_liquidity
    ok (
      raw_reserves - w.pool.reserve_deficit asset,
      record w { pool = record w.pool { reserves = reserves } },
    )
