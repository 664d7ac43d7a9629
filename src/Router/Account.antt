-- ===== src/Router/Account.antt =====
-- The account of a user (`calculate_user_account_data_unified` and its parameters in
-- src/calculation.rs): the user's active positions, their prices and balances, and the totals.
pub mod Data
use k.Base.{
  ℕ, zero, suc, ◌+◌, ◌-◌, ◌==◌, ltb, leb, if◌then◌else◌, Bool, true, false, ◌||◌, Option, none,
  some, List, [], ◌∷◌, ◌++◌, map, ok, err, ok_or, fail_if, ◌>>=◌, ◌>>◌,
}
use k.Base.Int.{ℤ}
use k.Shared.Constants.{max_reserves, calculate_oracle_to_wad_factor}
use k.Shared.Errors.{price_oracle_not_found, token_call_failed, math_overflow}
use k.Shared.Host.{Address}
use k.Shared.ReserveConfig.{get_decimals_pow, get_liquidation_threshold, get_ltv}
use k.Shared.Signed.{safe_reserve_id, safe_i128_to_u128}
use k.Shared.UserConfig.{UserConfiguration, is_using_as_collateral, is_borrowing}
use k.Shared.Wide.{
  checked_add, checked_mul, checked_sub, checked_div, u256_mul, u256_add, u256_sub, u256_div,
  narrow,
}
use k.Router.Accrual.{ReserveData, Outcome, get_current_variable_borrow_index_with_data}
use k.Router.State.{Pool, World, Env, caught}
use k.Router.Price.{Prices, get_prices_for_assets, get_oracle_config, no_prices, set_price}
use k.Router.Calls.{deposit_of, debt_of_user}
use k.Router.Value.{value_in_base, calculate_health_factor_u256}

pub record UserAccountData : Type 0 where
  pub total_collateral_base : ℕ
  pub total_debt_base : ℕ
  pub available_borrows_base : ℕ
  pub current_liquidation_threshold : ℕ
  pub ltv : ℕ
  pub health_factor : ℕ

-- Balances that are already known: (collateral, debt) for an asset.
abbrev pub Balances : Type 0
Balances = Address → Option (ℕ × ℕ)

pub record AccountDataParams : Type 0 where
  pub known_reserves : Option (Address → Option ReserveData)
  pub known_prices : Option Prices
  pub known_balances : Option Balances
  pub user_config : Option UserConfiguration
  pub extra_assets : List Address

abbrev pub default_params : AccountDataParams
default_params = record {
  known_reserves = none;
  known_prices = none;
  known_balances = none;
  user_config = none;
  extra_assets = [];
}

abbrev pub Position : Type 0
Position = Address × ReserveData

-- Known data first, storage where it is missing.
abbrev reserve_for : Pool → AccountDataParams → Address → Option ReserveData
reserve_for p params asset = elim params.known_reserves [
  | none ↦ p.reserves asset
  | some known ↦ elim (known asset) [ some r ↦ some r | none ↦ p.reserves asset ]
]

abbrev position_at : Pool → AccountDataParams → ℕ → Option Position
position_at p params reserve_id = elim (p.reserve_address_by_id reserve_id) [
  | none ↦ none
  | some asset ↦ elim (reserve_for p params asset) [ none ↦ none | some r ↦ some (asset, r) ]
]

abbrev add_position : Option Position → List Position → List Position
add_position none rest = rest
add_position (some position) rest = position ∷ rest

-- The loop over the reserve ids from `reserve_id`, `rounds` of them.
unfoldable pub active_positions :
    Pool → AccountDataParams → UserConfiguration → ℕ → ℕ → List Position
active_positions p params c zero reserve_id = []
active_positions p params c (suc rounds) reserve_id =
    let rest = active_positions p params c rounds (reserve_id + 1) in
    if is_using_as_collateral c reserve_id || is_borrowing c reserve_id
    then add_position (position_at p params reserve_id) rest
    else rest

abbrev is_in : Address → List Address → Bool
is_in asset [] = false
is_in asset (a ∷ l) = let later = is_in asset l in if asset == a then true else later

-- The assets of the positions that are not among the extra ones.
abbrev not_extra : List Address → List Position → List Address
not_extra extras [] = []
not_extra extras ((asset, r) ∷ l) =
    let rest = not_extra extras l in if is_in asset extras then rest else asset ∷ rest

abbrev missing_from : Prices → List Address → List Address
missing_from known [] = []
missing_from known (asset ∷ l) =
    let rest = missing_from known l in
    elim (known asset) [ none ↦ asset ∷ rest | some price ↦ rest ]

abbrev merge : List Address → Prices → Prices → Prices
merge [] found known = known
merge (asset ∷ l) found known = elim (found asset) [
  | none ↦ merge l found known
  | some price ↦ merge l found (set_price asset price known)
]

abbrev known_balances_of : AccountDataParams → Balances
known_balances_of params = elim params.known_balances [ none ↦ (λ asset. none) | some b ↦ b ]

-- The four sums of the loop over the positions.
pub record Totals : Type 0 where
  pub collateral : ℕ
  pub debt : ℕ
  pub weighted_threshold : ℕ
  pub weighted_ltv : ℕ

abbrev pub no_totals : Totals
no_totals = record { collateral = 0; debt = 0; weighted_threshold = 0; weighted_ltv = 0 }

-- amount * price * oracle_to_wad * weight / 10^decimals
unfoldable pub weighted_value : ℕ → ℕ → ℕ → ℕ → ℕ → Outcome ℕ
weighted_value amount price oracle_to_wad weight decimals_pow = do
  a ← u256_mul amount price
  b ← u256_mul a oracle_to_wad
  c ← u256_mul b weight
  d ← u256_div c decimals_pow
  narrow d

-- The price of an asset, which must be there and not 0.
unfoldable pub price_in : Prices → Address → Outcome ℕ
price_in prices asset = do
  price ← ok_or (prices asset) price_oracle_not_found
  fail_if (price == 0) price_oracle_not_found
  ok price

abbrev collateral_value : Prices → ℕ → ℕ → Position → ℕ → Totals → Outcome Totals
collateral_value prices oracle_to_wad decimals_pow (asset, r) balance t = do
  price ← price_in prices asset
  value ← value_in_base balance price oracle_to_wad decimals_pow
  collateral ← ok_or (checked_add t.collateral value) math_overflow
  let threshold = get_liquidation_threshold r.configuration
  threshold_value ← weighted_value balance price oracle_to_wad threshold decimals_pow
  weighted_threshold ← ok_or (checked_add t.weighted_threshold threshold_value) math_overflow
  ltv_value ← weighted_value balance price oracle_to_wad (get_ltv r.configuration) decimals_pow
  weighted_ltv ← ok_or (checked_add t.weighted_ltv ltv_value) math_overflow
  ok (record t {
    collateral = collateral;
    weighted_threshold = weighted_threshold;
    weighted_ltv = weighted_ltv;
  })

unfoldable pub add_collateral : Prices → ℕ → ℕ → Position → ℕ → Totals → Outcome Totals
add_collateral prices oracle_to_wad decimals_pow position balance t =
    if balance == 0
    then ok t
    else collateral_value prices oracle_to_wad decimals_pow position balance t

abbrev debt_value : Prices → ℕ → ℕ → Position → ℕ → Totals → Outcome Totals
debt_value prices oracle_to_wad decimals_pow (asset, r) balance t = do
  price ← price_in prices asset
  value ← value_in_base balance price oracle_to_wad decimals_pow
  debt ← ok_or (checked_add t.debt value) math_overflow
  ok (record t { debt = debt })

unfoldable pub add_debt : Prices → ℕ → ℕ → Position → ℕ → Totals → Outcome Totals
add_debt prices oracle_to_wad decimals_pow position balance t =
    if balance == 0 then ok t else debt_value prices oracle_to_wad decimals_pow position balance t
