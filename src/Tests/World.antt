-- ===== src/Tests/World.antt =====
-- A pool with one reserve and its tokens, and the runs that the examples use. Address 1 is the
-- pool, 2 an account, 9 the asset.
use k.Base.{ℕ, ◌+◌, ◌*◌, ◌^◌, ◌≡◌, refl, Bool, true, false, none, some, [], ◌∷◌, ok, err, panic}
use k.Base.Int.{pos}
use k.Shared.Constants.{ray}
use k.AToken.State as AState
use k.AToken.History as AHistory
use k.DebtToken.State as DState
use k.DebtToken.History as DHistory
use k.RateStrategy.Curve.{InterestRateParams}
use k.RateStrategy.Admin as Strategy
use k.Router.Accrual.{ReserveData, Outcome, set_reserve_data}
use k.Router.State.{
  OracleConfig, Pool, blank_pool, World, Env, Contracts, answered, a_token, debt_token,
  rate_strategy, set_contract,
}

-- 2% base, 4% up to 80%, 60% above.
abbrev pub curve : InterestRateParams
curve = record {
  base_variable_borrow_rate = 20_000_000_000_000_000_000_000_000;
  variable_rate_slope1 = 40_000_000_000_000_000_000_000_000;
  variable_rate_slope2 = 600_000_000_000_000_000_000_000_000;
  optimal_utilization_rate = 800_000_000_000_000_000_000_000_000;
}

abbrev pub strategy : Strategy.Strategy
strategy = record Strategy.blank { initialized = true; admin = some 5; params = curve }

-- Loan to value 75%, threshold 80%, bonus 5%, 7 decimals, active, borrowing, reserve factor 10%.
abbrev pub reserve : ReserveData
reserve = record {
  liquidity_index = ray;
  variable_borrow_index = ray;
  current_liquidity_rate = 0;
  current_variable_borrow_rate = 0;
  last_update_timestamp = 100;
  a_token_address = 11;
  debt_token_address = 12;
  interest_rate_strategy_address = 13;
  id = 0;
  configuration = record {
    data_low = 7500 + 8000 * 2 ^ 14 + 500 * 2 ^ 28 + 7 * 2 ^ 42 + 2 ^ 50 + 2 ^ 52 + 1000 * 2 ^ 57;
    data_high = 0;
  };
}

abbrev pub config : OracleConfig
config = record {
  price_staleness_threshold = 3600;
  price_precision = 14;
  wad_precision = 18;
  conversion_factor = 10_000;
  ltv_precision = 1_000_000_000_000_000_000;
  basis_points = 10_000;
  max_price_change_bps = 2000;
}

-- The asset is worth 1; its flag as collateral of account 2 is set.
abbrev pub pool : Pool
pool = record blank_pool {
  initialized = true;
  pool_admin = some 5;
  price_oracle = some 6;
  cached_oracle_config = some config;
  treasury = some 7;
  reserves = set_reserve_data (λ a. none) 9 reserve;
  reserves_list = 9 ∷ [];
  next_reserve_id = 1;
  reserve_address_by_id = λ i. some 9;
  user_configuration = λ a. record { bits = 1 };
}

abbrev pub deposits : AState.Token
deposits = record AHistory.blank {
  state = some (record {
    underlying_asset = 9;
    pool_address = 1;
    total_supply_scaled = pos 1_000_000;
    token_decimals = 7;
  });
  balances = (2, pos 1_000_000) ∷ [];
}

-- The debt token where account 2 owes `debt`.
abbrev pub debts : ℕ → DState.DebtToken
debts debt = record DHistory.blank {
  state =
      some (record {
        borrowed_asset = 9;
        pool_address = 1;
        total_debt_scaled = pos debt;
        decimals = 7;
      });
  debts = (2, debt) ∷ [];
}

abbrev pub no_contracts : Contracts
no_contracts a = none

abbrev pub strategy_only : Contracts
strategy_only = set_contract no_contracts 13 (rate_strategy strategy)

abbrev pub contracts : ℕ → Contracts
contracts debt =
    set_contract (set_contract strategy_only 11 (a_token deposits)) 12 (debt_token (debts debt))

-- The underlying tokens: account 11 has what was deposited and not lent.
abbrev pub world : ℕ → World ℕ
world debt = record { pool = pool; contracts = contracts debt; underlying = 0 }

-- Everyone has signed, transfers succeed, and a price is 1.
abbrev pub env : Env ℕ
env = record {
  auth = λ a. true;
  now = 100;
  self = 1;
  transfer_from = λ asset spender from to amount u. some u;
  transfer = λ asset from to amount u. some u;
  balance = λ asset account u. some (pos 900_000);
  asset_prices =
      λ oracle assets. answered (record { price = 100_000_000_000_000; timestamp = 90 } ∷ []);
  oracle_config = λ oracle. answered config;
}

abbrev pub succeeded : {A : Type 0} → Outcome A → Bool
succeeded (ok a) = true
succeeded (err e) = false
succeeded (panic p) = false

abbrev pub result : {A : Type 0} → A → Outcome A → A
result d (ok a) = a
result d (err e) = d
result d (panic p) = d

pub result_lem : {A : Type 0} (d : A) (m : Outcome A) → succeeded m ≡ true → m ≡ ok (result d m)
result_lem d (ok a) h = refl
result_lem d (err e) h = absurd (cc)
result_lem d (panic p) h = absurd (cc)
