-- ===== src/Router/State.antt =====
-- The pool's storage (contracts/kinetic-router/src/storage.rs), the contracts that it calls, and
-- what one invocation sees of the rest. An absent entry reads as the source's default.
use k.Base.{
  ℕ, ◌≡◌, ◌==◌, if◌then◌else◌, Bool, false, Option, none, List, [], Result, ok, err, panic,
  contract, host,
}
use k.Base.Int.{ℤ}
use k.Shared.Errors.{KineticRouterError}
use k.Shared.Host.{Address, Auth}
use k.Shared.UserConfig.{UserConfiguration}
use k.AToken.State as AState
use k.DebtToken.State as DState
use k.RateStrategy.Admin.{Strategy}
use k.Router.Accrual.{Reserves, Outcome}

-- `OracleConfig` of contracts/shared/src/types.rs
pub record OracleConfig : Type 0 where
  pub price_staleness_threshold : ℕ
  pub price_precision : ℕ
  pub wad_precision : ℕ
  pub conversion_factor : ℕ
  pub ltv_precision : ℕ
  pub basis_points : ℕ
  pub max_price_change_bps : ℕ

pub record PriceData : Type 0 where
  pub price : ℕ
  pub timestamp : ℕ

-- A list of addresses with the flag that says whether it has members.
pub record AccessList : Type 0 where
  pub flagged : Bool
  pub members : List Address

pub record Pool : Type 0 where
  pub initialized : Bool
  pub pool_admin : Option Address
  pub pending_pool_admin : Option Address
  pub emergency_admin : Option Address
  pub pending_emergency_admin : Option Address
  pub pool_configurator : Option Address
  pub price_oracle : Option Address
  pub cached_oracle_config : Option OracleConfig
  pub treasury : Option Address
  pub dex_router : Option Address
  pub incentives_contract : Option Address
  pub flash_liquidation_helper : Option Address
  pub admin : Option Address
  pub pending_admin : Option Address
  pub paused : Bool
  pub protocol_locked : Bool
  pub flash_loan_active : Bool
  pub reserves : Reserves
  pub reserve_debt_ceiling : Address → ℕ
  pub reserve_deficit : Address → ℕ
  pub user_configuration : Address → UserConfiguration
  pub reserves_list : List Address
  pub next_reserve_id : ℕ
  pub reserve_address_by_id : ℕ → Option Address
  pub reserve_whitelist : Address → AccessList
  pub reserve_blacklist : Address → AccessList
  pub liquidation_whitelist : AccessList
  pub liquidation_blacklist : AccessList
  pub swap_handler_whitelist : AccessList
  pub flash_loan_premium : ℕ
  pub flash_loan_premium_max : ℕ
  pub flash_liquidation_premium : ℕ
  pub health_factor_liquidation_threshold : ℕ
  pub partial_liquidation_hf_threshold : ℕ
  pub min_swap_output_bps : ℕ
  pub liquidation_price_tolerance_bps : ℕ
  pub price_staleness_threshold : ℕ
  pub asset_staleness_threshold : Address → Option ℕ

abbrev pub open_list : AccessList
open_list = record { flagged = false; members = [] }

-- Storage that nothing has been written to: every read gives its default.
abbrev pub blank_pool : Pool
blank_pool = record {
  initialized = false;
  pool_admin = none;
  pending_pool_admin = none;
  emergency_admin = none;
  pending_emergency_admin = none;
  pool_configurator = none;
  price_oracle = none;
  cached_oracle_config = none;
  treasury = none;
  dex_router = none;
  incentives_contract = none;
  flash_liquidation_helper = none;
  admin = none;
  pending_admin = none;
  paused = false;
  protocol_locked = false;
  flash_loan_active = false;
  reserves = λ a. none;
  reserve_debt_ceiling = λ a. 0;
  reserve_deficit = λ a. 0;
  user_configuration = λ a. record { bits = 0 };
  reserves_list = [];
  next_reserve_id = 0;
  reserve_address_by_id = λ i. none;
  reserve_whitelist = λ a. open_list;
  reserve_blacklist = λ a. open_list;
  liquidation_whitelist = open_list;
  liquidation_blacklist = open_list;
  swap_handler_whitelist = open_list;
  flash_loan_premium = 30;
  flash_loan_premium_max = 100;
  flash_liquidation_premium = 0;
  health_factor_liquidation_threshold = 1_000_000_000_000_000_000;
  partial_liquidation_hf_threshold = 500_000_000_000_000_000;
  min_swap_output_bps = 9800;
  liquidation_price_tolerance_bps = 300;
  price_staleness_threshold = 3600;
  asset_staleness_threshold = λ a. none;
}

-- The contracts of this repository that the pool's operations call.
pub data Contract : Type 0 where
  a_token : AState.Token → Contract
  debt_token : DState.DebtToken → Contract
  rate_strategy : Strategy → Contract

abbrev pub Contracts : Type 0
Contracts = Address → Option Contract

-- `U` is the storage of the underlying tokens, whose code is not part of the repository.
pub record World (U : Type 0) : Type 0 where
  pub pool : Pool
  pub contracts : Contracts
  pub underlying : U

-- What a call of an outside contract answers: a value, an error or a value of another type, or
-- nothing because the call itself failed.
pub data Answer (A : Type 0) : Type 0 where
  answered : A → Answer A
  malformed : Answer A
  failed : Answer A

-- One invocation: the signatures, the ledger, the pool's own address, and the outside contracts.
-- `transfer_from asset spender from to amount` and `transfer asset from to amount` give the new
-- storage of the underlying tokens, or `none` where the call fails.
pub record Env (U : Type 0) : Type 0 where
  pub auth : Auth
  pub now : ℕ
  pub self : Address
  pub transfer_from : Address → Address → Address → Address → ℤ → U → Option U
  pub transfer : Address → Address → Address → ℤ → U → Option U
  pub balance : Address → Address → U → Option ℤ
  pub asset_prices : Address → List Address → Answer (List PriceData)
  pub oracle_config : Address → Answer OracleConfig

-- `try_invoke_contract` where every failure gives the same error: errors and traps of the callee
-- are both caught.
abbrev pub caught : {E A : Type 0} → Result E A → KineticRouterError → Outcome A
caught (ok a) e = ok a
caught (err d) e = err e
caught (panic p) e = err e

pub caught-eq-ok :
    {E A : Type 0} (m : Result E A) (e : KineticRouterError) {a : A} → caught m e ≡ ok a → m ≡ ok a
caught-eq-ok (ok b) e h = cc
caught-eq-ok (err d) e h = cc
caught-eq-ok (panic p) e h = cc

-- `panic_with_error!` where the test holds.
abbrev pub panic_if : {E : Type 0} → Bool → ℕ → Result E (Unit {0})
panic_if b code = if b then panic (contract code) else ok tt

-- A call of an address that is not the named contract traps.
unfoldable pub a_token_at : {E : Type 0} → Contracts → Address → Result E AState.Token
a_token_at m a = elim (m a) [ Option.some (a_token t) ↦ ok t | _ ↦ panic host ]

unfoldable pub debt_token_at : {E : Type 0} → Contracts → Address → Result E DState.DebtToken
debt_token_at m a = elim (m a) [ Option.some (debt_token t) ↦ ok t | _ ↦ panic host ]

unfoldable pub rate_strategy_at : {E : Type 0} → Contracts → Address → Result E Strategy
rate_strategy_at m a = elim (m a) [ Option.some (rate_strategy s) ↦ ok s | _ ↦ panic host ]

unfoldable pub set_contract : Contracts → Address → Contract → Contracts
set_contract m a c = λ b. if b == a then Option.some c else m b

abbrev pub get_user_configuration : Pool → Address → UserConfiguration
get_user_configuration p user = p.user_configuration user

unfoldable pub set_user_configuration : Pool → Address → UserConfiguration → Pool
set_user_configuration p user c = record p {
  user_configuration = λ a. if a == user then c else p.user_configuration a;
}
