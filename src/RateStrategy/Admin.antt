-- ===== src/RateStrategy/Admin.antt =====
-- The contract's storage and entry points (src/storage.rs and src/contract.rs). `auth` are the
-- addresses that have authorised the call; events are left out.
use k.Base.{
  ℕ, ◌==◌, if◌then◌else◌, not, Bool, true, false, Option, none, some, Result, ok, ok_or, fail_if,
  ◌>>=◌, ◌>>◌,
}
use k.Shared.Errors.{
  KineticRouterError, already_initialized, not_initialized, no_pending_admin, unauthorized,
  invalid_pending_admin,
}
use k.Shared.Host.{Address, Auth, require_auth}
use k.RateStrategy.Curve.{
  InterestRateParams, validate_interest_rate_params, CalculatedRates, calculate_with,
}

pub record Strategy : Type 0 where
  pub initialized : Bool
  pub admin : Option Address
  pub pending_admin : Option Address
  pub params : InterestRateParams
  pub asset_params : Address → Option InterestRateParams

abbrev pub Outcome : Type 0 → Type 0
Outcome A = Result KineticRouterError A

-- Storage before `initialize`: absent rates read as 0.
abbrev pub blank : Strategy
blank = record {
  initialized = false;
  admin = none;
  pending_admin = none;
  params = record {
    base_variable_borrow_rate = 0;
    variable_rate_slope1 = 0;
    variable_rate_slope2 = 0;
    optimal_utilization_rate = 0;
  };
  asset_params = λ _. none;
}

unfoldable pub get_admin : Strategy → Outcome Address
get_admin s = ok_or s.admin not_initialized

unfoldable pub get_pending_admin : Strategy → Outcome Address
get_pending_admin s = ok_or s.pending_admin no_pending_admin

unfoldable pub validate_admin : Strategy → Address → Outcome (Unit {0})
unfolding get_admin
validate_admin s caller = do admin ← get_admin s; fail_if (not (caller == admin)) unauthorized

unfoldable pub set_asset_params :
    (Address → Option InterestRateParams)
    → Address
    → InterestRateParams
    → Address
    → Option InterestRateParams
set_asset_params table asset params a = if a == asset then some params else table a

unfoldable pub initialize : Address → InterestRateParams → Strategy → Outcome Strategy
initialize admin params s = do
  fail_if s.initialized already_initialized
  validate_interest_rate_params params
  ok (record s { admin = some admin; params = params; initialized = true })

-- The asset's own parameters, or the contract's.
unfoldable pub params_for : Strategy → Address → InterestRateParams
params_for s asset = elim (s.asset_params asset) [ some p ↦ p | none ↦ s.params ]

unfoldable pub calculate_interest_rates : Strategy → Address → ℕ → ℕ → ℕ → Outcome CalculatedRates
unfolding params_for
calculate_interest_rates s asset available_liquidity total_variable_debt reserve_factor =
    calculate_with (params_for s asset) available_liquidity total_variable_debt reserve_factor

unfoldable pub update_interest_rate_params :
    Auth → Address → InterestRateParams → Strategy → Outcome Strategy
unfolding validate_admin
update_interest_rate_params auth caller new_params s = do
  validate_admin s caller
  require_auth auth caller
  validate_interest_rate_params new_params
  ok (record s { params = new_params })

unfoldable pub set_asset_interest_rate_params :
    Auth → Address → Address → InterestRateParams → Strategy → Outcome Strategy
unfolding validate_admin set_asset_params
set_asset_interest_rate_params auth caller asset params s = do
  validate_admin s caller
  require_auth auth caller
  validate_interest_rate_params params
  ok (record s { asset_params = set_asset_params s.asset_params asset params })

unfoldable pub propose_admin : Auth → Address → Address → Strategy → Outcome Strategy
unfolding validate_admin
propose_admin auth caller pending_admin s = do
  validate_admin s caller
  require_auth auth caller
  ok (record s { pending_admin = some pending_admin })

unfoldable pub accept_admin : Auth → Address → Strategy → Outcome Strategy
unfolding get_pending_admin get_admin
accept_admin auth caller s = do
  pending_admin ← get_pending_admin s
  fail_if (not (caller == pending_admin)) invalid_pending_admin
  require_auth auth caller
  previous_admin ← get_admin s
  ok (record s { admin = some caller; pending_admin = none })

unfoldable pub cancel_admin_proposal : Auth → Address → Strategy → Outcome Strategy
unfolding validate_admin get_pending_admin
cancel_admin_proposal auth caller s = do
  validate_admin s caller
  require_auth auth caller
  cancelled_pending ← get_pending_admin s
  ok (record s { pending_admin = none })
