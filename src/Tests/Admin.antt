-- ===== src/Tests/Admin.antt =====
-- Administration, lists, caps and prices at a concrete pool.
use k.Base.{ℕ, ◌≡◌, ◌↔◌, ◌⊎◌, refl, arith, true, false, some, none, ok, List, [], ◌∷◌}
use k.Shared.Constants.{max_reserves}
use k.Shared.Host.{Auth, Address}
use k.Shared.Wide.{checked_add, narrow}
use k.DebtToken.Balance as DBalance
use k.DebtToken.State as DState
use k.Router.Accrual.{ReserveData, get_reserve_data, set_reserve_data}
use k.Router.State.{Pool, blank_pool, World, Env}
use k.Router.Access.{is_blacklisted, access_list}
use k.Router.Access.Lookup.{StandsBefore, is_blacklisted_iff}
use k.Router.Admin.{accept_role_admin, accept_pool_admin}
use k.Router.Admin.Governance as Governance
use k.Router.Admin.Governance.Setters.{IsBounded}
use k.Router.Admin.Governance.Roles.{pool_admin_changes, run-IsBounded}
use k.Router.Liquidation.{pow_ten}
use k.Router.Rates.{scaled_total_at}
use k.Router.Reserves.{
  InitReserveParams, init_reserve, validate_pool_configurator, validate_params, check_settings,
  check_sizes, add_reserve, fresh_reserve, init_configuration, drop_reserve,
}
use k.Router.Reserves.Ids.{HasIds}
use k.Router.Reserves.History as Reserves
use k.Tests.World.{pool, reserve, contracts, env, no_contracts}

abbrev all : Auth
all a = true

-- Admin 5 proposes 8, who accepts.
abbrev proposed : Pool
proposed = record pool { pending_pool_admin = some 8 }

abbrev accepted : Pool
accepted = record pool { pool_admin = some 8; pending_pool_admin = none }

accept_run : Governance.outcome all (Governance.Call.accept_pool 8) proposed ≡ ok accepted
unfolding Governance.outcome accept_pool_admin accept_role_admin
accept_run = refl

pool_admin_changes_example :
    ((accepted.pool_admin ≡ proposed.pool_admin) × (accepted.initialized ≡ proposed.initialized))
    ⊎ ((a : Address) × (all a ≡ true)
        × (accepted.pool_admin ≡ some a)
        × (((proposed.pending_pool_admin ≡ some a) × (accepted.initialized ≡ proposed.initialized))
            ⊎ ((proposed.initialized ≡ false) × (accepted.initialized ≡ true))))
pool_admin_changes_example =
    pool_admin_changes all (Governance.Call.accept_pool 8) proposed accepted accept_run

-- The set-up, changes of the swap floor and of the age of the asset's price, and one that is refused.
abbrev changes : List (Auth × Governance.Call)
changes =
    (all, Governance.Call.initialize_call 5 6 7 8 9 none)
    ∷ (all, Governance.Call.set_param Governance.Param.min_swap_output 9500)
    ∷ (all, Governance.Call.set_staleness_of 9 600)
    ∷ (all, Governance.Call.set_param Governance.Param.min_swap_output 8000)
    ∷ []

run-IsBounded_example : IsBounded 9 (Governance.run blank_pool changes)
run-IsBounded_example = run-IsBounded 9 changes

abbrev settings : InitReserveParams
settings = record {
  decimals = 7;
  ltv = 7500;
  liquidation_threshold = 8000;
  liquidation_bonus = 500;
  reserve_factor = 1000;
  supply_cap = 0;
  borrow_cap = 0;
  borrowing_enabled = true;
  flashloan_enabled = true;
}

-- Address 5 is the configurator of a pool without reserves.
abbrev fresh : World ℕ
fresh = record {
  pool = record blank_pool { pool_configurator = some 5 };
  contracts = no_contracts;
  underlying = 0;
}

fresh-HasIds : HasIds fresh.pool
fresh-HasIds = record {
  few = omega arith;
  given = λ a r e. absurd (cc);
  indexed = λ a r e. absurd (cc);
}

abbrev listings : List (Env ℕ × Reserves.Call)
listings =
    (env, Reserves.Call.init_call 5 9 11 12 13 settings)
    ∷ (env, Reserves.Call.init_call 5 10 21 22 13 settings)
    ∷ (env, Reserves.Call.drop_call 5 9)
    ∷ []

both_listed : (Reserves.run fresh listings).pool.next_reserve_id ≡ 2
unfolding Reserves.run Reserves.outcome init_reserve validate_pool_configurator validate_params
    check_settings check_sizes add_reserve fresh_reserve init_configuration drop_reserve
    get_reserve_data set_reserve_data scaled_total_at pow_ten narrow checked_add
both_listed = refl

run-HasIds_example : HasIds (Reserves.run fresh listings).pool
run-HasIds_example = Reserves.run-HasIds fresh listings fresh-HasIds

is_blacklisted_iff_example :
    (is_blacklisted (access_list (3 ∷ 4 ∷ [])) 4 ≡ true) ↔ StandsBefore max_reserves (3 ∷ 4 ∷ []) 4
is_blacklisted_iff_example = is_blacklisted_iff (3 ∷ 4 ∷ []) 4

abbrev borrow_capped : ReserveData
borrow_capped = record reserve { configuration = record reserve.configuration { data_high = 3 } }
