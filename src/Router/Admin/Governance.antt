-- ===== src/Router/Admin/Governance.antt =====
-- Administrative calls of the pool, and histories of them: the set-up, pausing, the hand-over of the
-- pool admin's and the emergency admin's role, the setters of src/params.rs but that of the incentives
-- contract, and those of src/access_control.rs. The upgrade admin's calls, the exchange's addresses,
-- the flushing of the oracle's configuration, `sync_access_control_flags`, the calls of src/reserve.rs
-- and src/treasury.rs are not among them.
pub mod Setters
pub mod Roles
use k.Base.{
  ℕ, ◌≤◌, ◌<◌, ◌≡◌, refl, arith, Bool, true, false, Option, none, some, ok, err, panic, List, [],
  ◌∷◌, inl, inr, ◌⊎◌, Option-cases, >>-ok_elim,
}
use k.Shared.Constants.{wad, basis_points}
use k.Shared.Host.{Address, Auth}
use k.Shared.Wide.{checked_add}
use k.Router.Accrual.{Outcome}
use k.Router.State.{Pool, blank_pool}
use k.Router.Access.{
  get_pool_admin, require_pool_admin, access_list, set_reserve_whitelist, set_reserve_blacklist,
  set_liquidation_whitelist, set_liquidation_blacklist, set_swap_handler_whitelist,
}
use k.Router.Admin.{
  initialize, validate_admin, validate_emergency_admin, pause, unpause, propose_role_admin,
  accept_role_admin, cancel_role_admin, propose_pool_admin, accept_pool_admin,
  cancel_pool_admin_proposal, propose_emergency_admin, accept_emergency_admin,
  cancel_emergency_admin_proposal,
}
use k.Router.Admin.Params.{
  set_flash_loan_premium, set_flash_loan_premium_max, set_flash_liquidation_premium,
  set_hf_liquidation_threshold, set_min_swap_output_bps, set_partial_liq_hf_threshold,
  set_price_staleness_threshold, set_asset_staleness_threshold, set_liquidation_price_tolerance,
  set_treasury, set_flash_liquidation_helper, set_pool_configurator, min_swap_output_floor_bps,
  min_price_staleness_threshold, max_price_staleness_threshold,
}

-- A parameter that takes a number.
pub data Param : Type 0 where
  flash_loan_premium flash_loan_premium_max flash_liquidation_premium : Param
  hf_threshold min_swap_output partial_hf_threshold price_staleness price_tolerance : Param

-- An address that is set, and a list.
pub data Target : Type 0 where
  treasury_target helper_target configurator_target : Target

pub data Listing : Type 0 where
  reserve_whitelist_of reserve_blacklist_of : Address → Listing
  liquidators liquidators_blocked swap_handlers : Listing

pub data Call : Type 0 where
  initialize_call : Address → Address → Address → Address → Address → Option Address → Call
  pause_call unpause_call : Address → Call
  propose_pool propose_emergency : Address → Address → Call
  accept_pool accept_emergency cancel_pool cancel_emergency : Address → Call
  set_param : Param → ℕ → Call
  set_staleness_of : Address → ℕ → Call
  set_target : Target → Address → Call
  set_list : Listing → List Address → Call

module _ (auth : Auth) where
  abbrev pub param_outcome : Param → ℕ → Pool → Outcome Pool
  param_outcome flash_loan_premium n p = set_flash_loan_premium auth n p
  param_outcome flash_loan_premium_max n p = set_flash_loan_premium_max auth n p
  param_outcome flash_liquidation_premium n p = set_flash_liquidation_premium auth n p
  param_outcome hf_threshold n p = set_hf_liquidation_threshold auth n p
  param_outcome min_swap_output n p = set_min_swap_output_bps auth n p
  param_outcome partial_hf_threshold n p = set_partial_liq_hf_threshold auth n p
  param_outcome price_staleness n p = set_price_staleness_threshold auth n p
  param_outcome price_tolerance n p = set_liquidation_price_tolerance auth n p

  abbrev pub target_outcome : Target → Address → Pool → Outcome Pool
  target_outcome treasury_target a p = set_treasury auth a p
  target_outcome helper_target a p = set_flash_liquidation_helper auth a p
  target_outcome configurator_target a p = set_pool_configurator auth a p

  abbrev pub list_outcome : Listing → List Address → Pool → Outcome Pool
  list_outcome (reserve_whitelist_of asset) l p = set_reserve_whitelist auth asset l p
  list_outcome (reserve_blacklist_of asset) l p = set_reserve_blacklist auth asset l p
  list_outcome liquidators l p = set_liquidation_whitelist auth l p
  list_outcome liquidators_blocked l p = set_liquidation_blacklist auth l p
  list_outcome swap_handlers l p = set_swap_handler_whitelist auth l p

  unfoldable pub outcome : Call → Pool → Outcome Pool
  outcome (initialize_call admin emergency oracle treasury router incentives) p =
      initialize auth admin emergency oracle treasury router incentives p
  outcome (pause_call caller) p = pause auth caller p
  outcome (unpause_call caller) p = unpause auth caller p
  outcome (propose_pool caller a) p = propose_pool_admin auth caller a p
  outcome (propose_emergency caller a) p = propose_emergency_admin auth caller a p
  outcome (accept_pool caller) p = accept_pool_admin auth caller p
  outcome (accept_emergency caller) p = accept_emergency_admin auth caller p
  outcome (cancel_pool caller) p = cancel_pool_admin_proposal auth caller p
  outcome (cancel_emergency caller) p = cancel_emergency_admin_proposal auth caller p
  outcome (set_param param n) p = param_outcome param n p
  outcome (set_staleness_of asset n) p = set_asset_staleness_threshold auth asset n p
  outcome (set_target target a) p = target_outcome target a p
  outcome (set_list list l) p = list_outcome list l p

-- A call that fails leaves the storage as it was.
abbrev pub kept : Pool → Outcome Pool → Pool
kept p (ok p') = p'
kept p (err e) = p
kept p (panic f) = p

unfoldable pub run : Pool → List (Auth × Call) → Pool
run p [] = p
run p ((auth, c) ∷ cs) = run (kept p (outcome auth c p)) cs
