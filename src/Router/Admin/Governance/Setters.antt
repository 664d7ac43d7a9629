-- ===== src/Router/Admin/Governance/Setters.antt =====
-- What the pool admin's setters (src/params.rs, src/access_control.rs) do: who has signed, that the
-- pool admin stays, and the bounds of the parameters.
use k.Base.{
  ℕ, ◌+◌, none, ◌⊎◌, ◌≤◌, ◌<◌, ◌≡◌, arith, true, some, ok, List, inl, inr, Option-cases, >>-ok_elim,
}
use k.Shared.Constants.{wad, basis_points}
use k.Shared.Host.{Address, Auth}
use k.Shared.Wide.{checked_add}
use k.Router.State.{Pool}
use k.Router.Access.{
  get_pool_admin, require_pool_admin, set_reserve_whitelist, set_reserve_blacklist,
  set_liquidation_whitelist, set_liquidation_blacklist, set_swap_handler_whitelist,
}
use k.Router.Admin.Params.{
  set_flash_loan_premium, set_flash_loan_premium_max, set_flash_liquidation_premium,
  set_hf_liquidation_threshold, set_min_swap_output_bps, set_partial_liq_hf_threshold,
  set_price_staleness_threshold, set_asset_staleness_threshold, set_liquidation_price_tolerance,
  set_treasury, set_flash_liquidation_helper, set_pool_configurator, min_swap_output_floor_bps,
  min_price_staleness_threshold, max_price_staleness_threshold,
}
use k.Router.Admin.Governance.{
  Param, flash_loan_premium, flash_loan_premium_max, flash_liquidation_premium, hf_threshold,
  min_swap_output, partial_hf_threshold, price_staleness, price_tolerance, Target, treasury_target,
  helper_target, configurator_target, Listing, reserve_whitelist_of, reserve_blacklist_of,
  liquidators, liquidators_blocked, swap_handlers, param_outcome, target_outcome, list_outcome,
}

-- What a call that the pool admin has to sign comes to.
require_pool_admin_lem :
    (auth : Auth) (p : Pool)
    → require_pool_admin auth p ≡ ok tt
    → (a : Address) × (auth a ≡ true) × (p.pool_admin ≡ some a)
unfolding require_pool_admin get_pool_admin
require_pool_admin_lem auth p h = elim (Option-cases p.pool_admin) [
  | inl unset ↦ absurd (ground arith)
  | inr (a, set) ↦ (a, ground arith, set)
]

-- The bounds on the parameters, and on the age of a price of the asset, if one is set.
abbrev pub IsBounded : Address → Pool → Type 0
IsBounded asset p =
    (500_000_000_000_000_000 ≤ p.health_factor_liquidation_threshold)
    × (p.health_factor_liquidation_threshold ≤ 1_200_000_000_000_000_000)
    × (0 < p.partial_liquidation_hf_threshold)
    × (p.partial_liquidation_hf_threshold < wad)
    × (min_swap_output_floor_bps ≤ p.min_swap_output_bps)
    × (p.min_swap_output_bps ≤ basis_points)
    × (min_price_staleness_threshold ≤ p.price_staleness_threshold)
    × (p.price_staleness_threshold ≤ max_price_staleness_threshold)
    × (p.liquidation_price_tolerance_bps ≤ 5000)
    × (p.flash_loan_premium_max ≤ basis_points)
    × (p.flash_loan_premium + p.flash_liquidation_premium ≤ basis_points)
    × ((p.asset_staleness_threshold asset ≡ none)
        ⊎ ((n : ℕ) × (p.asset_staleness_threshold asset ≡ some n)
            × (min_price_staleness_threshold ≤ n)
            × (n ≤ max_price_staleness_threshold)))

-- A setter is signed by the pool admin, who stays, leaves the pool's mark of being set up, and keeps
-- the bounds.
abbrev pub Governed : Auth → Pool → Pool → Type 0
Governed auth p p' =
    ((a : Address) × (auth a ≡ true) × (p.pool_admin ≡ some a))
    × (p'.pool_admin ≡ p.pool_admin)
    × (p'.initialized ≡ p.initialized)
    × ((asset : Address) → IsBounded asset p → IsBounded asset p')

pub set_param-Governed :
    (auth : Auth) (param : Param) (n : ℕ) (p p' : Pool)
    → param_outcome auth param n p ≡ ok p'
    → Governed auth p p'
unfolding set_flash_loan_premium set_flash_loan_premium_max set_flash_liquidation_premium
    set_hf_liquidation_threshold set_min_swap_output_bps set_partial_liq_hf_threshold
    set_price_staleness_threshold set_liquidation_price_tolerance checked_add
set_param-Governed auth flash_loan_premium n p p' h =
    >>-ok_elim (require_pool_admin auth p) _ h λ signed rest.
      (require_pool_admin_lem auth p signed, ground arith, ground arith, λ asset b. ground arith)
set_param-Governed auth flash_loan_premium_max n p p' h =
    >>-ok_elim (require_pool_admin auth p) _ h λ signed rest.
      (require_pool_admin_lem auth p signed, ground arith, ground arith, λ asset b. ground arith)
set_param-Governed auth flash_liquidation_premium n p p' h =
    >>-ok_elim (require_pool_admin auth p) _ h λ signed rest.
      (require_pool_admin_lem auth p signed, ground arith, ground arith, λ asset b. ground arith)
set_param-Governed auth hf_threshold n p p' h =
    >>-ok_elim (require_pool_admin auth p) _ h λ signed rest.
      (require_pool_admin_lem auth p signed, ground arith, ground arith, λ asset b. ground arith)
set_param-Governed auth min_swap_output n p p' h =
    >>-ok_elim (require_pool_admin auth p) _ h λ signed rest.
      (require_pool_admin_lem auth p signed, ground arith, ground arith, λ asset b. ground arith)
set_param-Governed auth partial_hf_threshold n p p' h =
    >>-ok_elim (require_pool_admin auth p) _ h λ signed rest.
      (require_pool_admin_lem auth p signed, ground arith, ground arith, λ asset b. ground arith)
set_param-Governed auth price_staleness n p p' h =
    >>-ok_elim (require_pool_admin auth p) _ h λ signed rest.
      (require_pool_admin_lem auth p signed, ground arith, ground arith, λ asset b. ground arith)
set_param-Governed auth price_tolerance n p p' h =
    >>-ok_elim (require_pool_admin auth p) _ h λ signed rest.
      (require_pool_admin_lem auth p signed, ground arith, ground arith, λ asset b. ground arith)

pub set_target-Governed :
    (auth : Auth) (target : Target) (a : Address) (p p' : Pool)
    → target_outcome auth target a p ≡ ok p'
    → Governed auth p p'
unfolding set_treasury set_flash_liquidation_helper set_pool_configurator
set_target-Governed auth treasury_target a p p' h =
    >>-ok_elim (require_pool_admin auth p) _ h λ signed rest.
      (require_pool_admin_lem auth p signed, ground arith, ground arith, λ asset b. ground arith)
set_target-Governed auth helper_target a p p' h =
    >>-ok_elim (require_pool_admin auth p) _ h λ signed rest.
      (require_pool_admin_lem auth p signed, ground arith, ground arith, λ asset b. ground arith)
set_target-Governed auth configurator_target a p p' h =
    >>-ok_elim (require_pool_admin auth p) _ h λ signed rest.
      (require_pool_admin_lem auth p signed, ground arith, ground arith, λ asset b. ground arith)

pub set_list-Governed :
    (auth : Auth) (list : Listing) (l : List Address) (p p' : Pool)
    → list_outcome auth list l p ≡ ok p'
    → Governed auth p p'
unfolding set_reserve_whitelist set_reserve_blacklist set_liquidation_whitelist
    set_liquidation_blacklist set_swap_handler_whitelist
set_list-Governed auth (reserve_whitelist_of asset) l p p' h =
    >>-ok_elim (require_pool_admin auth p) _ h λ signed rest.
      (require_pool_admin_lem auth p signed, ground arith, ground arith, λ asset b. ground arith)
set_list-Governed auth (reserve_blacklist_of asset) l p p' h =
    >>-ok_elim (require_pool_admin auth p) _ h λ signed rest.
      (require_pool_admin_lem auth p signed, ground arith, ground arith, λ asset b. ground arith)
set_list-Governed auth liquidators l p p' h =
    >>-ok_elim (require_pool_admin auth p) _ h λ signed rest.
      (require_pool_admin_lem auth p signed, ground arith, ground arith, λ asset b. ground arith)
set_list-Governed auth liquidators_blocked l p p' h =
    >>-ok_elim (require_pool_admin auth p) _ h λ signed rest.
      (require_pool_admin_lem auth p signed, ground arith, ground arith, λ asset b. ground arith)
set_list-Governed auth swap_handlers l p p' h =
    >>-ok_elim (require_pool_admin auth p) _ h λ signed rest.
      (require_pool_admin_lem auth p signed, ground arith, ground arith, λ asset b. ground arith)

pub set_staleness-Governed :
    (auth : Auth) (asset : Address) (n : ℕ) (p p' : Pool)
    → set_asset_staleness_threshold auth asset n p ≡ ok p'
    → Governed auth p p'
unfolding set_asset_staleness_threshold
set_staleness-Governed auth asset n p p' h =
    >>-ok_elim (require_pool_admin auth p) _ h λ signed rest.
      (require_pool_admin_lem auth p signed, ground arith, ground arith, λ other b. ground arith)
