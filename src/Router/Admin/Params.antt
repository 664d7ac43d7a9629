-- ===== src/Router/Admin/Params.antt =====
-- The protocol's parameters and their bounds (src/params.rs).
use k.Base.{
  ℕ, ◌==◌, ltb, leb, if◌then◌else◌, ◌||◌, ◌&&◌, not, none, some, ok, ok_or, fail_if, ◌>>=◌, ◌>>◌,
}
use k.Shared.Constants.{wad, basis_points}
use k.Shared.Errors.{invalid_amount, math_overflow}
use k.Shared.Host.{Address, Auth}
use k.Shared.Wide.{checked_add}
use k.Router.Accrual.{Outcome}
use k.Router.State.{Pool}
use k.Router.Access.{require_pool_admin}

-- `MIN_SWAP_OUTPUT_FLOOR_BPS`, `MIN_PRICE_STALENESS_THRESHOLD` and `MAX_PRICE_STALENESS_THRESHOLD` of
-- contracts/shared/src/constants.rs
abbrev pub min_swap_output_floor_bps : ℕ
min_swap_output_floor_bps = 9000

abbrev pub min_price_staleness_threshold : ℕ
min_price_staleness_threshold = 60

abbrev pub max_price_staleness_threshold : ℕ
max_price_staleness_threshold = 86400

module _ (auth : Auth) where
  unfoldable pub set_flash_loan_premium : ℕ → Pool → Outcome Pool
  unfolding require_pool_admin
  set_flash_loan_premium premium_bps p = do
    require_pool_admin auth p
    combined ← ok_or (checked_add premium_bps p.flash_liquidation_premium) math_overflow
    fail_if (ltb p.flash_loan_premium_max combined) invalid_amount
    ok (record p { flash_loan_premium = premium_bps })

  unfoldable pub set_flash_loan_premium_max : ℕ → Pool → Outcome Pool
  unfolding require_pool_admin
  set_flash_loan_premium_max max_premium_bps p = do
    require_pool_admin auth p
    fail_if (ltb 10_000 max_premium_bps) invalid_amount
    ok (record p { flash_loan_premium_max = max_premium_bps })

  unfoldable pub set_flash_liquidation_premium : ℕ → Pool → Outcome Pool
  unfolding require_pool_admin
  set_flash_liquidation_premium premium_bps p = do
    require_pool_admin auth p
    combined ← ok_or (checked_add p.flash_loan_premium premium_bps) math_overflow
    fail_if (ltb p.flash_loan_premium_max combined) invalid_amount
    ok (record p { flash_liquidation_premium = premium_bps })

  unfoldable pub set_hf_liquidation_threshold : ℕ → Pool → Outcome Pool
  unfolding require_pool_admin
  set_hf_liquidation_threshold threshold p = do
    require_pool_admin auth p
    fail_if (ltb threshold 500_000_000_000_000_000 || ltb 1_200_000_000_000_000_000 threshold)
        invalid_amount
    ok (record p { health_factor_liquidation_threshold = threshold })

  unfoldable pub set_min_swap_output_bps : ℕ → Pool → Outcome Pool
  unfolding require_pool_admin
  set_min_swap_output_bps min_output_bps p = do
    require_pool_admin auth p
    fail_if (ltb min_output_bps min_swap_output_floor_bps || ltb basis_points min_output_bps)
        invalid_amount
    ok (record p { min_swap_output_bps = min_output_bps })

  unfoldable pub set_partial_liq_hf_threshold : ℕ → Pool → Outcome Pool
  unfolding require_pool_admin
  set_partial_liq_hf_threshold threshold p = do
    require_pool_admin auth p
    fail_if (threshold == 0 || leb wad threshold) invalid_amount
    ok (record p { partial_liquidation_hf_threshold = threshold })

  unfoldable pub set_price_staleness_threshold : ℕ → Pool → Outcome Pool
  unfolding require_pool_admin
  set_price_staleness_threshold threshold_seconds p = do
    require_pool_admin auth p
    fail_if
        (ltb threshold_seconds min_price_staleness_threshold
          || ltb max_price_staleness_threshold threshold_seconds)
        invalid_amount
    ok (record p { price_staleness_threshold = threshold_seconds })

  -- 0 removes the asset's own threshold.
  unfoldable pub set_asset_staleness_threshold : Address → ℕ → Pool → Outcome Pool
  unfolding require_pool_admin
  set_asset_staleness_threshold asset threshold_seconds p = do
    require_pool_admin auth p
    fail_if
        (not (threshold_seconds == 0)
          && (ltb threshold_seconds min_price_staleness_threshold
              || ltb max_price_staleness_threshold threshold_seconds))
        invalid_amount
    let entry = if threshold_seconds == 0 then none else some threshold_seconds
    ok (record p {
      asset_staleness_threshold = λ a. if a == asset then entry else p.asset_staleness_threshold a;
    })

  unfoldable pub set_liquidation_price_tolerance : ℕ → Pool → Outcome Pool
  unfolding require_pool_admin
  set_liquidation_price_tolerance tolerance_bps p = do
    require_pool_admin auth p
    fail_if (ltb 5000 tolerance_bps) invalid_amount
    ok (record p { liquidation_price_tolerance_bps = tolerance_bps })

  unfoldable pub set_treasury : Address → Pool → Outcome Pool
  unfolding require_pool_admin
  set_treasury treasury p = do require_pool_admin auth p; ok (record p { treasury = some treasury })

  unfoldable pub set_flash_liquidation_helper : Address → Pool → Outcome Pool
  unfolding require_pool_admin
  set_flash_liquidation_helper helper p = do
    require_pool_admin auth p
    ok (record p { flash_liquidation_helper = some helper })

  unfoldable pub set_pool_configurator : Address → Pool → Outcome Pool
  unfolding require_pool_admin
  set_pool_configurator configurator p = do
    require_pool_admin auth p
    ok (record p { pool_configurator = some configurator })
