-- ===== src/Router/Validation/Limits.antt =====
-- When the caps of a reserve and the age of a price let an operation pass.
use k.Base.{ℕ, ◌+◌, ◌*◌, ◌≤◌, ◌≡◌, ◌↔◌, ◌⊎◌, arith, ok}
use k.Shared.Constants.{IsU128}
use k.Shared.Host.{Address}
use k.Shared.ReserveConfig.{get_supply_cap, get_decimals}
use k.Shared.Wide.{checked_add, checked_mul, checked_sub}
use k.Router.Accrual.{ReserveData}
use k.Router.State.{Pool, Contracts}
use k.Router.Rates.{get_total_supply_with_index}
use k.Router.Liquidation.{pow_ten}
use k.Router.Price.{validate_price_freshness, staleness_threshold}
use k.Router.Validation.{validate_supply_cap_after_interest}

module _ (m : Contracts) (amount : ℕ) (r : ReserveData) (index total unit : ℕ)
    (scaled : pow_ten (get_decimals r.configuration) ≡ ok unit)
    (fits : IsU128 (total + amount)) where
  -- A supply passes the cap exactly when the reserve has none, or the supply at the given index
  -- with the amount is at most the cap in the asset's smallest units; no number overflows.
  pub supply_cap_iff :
      get_total_supply_with_index m r.a_token_address index ≡ ok total
      → IsU128 (get_supply_cap r.configuration * unit)
      → (validate_supply_cap_after_interest m amount r index ≡ ok tt) ↔ (
          (get_supply_cap r.configuration ≡ 0)
          ⊎ (total + amount ≤ get_supply_cap r.configuration * unit))
  unfolding validate_supply_cap_after_interest checked_add checked_mul
  supply_cap_iff known cap_fits = ground arith

-- A price is fresh exactly when it is not from the future and is no older than the threshold of the
-- asset, or the pool's where the asset has none.
pub validate_price_freshness_iff :
    (p : Pool) (now timestamp : ℕ) (asset : Address)
    → (validate_price_freshness p now timestamp asset ≡ ok tt)
      ↔ ((timestamp ≤ now) × (now ≤ timestamp + staleness_threshold p asset))
unfolding validate_price_freshness checked_sub
validate_price_freshness_iff p now timestamp asset = ground arith
