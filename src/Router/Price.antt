-- ===== src/Router/Price.antt =====
-- Prices (src/price.rs). A map from assets to prices is a function.
use k.Base.{
  ℕ, ◌==◌, ltb, if◌then◌else◌, not, Option, none, some, List, [], ◌∷◌, ok, err, ok_or, fail_if,
  ◌>>=◌, ◌>>◌,
}
use k.Shared.Constants.{max_reserves}
use k.Shared.Errors.{price_oracle_not_found, price_oracle_error, price_oracle_invocation_failed}
use k.Shared.Host.{Address}
use k.Shared.Wide.{checked_sub}
use k.Router.Accrual.{Outcome}
use k.Router.State.{OracleConfig, PriceData, Pool, Env, Answer, answered, malformed, failed}

abbrev pub Prices : Type 0
Prices = Address → Option ℕ

abbrev pub length : {A : Type 0} → List A → ℕ
length [] = 0
length (a ∷ l) = ℕ.suc (length l)

-- The threshold of the asset, or the pool's.
abbrev pub staleness_threshold : Pool → Address → ℕ
staleness_threshold p asset = elim (p.asset_staleness_threshold asset) [
  | none ↦ p.price_staleness_threshold
  | some seconds ↦ seconds
]

unfoldable pub validate_price_freshness : Pool → ℕ → ℕ → Address → Outcome (Unit {0})
validate_price_freshness p now price_timestamp asset = do
  fail_if (ltb now price_timestamp) price_oracle_error
  age ← ok_or (checked_sub now price_timestamp) price_oracle_error
  fail_if (ltb (staleness_threshold p asset) age) price_oracle_error

-- The three outcomes of `try_invoke_contract` as the calls of the oracle tell them apart.
abbrev pub from_oracle : {A : Type 0} → Answer A → Outcome A
from_oracle (answered a) = ok a
from_oracle malformed = err price_oracle_error
from_oracle failed = err price_oracle_invocation_failed

abbrev pub no_prices : Prices
no_prices asset = none

abbrev pub set_price : Address → ℕ → Prices → Prices
set_price asset price m a = if a == asset then some price else m a

-- The loop that checks each price of the batch and enters it. A later entry for the same asset
-- replaces the earlier one.
unfoldable pub price_map : Pool → ℕ → List Address → List PriceData → Prices → Outcome Prices
unfolding validate_price_freshness
price_map p now [] quotes m = ok m
price_map p now (asset ∷ assets) [] m = err price_oracle_error
price_map p now (asset ∷ assets) (quote ∷ quotes) m = do
  validate_price_freshness p now quote.timestamp asset
  price_map p now assets quotes (set_price asset quote.price m)

unfoldable pub take : {A : Type 0} → ℕ → List A → List A
take ℕ.zero l = []
take (ℕ.suc n) [] = []
take (ℕ.suc n) (a ∷ l) = a ∷ take n l

module _ {U : Type 0} (env : Env U) where
  -- The quotes for at least one asset: at most 64 are asked for and entered, but the number of
  -- quotes is compared with that of all the assets.
  unfoldable pub fetched : Pool → List Address → Outcome Prices
  unfolding price_map take
  fetched p assets = do
    oracle ← ok_or p.price_oracle price_oracle_not_found
    let asked = take max_reserves assets
    quotes ← from_oracle (env.asset_prices oracle asked)
    fail_if (not (length quotes == length assets)) price_oracle_error
    price_map p env.now asked quotes no_prices

  unfoldable pub get_prices_for_assets : Pool → List Address → Outcome Prices
  unfolding fetched
  get_prices_for_assets p [] = ok no_prices
  get_prices_for_assets p (asset ∷ assets) = fetched p (asset ∷ assets)

  -- The only quote of a list of length 1.
  abbrev only : List PriceData → Outcome PriceData
  only (quote ∷ []) = ok quote
  only quotes = err price_oracle_error

  unfoldable pub verify_oracle_price_exists_and_nonzero : Pool → Address → Outcome ℕ
  unfolding validate_price_freshness
  verify_oracle_price_exists_and_nonzero p asset = do
    oracle ← ok_or p.price_oracle price_oracle_not_found
    quotes ← from_oracle (env.asset_prices oracle (asset ∷ []))
    quote ← only quotes
    fail_if (quote.price == 0) price_oracle_not_found
    validate_price_freshness p env.now quote.timestamp asset
    ok quote.price

  abbrev ask_config : Pool → Outcome (OracleConfig × Pool)
  ask_config p = do
    oracle ← ok_or p.price_oracle price_oracle_not_found
    config ← from_oracle (env.oracle_config oracle)
    ok (config, record p { cached_oracle_config = some config })

  -- The oracle's answer is kept in the pool's storage.
  unfoldable pub get_oracle_config : Pool → Outcome (OracleConfig × Pool)
  get_oracle_config p = elim p.cached_oracle_config [
    | some cached ↦ ok (cached, p)
    | none ↦ ask_config p
  ]
