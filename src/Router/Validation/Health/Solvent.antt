-- ===== src/Router/Validation/Health/Solvent.antt =====
-- What a borrow that passes its check comes to: its value, and the debt with it against the collateral.
use k.Base.{
  ℕ, ◌+◌, ◌*◌, ◌/◌, ◌≤◌, ◌<◌, ◌≡◌, arith, ◌==◌, [], ◌∷◌, ok, ok_or, fail_if, ltb, >>=-ok_elim,
  >>-ok_elim, refl, ok-injective_pair, inl, inr, ◌⊎◌, Bool-cases, div_bounds,
}
use k.Shared.Constants.{calculate_oracle_to_wad_factor}
use k.Shared.Errors.{KineticRouterError, math_overflow, insufficient_collateral}
use k.Shared.Host.{Address}
use k.Shared.ReserveConfig.{get_decimals}
use k.Shared.Wide.{checked_add, checked_mul, checked_div, checked_sub, u256_div, narrow, to_u128}
use k.Router.Accrual.{ReserveData}
use k.Router.State.{Pool, World, Env}
use k.Router.Price.{get_oracle_config}
use k.Router.Liquidation.{pow_ten}
use k.Router.Value.{value_in_base, calculate_health_factor_u256}
use k.Router.Account.{UserAccountData, AccountDataParams, default_params, Totals, price_in}
use k.Router.Account.Data.{
  AccountDataResult, calculate_user_account_data, account_data_of, account_sums, account_result,
  ceiling, floor, available_borrows, unless_zero, calculate_user_account_data_unified,
  calculate_user_account_data_with_prices,
}
use k.Router.Validation.Health.{within_means, with_asset, validate_user_can_borrow}

module _ {U : Type 0} (env : Env U) (w : World U) (user asset : Address) where
  -- The steps of a check that passes.
  pub can_borrow_parts :
      (amount factor : ℕ) (r : ReserveData) (p : Pool)
      → validate_user_can_borrow env w user asset amount r factor ≡ ok p
      → (result : AccountDataResult) × (price : ℕ) × (pow : ℕ) × (value : ℕ)
        × (calculate_user_account_data_unified env w user (with_asset asset) ≡ ok (result, p))
        × (price_in result.prices asset ≡ ok price)
        × (pow_ten (get_decimals r.configuration) ≡ ok pow)
        × (value_in_base amount price factor pow ≡ ok value)
        × (within_means p.health_factor_liquidation_threshold result.account_data value ≡ ok tt)
  unfolding validate_user_can_borrow calculate_user_account_data_with_prices
  can_borrow_parts amount factor r p h =
      >>=-ok_elim (calculate_user_account_data_with_prices env w user (asset ∷ [])) _ h
        λ ((d, prices), p') e rest. >>=-ok_elim (price_in prices asset) _ rest λ price f rest.
          >>=-ok_elim (pow_ten (get_decimals r.configuration)) _ rest λ pow g rest.
            >>-ok_elim (fail_if (pow == 0) math_overflow) _ rest λ positive rest.
              >>=-ok_elim (value_in_base amount price factor pow) _ rest λ value v rest.
                >>-ok_elim (within_means p'.health_factor_liquidation_threshold d value) _ rest
                  λ fits rest.
                    >>=-ok_elim (calculate_user_account_data_unified env w user (with_asset asset))
                      _ e
                      λ (result, p'') a rest'.
                        let same_pool : p'' ≡ p = cc in
                        let same : p' ≡ p = cc in
                        let same_data : d ≡ result.account_data = cc in
                        let same_prices : prices ≡ result.prices = cc in
                        (
                          result,
                          price,
                          pow,
                          value,
                          rw same_pool at a,
                          rw same_prices at f,
                          g,
                          v,
                          rw (same_data, same) at fits,
                        )

-- What the sums of a successful account give.
account_data_lem :
    (t : Totals) (d : UserAccountData)
    → account_data_of t ≡ ok d
    → (d.total_collateral_base ≡ t.collateral)
      × (d.total_debt_base ≡ t.debt)
      × (available_borrows t.collateral d.ltv t.debt ≡ ok d.available_borrows_base)
      × (unless_zero t.collateral (floor t.weighted_ltv t.collateral) ≡ ok d.ltv)
unfolding account_data_of
account_data_lem t d h =
    >>=-ok_elim (unless_zero t.collateral (ceiling t.weighted_threshold t.collateral)) _ h
      λ threshold e rest.
        >>=-ok_elim (unless_zero t.collateral (floor t.weighted_ltv t.collateral)) _ rest
          λ ltv f rest.
            >>=-ok_elim (calculate_health_factor_u256 t.collateral threshold t.debt) _ rest
              λ health g rest.
                >>=-ok_elim (available_borrows t.collateral ltv t.debt) _ rest λ available a rest.
                  let same_ltv : ltv ≡ d.ltv = cc in
                  let same_available : available ≡ d.available_borrows_base = cc in
                  (cc, cc, rw (same_ltv, same_available) at a, rw same_ltv at f)

-- The health factor of a successful account is that of its sums.
account_health :
    (t : Totals) (d : UserAccountData)
    → account_data_of t ≡ ok d
    → calculate_health_factor_u256 d.total_collateral_base d.current_liquidation_threshold
        d.total_debt_base
      ≡ ok d.health_factor
unfolding account_data_of
account_health t d h =
    >>=-ok_elim (unless_zero t.collateral (ceiling t.weighted_threshold t.collateral)) _ h
      λ threshold e rest.
        >>=-ok_elim (unless_zero t.collateral (floor t.weighted_ltv t.collateral)) _ rest
          λ ltv f rest.
            >>=-ok_elim (calculate_health_factor_u256 t.collateral threshold t.debt) _ rest
              λ health g rest.
                >>=-ok_elim (available_borrows t.collateral ltv t.debt) _ rest λ available a rest.
                  let same_health : health ≡ d.health_factor = cc in
                  let same_threshold : threshold ≡ d.current_liquidation_threshold = cc in
                  let same_collateral : t.collateral ≡ d.total_collateral_base = cc in
                  let same_debt : t.debt ≡ d.total_debt_base = cc in
                  rw (same_health, same_threshold, same_collateral, same_debt) at g

-- What is available is, in basis points, within the collateral at its loan to value less the debt.
available_lem : (c l d a : ℕ) → available_borrows c l d ≡ ok a → 0 < a → (a + d) * 10_000 ≤ c * l
unfolding available_borrows checked_mul checked_div checked_sub
available_lem c l d a h some_left =
    let (low, high) = div_bounds (c * l) 10_000 (omega arith) in ground arith

floor_lem : (c wl l : ℕ) → unless_zero c (floor wl c) ≡ ok l → c * l ≤ wl
unfolding floor u256_div narrow to_u128
floor_lem c wl l h = elim (Bool-cases (c == 0)) [
  | inl zero_collateral ↦ let none_left : c ≡ 0 = ground arith in rw none_left (omega arith)
  | inr some_collateral ↦
      let positive : 0 < c = ground arith in
      let (low, _) = div_bounds wl c positive in
      let same : l ≡ wl / c = ground arith in rw same (omega (arith, low))
]

-- What the debt and the new borrow come to, against the collateral of the account.
abbrev pub IsCovered : ℕ → UserAccountData → ℕ → Type 0
IsCovered threshold d value =
    ((value ≡ 0) ⊎ ((d.total_debt_base + value) * 10_000 ≤ d.total_collateral_base * d.ltv))
    × (h : ℕ) × (calculate_health_factor_u256 d.total_collateral_base
          d.current_liquidation_threshold (d.total_debt_base + value)
        ≡ ok h)
    × (threshold ≤ h)

sum_lem :
    (a b n : ℕ) → ok_or {E = KineticRouterError} (checked_add a b) math_overflow ≡ ok n → n ≡ a + b
unfolding checked_add
sum_lem a b n h = ground arith

available-covers :
    (t : Totals) (d : UserAccountData) (value : ℕ)
    → account_data_of t ≡ ok d
    → value ≤ d.available_borrows_base
    → (value ≡ 0) ⊎ ((d.total_debt_base + value) * 10_000 ≤ d.total_collateral_base * d.ltv)
available-covers t d value e fits =
    let (same_collateral, same_debt, available, _) = account_data_lem t d e in
    elim (Bool-cases (value == 0)) [
      | inl nothing ↦ inl (ground arith)
      | inr something ↦
          let left =
            available_lem t.collateral d.ltv t.debt d.available_borrows_base available
              (ground arith) in
          inr (rw (same_collateral, same_debt) (omega (arith, left, fits)))
    ]

within_means-IsCovered :
    (t : Totals) (d : UserAccountData) (threshold value : ℕ)
    → account_data_of t ≡ ok d
    → within_means threshold d value ≡ ok tt
    → IsCovered threshold d value
unfolding within_means
within_means-IsCovered t d threshold value e h =
    let c : ℕ = d.total_collateral_base in
    >>-ok_elim (fail_if (ltb d.available_borrows_base value) insufficient_collateral) _ h
      λ fits rest.
        >>=-ok_elim (ok_or (checked_add d.total_debt_base value) math_overflow) _ rest
          λ debt added rest.
            >>=-ok_elim (calculate_health_factor_u256 c d.current_liquidation_threshold debt) _ rest
              λ health computed rest.
                let same : debt ≡ d.total_debt_base + value =
                  sum_lem d.total_debt_base value debt added in
                (
                  available-covers t d value e (ground arith),
                  health,
                  rw same at computed,
                  ground arith,
                )

-- A loan of `amount` that the account, as it is computed, and the price of the asset cover.
abbrev pub IsAffordable :
    {U : Type 0} → Env U → World U → Address → Address → ℕ → ℕ → ReserveData → Pool → Type 0
IsAffordable env w user asset amount factor r p =
    (result : AccountDataResult) × (price : ℕ) × (pow : ℕ) × (value : ℕ)
    × (calculate_user_account_data_unified env w user (with_asset asset) ≡ ok (result, p))
    × (price_in result.prices asset ≡ ok price)
    × (pow_ten (get_decimals r.configuration) ≡ ok pow)
    × (value_in_base amount price factor pow ≡ ok value)
    × IsCovered p.health_factor_liquidation_threshold result.account_data value

module _ {U : Type 0} (env : Env U) (w : World U) (user : Address) where
  account_totals :
      (params : AccountDataParams) (result : AccountDataResult) (p : Pool)
      → calculate_user_account_data_unified env w user params ≡ ok (result, p)
      → (t : Totals) × (account_data_of t ≡ ok result.account_data)
  unfolding calculate_user_account_data_unified account_result
  account_totals params result p h =
      >>=-ok_elim (get_oracle_config env w.pool) _ h λ (config, p') e rest.
        let factor : ℕ = calculate_oracle_to_wad_factor config.price_precision in
        >>=-ok_elim (account_result env w user params factor p') _ rest λ found f rest.
          >>=-ok_elim (account_sums env w user params factor p') _ f
            λ ((t, balances), prices) g rest'.
              >>=-ok_elim (account_data_of t) _ rest'
                λ d a last. let same : d ≡ result.account_data = cc in (t, rw same at a)

  -- The steps of an account that is computed, and its health.
  pub account_parts :
      (d : UserAccountData) (p : Pool)
      → calculate_user_account_data env w user ≡ ok (d, p)
      → (result : AccountDataResult) × (calculate_user_account_data_unified env w user
            default_params
          ≡ ok (result, p))
        × (calculate_health_factor_u256 d.total_collateral_base d.current_liquidation_threshold
              d.total_debt_base
            ≡ ok d.health_factor)
  unfolding calculate_user_account_data
  account_parts d p h =
      >>=-ok_elim (calculate_user_account_data_unified env w user default_params) _ h
        λ (result, p') e rest.
          let (same_data, same_pool) = ok-injective_pair result.account_data d p' p _ refl rest in
          let (t, sums) = account_totals default_params result p' e in
          let health = account_health t d (rw same_data at sums) in
          (result, rw same_pool at e, health)

module _ {U : Type 0} (env : Env U) (w : World U) (user asset : Address) where
  -- A borrow that passes has a price and a value in the base currency, truncated. If the value is
  -- not 0, the debt of the account with it stays within the collateral at its loan to value.
  -- Whatever the value, the health factor with it is at or above the pool's threshold.
  pub can_borrow-IsAffordable :
      (amount factor : ℕ) (r : ReserveData) (p : Pool)
      → validate_user_can_borrow env w user asset amount r factor ≡ ok p
      → IsAffordable env w user asset amount factor r p
  can_borrow-IsAffordable amount factor r p h =
      let (result, price, pow, value, account, priced, scaled, valued, fits) =
        can_borrow_parts env w user asset amount factor r p h in
      let (t, e) = account_totals env w user (with_asset asset) result p account in
      (
        result,
        price,
        pow,
        value,
        account,
        priced,
        scaled,
        valued,
        within_means-IsCovered t result.account_data p.health_factor_liquidation_threshold value e
            fits,
      )
