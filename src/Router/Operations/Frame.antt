-- ===== src/Router/Operations/Frame.antt =====
-- What the steps around the tokens' calls leave alone: the tokens themselves, and the users' flags.
use k.Base.{
  ℕ, ◌≡◌, none, ok, fail_if, ok_or, >>=-ok_elim, >>-ok_elim, Option-cases, Bool-cases, inl, inr,
  ltb,
}
use k.Shared.Constants.{calculate_oracle_to_wad_factor}
use k.Shared.Errors.{insufficient_liquidity, price_oracle_not_found}
use k.Shared.Host.{Address}
use k.Router.Accrual.{ReserveData, update_state}
use k.Shared.Signed.{safe_reserve_id}
use k.Shared.UserConfig.{UserConfiguration, is_using_as_collateral}
use k.Router.State.{Pool, World, Env, OracleConfig, get_user_configuration}
use k.Router.Price.{get_oracle_config, from_oracle}
use k.Router.Rates.{
  update_interest_rates_and_store, calculate_interest_rates_for_reserve,
  get_atoken_underlying_balance,
}
use k.Router.Account.{AccountDataParams}
use k.Router.Account.Data.{AccountDataResult, account_result, calculate_user_account_data_unified}
use k.Router.Validation.Health.Solvent.{can_borrow_parts}
use k.Router.Validation.Health.{validate_user_can_borrow}
use k.Router.Validation.Health.{
  validate_user_can_withdraw, can_withdraw_collateral, check_withdrawal, with_config,
}
use k.Router.Operations.{accrue, settle_rates, in_pool}
use k.Router.Operations.Borrow.{check_borrow}
use k.Router.Operations.Withdraw.{check_health}

abbrev pub Kept : Pool → Pool → Type 0
Kept p p' = p'.user_configuration ≡ p.user_configuration

stored_rates-Kept :
    {U : Type 0} (w : World U) (asset : Address) (r : ReserveData) (p' : Pool)
    → update_interest_rates_and_store w.contracts asset r none none w.pool ≡ ok p'
    → Kept w.pool p'
unfolding update_interest_rates_and_store
stored_rates-Kept w asset r p' h = elim (Bool-cases w.pool.flash_loan_active) [
  | inl active ↦ let stored = rw active at h in cc
  | inr idle ↦
      >>=-ok_elim (calculate_interest_rates_for_reserve w.contracts asset r none none) _
        (rw idle at h) λ rates e rest. cc
]

config-Kept :
    {U : Type 0} (env : Env U) (p p' : Pool) (config : OracleConfig)
    → get_oracle_config env p ≡ ok (config, p')
    → Kept p p'
unfolding get_oracle_config
config-Kept env p p' config h = elim (Option-cases p.cached_oracle_config) [
  | inl unset ↦
      >>=-ok_elim (ok_or p.price_oracle price_oracle_not_found) _ (rw unset at h) λ oracle e rest.
        >>=-ok_elim (from_oracle (env.oracle_config oracle)) _ rest λ answer f rest'. cc
  | inr (cached, set) ↦ let same = rw set at h in cc
]

module _ {U : Type 0} (env : Env U) (w : World U) (user asset : Address) where
  pub account-Kept :
      (params : AccountDataParams) (result : AccountDataResult) (p : Pool)
      → calculate_user_account_data_unified env w user params ≡ ok (result, p)
      → Kept w.pool p
  unfolding calculate_user_account_data_unified
  account-Kept params result p h =
      >>=-ok_elim (get_oracle_config env w.pool) _ h λ (config, p') e rest.
        let factor : ℕ = calculate_oracle_to_wad_factor config.price_precision in
        >>=-ok_elim (account_result env w user params factor p') _ rest
          λ found f rest'. let same : p' ≡ p = cc in rw same at (config-Kept env w.pool p' config e)

  can_withdraw-Kept :
      (amount factor : ℕ) (r : ReserveData) (p : Pool)
      → validate_user_can_withdraw env w user asset amount r factor ≡ ok p
      → Kept w.pool p
  unfolding validate_user_can_withdraw can_withdraw_collateral
  can_withdraw-Kept amount factor r p h =
      let c : UserConfiguration = get_user_configuration w.pool user in
      >>=-ok_elim (safe_reserve_id r.id) _ h λ i e rest.
        elim (Bool-cases (is_using_as_collateral c i)) [
          | inr other ↦ let same = rw other at rest in cc
          | inl used ↦
              >>=-ok_elim (calculate_user_account_data_unified env w user (with_config asset c)) _
                (rw used at rest)
                λ (result, p') a rest.
                  >>-ok_elim (check_withdrawal env w user asset amount r factor result p') _ rest
                    λ fits rest. let kept = account-Kept (with_config asset c) result p' a in cc
        ]

module _ {U : Type 0} where
  -- Same token contracts, same underlying tokens, same flags.
  pub record Framed (w w' : World U) : Type 0 where
    pub contracts : w'.contracts ≡ w.contracts
    pub underlying : w'.underlying ≡ w.underlying
    pub flags : w'.pool.user_configuration ≡ w.pool.user_configuration

  pub accrue-Framed :
      (now : ℕ) (asset : Address) (r u : ReserveData) (w w' : World U)
      → accrue now asset r w ≡ ok (u, w')
      → Framed w w'
  unfolding accrue
  accrue-Framed now asset r u w w' h =
      >>=-ok_elim (update_state now asset r w.pool.reserves) _ h
        λ (v, m) e rest. record { contracts = cc; underlying = cc; flags = cc }

  pub settle_rates-Framed :
      (asset : Address) (r : ReserveData) (w w' : World U)
      → settle_rates asset r w ≡ ok w'
      → Framed w w'
  unfolding settle_rates
  settle_rates-Framed asset r w w' h =
      >>=-ok_elim (update_interest_rates_and_store w.contracts asset r none none w.pool) _ h
        λ p e rest. record {
          contracts = cc;
          underlying = cc;
          flags = let kept = stored_rates-Kept w asset r p e in cc;
        }

  pub check_borrow-Framed :
      (env : Env U) (user asset : Address) (amount : ℕ) (r : ReserveData) (w w' : World U)
      → check_borrow env user asset amount r w ≡ ok w'
      → Framed w w'
  unfolding check_borrow
  check_borrow-Framed env user asset amount r w w' h =
      >>=-ok_elim (get_oracle_config env w.pool) _ h λ (config, p) e rest.
        let factor : ℕ = calculate_oracle_to_wad_factor config.price_precision in
        >>=-ok_elim (validate_user_can_borrow env (in_pool w p) user asset amount r factor) _ rest
          λ p' f rest.
            >>=-ok_elim (get_atoken_underlying_balance env w asset r.a_token_address) _ rest
              λ liquidity g rest.
                >>-ok_elim (fail_if (ltb liquidity amount) insufficient_liquidity) _ rest
                  λ enough rest.
                    let (_, _, _, _, account, _, _, _, _) =
                      can_borrow_parts env (in_pool w p) user asset amount factor r p' f in
                    let first = config-Kept env w.pool p config e in
                    let second = account-Kept env (in_pool w p) user asset _ _ p' account in
                    record { contracts = cc; underlying = cc; flags = cc }

  pub check_health-Framed :
      (env : Env U) (user asset : Address) (amount : ℕ) (r : ReserveData) (w w' : World U)
      → check_health env user asset amount r w ≡ ok w'
      → Framed w w'
  unfolding check_health
  check_health-Framed env user asset amount r w w' h =
      >>=-ok_elim (get_oracle_config env w.pool) _ h λ (config, p) e rest.
        let factor : ℕ = calculate_oracle_to_wad_factor config.price_precision in
        >>=-ok_elim (validate_user_can_withdraw env (in_pool w p) user asset amount r factor) _ rest
          λ p' f rest.
            let first = config-Kept env w.pool p config e in
            let second = can_withdraw-Kept env (in_pool w p) user asset amount factor r p' f in
            record { contracts = cc; underlying = cc; flags = cc }
