-- ===== src/Router/Operations/Collateral.antt =====
-- Using a deposit as collateral, or no longer (`set_user_use_reserve_as_coll` of src/router.rs).
use k.Base.{
  ℕ, ◌*◌, ◌<◌, ◌≤◌, ◌≡◌, ◌⊎◌, subst, sym, ◌∙◌, ap, refl, arith, ◌==◌, ltb, if◌then◌else◌, Bool,
  true, false, not, ok, ok_injective, fail_if, ◌>>=◌, ◌>>◌, >>=-ok_elim, >>-ok_elim,
}
use k.Shared.Constants.{basis_points}
use k.Shared.Errors.{asset_not_active, invalid_liquidation}
use k.Shared.Host.{Address, require_auth}
use k.Shared.ReserveConfig.{is_active}
use k.Shared.Signed.{safe_reserve_id}
use k.Shared.UserConfig.{
  UserConfiguration, is_borrowing, is_using_as_collateral, set_using_as_collateral,
}
use k.Shared.UserConfig.Flags.{set_using_as_collateral-reads}
use k.Router.Accrual.{ReserveData, Outcome, get_reserve_data}
use k.Router.State.{Pool, World, Env, get_user_configuration, set_user_configuration}
use k.Router.Price.{verify_oracle_price_exists_and_nonzero}
use k.Router.Value.{healthy_iff}
use k.Router.Validation.Health.Solvent.{account_parts}
use k.Router.Operations.Frame.{account-Kept}
use k.Router.Account.{UserAccountData, default_params}
use k.Router.Account.Data.{calculate_user_account_data}
use k.Router.Operations.{in_pool, check_access}
use k.Router.Operations.Positions.{reserve_id_lem}

abbrev pub least_health : ℕ
least_health = 1_000_000_000_000_000_000

-- The user's flag for the reserve, written.
unfoldable pub toggled : Address → ReserveData → Bool → Pool → Outcome Pool
toggled caller r on p = do
  reserve_id ← safe_reserve_id r.id
  ok (
      set_user_configuration p caller
        (set_using_as_collateral (get_user_configuration p caller) reserve_id on))

module _ {U : Type 0} (env : Env U) where
  abbrev switch_on : Address → Address → ReserveData → World U → Outcome (World U)
  switch_on caller asset r w = do
    price ← verify_oracle_price_exists_and_nonzero env w.pool asset
    p ← toggled caller r true w.pool
    ok (in_pool w p)

  -- The account without the collateral has to be healthy. A failure undoes the change.
  abbrev switch_off : Address → ReserveData → World U → Outcome (World U)
  switch_off caller r w = do
    p ← toggled caller r false w.pool
    (d, p') ← calculate_user_account_data env (in_pool w p) caller
    fail_if (ltb d.health_factor least_health) invalid_liquidation
    ok (in_pool w p')

  unfoldable pub set_user_use_reserve_as_coll :
      Address → Address → Bool → World U → Outcome (World U)
  set_user_use_reserve_as_coll caller asset use_as_collateral w = do
    require_auth env.auth caller
    check_access w.pool asset caller
    r ← get_reserve_data w.pool.reserves asset
    fail_if (not (is_active r.configuration)) asset_not_active
    if use_as_collateral then switch_on caller asset r w else switch_off caller r w

kept_unless : (i j : ℕ) (a b : Bool) → a ≡ (if j == i then false else b) → (j ≡ i) ⊎ (a ≡ b)
kept_unless i j a b h = ground arith

-- The user's flags with the collateral flag of reserve `id` cleared: it is off, and the borrowing flag
-- of reserve `other`, its collateral flag unless it is the same reserve, and the flags of `someone`
-- else stay.
abbrev pub Cleared :
    Address
    → Address
    → ℕ
    → ℕ
    → (Address → UserConfiguration)
    → (Address → UserConfiguration)
    → Type 0
Cleared caller someone id other c c' =
    (is_using_as_collateral (c' caller) id ≡ false)
    × (is_borrowing (c' caller) other ≡ is_borrowing (c caller) other)
    × ((other ≡ id)
        ⊎ (is_using_as_collateral (c' caller) other ≡ is_using_as_collateral (c caller) other))
    × ((someone ≡ caller) ⊎ (c' someone ≡ c someone))

abbrev with_flags : Pool → Pool → Pool
with_flags p p' = record p { user_configuration = p'.user_configuration }

toggled_off :
    (caller someone : Address) (r : ReserveData) (other : ℕ) (p p' : Pool)
    → other < 64
    → toggled caller r false p ≡ ok p'
    → Cleared caller someone r.id other p.user_configuration p'.user_configuration
      × (p' ≡ with_flags p p')
unfolding toggled set_user_configuration
toggled_off caller someone r other p p' small h =
    let c : UserConfiguration = get_user_configuration p caller in
    >>=-ok_elim (safe_reserve_id r.id) _ h λ i e rest.
      let (same, low) = reserve_id_lem r.id i e in
      let there : p'.user_configuration caller ≡ set_using_as_collateral c i false = ground arith in
      let config : p'.user_configuration caller ≡ set_using_as_collateral c r.id false =
        rw same at there in
      let (own, _) = set_using_as_collateral-reads c r.id r.id false low low in
      let (used, borrowed) = set_using_as_collateral-reads c r.id other false low small in
      let off : (if r.id == r.id then false else is_using_as_collateral c r.id) ≡ false =
        ground arith in
      let elsewhere : (someone ≡ caller)
          ⊎ (p'.user_configuration someone ≡ p.user_configuration someone) =
        ground arith in
      let written = ok_injective _ _ p' refl rest in
      let pool : p' ≡ with_flags p p' = subst (λ x. x ≡ with_flags p x) written refl in
      (
        (
          rw config (own ∙ off),
          rw config borrowed,
          rw config (kept_unless r.id other _ _ used),
          elsewhere,
        ),
        pool,
      )

-- An account that gives up the collateral in `asset`: its flag is cleared and nothing else about the
-- users' flags changes, and with the flags as they are afterwards the collateral at its liquidation
-- threshold covers the debt.
abbrev pub DoesWithout :
    {U : Type 0} → Env U → Address → Address → Address → ℕ → World U → World U → Type 0
DoesWithout env caller someone asset other w w' =
    (r : ReserveData) × (d : UserAccountData) × (get_reserve_data w.pool.reserves asset ≡ ok r)
    × Cleared caller someone r.id other w.pool.user_configuration w'.pool.user_configuration
    × (calculate_user_account_data env (in_pool w (with_flags w.pool w'.pool)) caller
        ≡ ok (d, w'.pool))
    × (d.total_debt_base * basis_points ≤ d.total_collateral_base * d.current_liquidation_threshold)

-- The account computed after the flag is cleared does not change the flags, and is healthy.
computed-DoesWithout :
    {U : Type 0} (env : Env U) (caller someone asset : Address) (other : ℕ) (w w' : World U)
    (r : ReserveData) (p : Pool) (d : UserAccountData)
    → get_reserve_data w.pool.reserves asset ≡ ok r
    → Cleared caller someone r.id other w.pool.user_configuration p.user_configuration
    → p ≡ with_flags w.pool p
    → calculate_user_account_data env (in_pool w p) caller ≡ ok (d, w'.pool)
    → least_health ≤ d.health_factor
    → DoesWithout env caller someone asset other w w'
computed-DoesWithout env caller someone asset other w w' r p d found cleared pool computed healthy =
    let (result, account, health) = account_parts env (in_pool w p) caller d w'.pool computed in
    let kept : w'.pool.user_configuration ≡ p.user_configuration =
      account-Kept env (in_pool w p) caller asset default_params result w'.pool account in
    let same : p ≡ with_flags w.pool w'.pool =
      pool ∙ ap (λ f. record w.pool { user_configuration = f }) (sym kept) in
    let covers =
      (healthy_iff d.total_collateral_base d.current_liquidation_threshold d.total_debt_base
          d.health_factor health).0
        healthy in
    (
      r,
      d,
      found,
      subst (λ f. Cleared caller someone r.id other w.pool.user_configuration f) (sym kept) cleared,
      subst (λ x. calculate_user_account_data env (in_pool w x) caller ≡ ok (d, w'.pool)) same
          computed,
      covers,
    )

-- A user who stops using a deposit as collateral, and succeeds, has afterwards its flag for that
-- reserve off; the user's borrowing flag of a reserve `other` below 64, the collateral flag of
-- `other` if it is another reserve, and the flags of any other user are as before. In the account
-- computed with the flags as they are afterwards, the remaining collateral at its liquidation
-- threshold covers the debt.
pub switch_off-DoesWithout :
    {U : Type 0} (env : Env U) (caller someone asset : Address) (other : ℕ) (w w' : World U)
    → other < 64
    → set_user_use_reserve_as_coll env caller asset false w ≡ ok w'
    → DoesWithout env caller someone asset other w w'
unfolding set_user_use_reserve_as_coll
switch_off-DoesWithout env caller someone asset other w w' small h =
    >>-ok_elim (require_auth env.auth caller) _ h λ signed rest.
      >>-ok_elim (check_access w.pool asset caller) _ rest λ access rest.
        >>=-ok_elim (get_reserve_data w.pool.reserves asset) _ rest λ r found rest.
          >>-ok_elim (fail_if (not (is_active r.configuration)) asset_not_active) _ rest
            λ active rest. >>=-ok_elim (toggled caller r false w.pool) _ rest λ p flagged rest.
              >>=-ok_elim (calculate_user_account_data env (in_pool w p) caller) _ rest
                λ (d, p') computed rest.
                  >>-ok_elim (fail_if (ltb d.health_factor least_health) invalid_liquidation) _ rest
                    λ healthy rest.
                      let world = ok_injective _ (in_pool w p') w' refl rest in
                      let same : p' ≡ w'.pool = ap (λ x. x.pool) world in
                      let (cleared, pool) =
                        toggled_off caller someone r other w.pool p small flagged in
                      computed-DoesWithout env caller someone asset other w w' r p d found cleared
                        pool (rw same at computed) (ground arith)
