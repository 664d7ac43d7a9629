-- ===== src/Router/Reserves/History.antt =====
-- Histories of the calls that manage the reserves, and of the accruals between them.
use k.Base.{
  ℕ, ◌≡◌, refl, ◌∙◌, arith, leb, not, some, List, [], ◌∷◌, ok, err, panic, fail_if, ◌>>=◌,
  >>=-ok_elim, >>-ok_elim, Option-cases, inl, inr, ltb,
}
use k.Shared.Constants.{max_reserves}
use k.Shared.Errors.{
  reserve_already_initialized, invalid_amount, token_call_failed, token_initialization_failed,
}
use k.Shared.Host.{Address, Auth, require_auth}
use k.Shared.Interest.{calculate_compound_interest, calculate_linear_interest}
use k.Shared.RayMath.{ray_mul}
use k.Router.Accrual.Growth.{update_state_cases}
use k.Shared.ReserveConfig.{
  ReserveConfiguration, set_supply_cap, set_borrow_cap, set_min_remaining_debt,
}
use k.Shared.Signed.{is_zero}
use k.AToken.State as AState
use k.DebtToken.State as DState
use k.Router.Accrual.{
  ReserveData, Outcome, Reserves, get_reserve_data, accrued, update_reserve_state,
}
use k.Router.State.{
  Pool, World, Env, Contracts, a_token, debt_token, rate_strategy, panic_if, caught, caught-eq-ok,
}
use k.Router.Access.{require_pool_admin}
use k.Router.Calls.{a_token_env, debt_token_env}
use k.Router.Rates.{scaled_total_at}
use k.Router.Operations.{in_pool}
use k.Router.Reserves.{
  InitReserveParams, validate_pool_configurator, validate_params, validate_reserve_configuration,
  add_reserve, fresh_reserve, init_reserve, drop_reserve, forget_reserve, max_reserves_reached,
  with_reserve, not_found, told, propagate_incentives_to_tokens, set_reserve_supply_cap,
  set_reserve_borrow_cap, set_reserve_debt_ceiling, set_reserve_min_remaining_debt,
  update_reserve_configuration, update_reserve_rate_strategy, u64_max, cannot_drop_active_reserve,
}
use k.Router.Reserves.Ids.{HasIds, add_reserve-HasIds, with_reserve-HasIds, forget_reserve-HasIds}

pub data Call : Type 0 where
  init_call : Address → Address → Address → Address → Address → InitReserveParams → Call
  drop_call : Address → Address → Call
  configure_call : Address → Address → ReserveConfiguration → Call
  strategy_call : Address → Address → Address → Call
  supply_cap_call borrow_cap_call debt_ceiling_call min_debt_call : Address → ℕ → Call
  accrue_call : Address → Call

abbrev accrued_pool : ℕ → Address → Pool → Outcome Pool
accrued_pool now asset p = do
  (r, reserves) ← update_reserve_state now asset p.reserves
  ok (record p { reserves = reserves })

stored :
    (m : Reserves) (asset : Address) (r : ReserveData)
    → get_reserve_data m asset ≡ ok r
    → m asset ≡ some r
unfolding get_reserve_data
stored m asset r h = elim (Option-cases (m asset)) [
  | inl e ↦ absurd (ground arith)
  | inr (s, e) ↦ ground arith
]

module _ {U : Type 0} where
  abbrev on_pool : World U → Outcome Pool → Outcome (World U)
  on_pool w (ok p) = ok (in_pool w p)
  on_pool w (err e) = err e
  on_pool w (panic f) = panic f

  unfoldable pub outcome : Env U → Call → World U → Outcome (World U)
  outcome env (init_call caller asset a_token_impl debt_impl strategy s) w =
      init_reserve env caller asset a_token_impl debt_impl strategy s w
  outcome env (drop_call caller asset) w =
      on_pool w (drop_reserve env.auth w.contracts caller asset w.pool)
  outcome env (configure_call caller asset c) w =
      on_pool w (update_reserve_configuration env caller asset c w.pool)
  outcome env (strategy_call caller asset strategy) w =
      on_pool w (update_reserve_rate_strategy env caller asset strategy w.pool)
  outcome env (supply_cap_call asset n) w = on_pool w (set_reserve_supply_cap env asset n w.pool)
  outcome env (borrow_cap_call asset n) w = on_pool w (set_reserve_borrow_cap env asset n w.pool)
  outcome env (debt_ceiling_call asset n) w =
      on_pool w (set_reserve_debt_ceiling env asset n w.pool)
  outcome env (min_debt_call asset n) w =
      on_pool w (set_reserve_min_remaining_debt env asset n w.pool)
  outcome env (accrue_call asset) w = on_pool w (accrued_pool env.now asset w.pool)

  -- A call that fails leaves everything as it was.
  abbrev kept : World U → Outcome (World U) → World U
  kept w (ok w') = w'
  kept w (err e) = w
  kept w (panic f) = w

  unfoldable pub run : World U → List (Env U × Call) → World U
  run w [] = w
  run w ((env, c) ∷ cs) = run (kept w (outcome env c w)) cs

  on_pool-eq-ok :
      (w w' : World U) (m : Outcome Pool)
      → on_pool w m ≡ ok w'
      → (p : Pool) × (m ≡ ok p) × (w' ≡ in_pool w p)
  on_pool-eq-ok w w' (ok p) h = (p, refl, cc)
  on_pool-eq-ok w w' (err e) h = absurd (cc)
  on_pool-eq-ok w w' (panic f) h = absurd (cc)

  told-pool :
      (env : Env U) (w w' : World U) (token incentives : Address)
      → told env w token incentives ≡ ok w'
      → w'.pool ≡ w.pool
  told-pool env w w' token incentives h = elim (Option-cases (w.contracts token)) [
    | inl e ↦ absurd (cc)
    | inr (rate_strategy s, e) ↦ absurd (cc)
    | inr (a_token t, e) ↦
        >>=-ok_elim
          (AState.set_incentives_contract (a_token_env env w token t) env.self incentives t) _
          (rw (e, told) at h) λ t' f rest. cc
    | inr (debt_token t, e) ↦
        >>=-ok_elim (DState.set_incentives_contract (debt_token_env env) env.self incentives t) _
          (rw (e, told) at h) λ t' f rest. cc
  ]

  propagate-pool :
      (env : Env U) (w w' : World U) (a d incentives : Address)
      → propagate_incentives_to_tokens env a d incentives w ≡ ok w'
      → w'.pool ≡ w.pool
  unfolding propagate_incentives_to_tokens
  propagate-pool env w w' a d incentives h =
      >>=-ok_elim (caught (told env w a incentives) token_initialization_failed) _ h λ v e rest.
        let first = told-pool env w v a incentives (caught-eq-ok _ _ e) in
        let second = told-pool env v w' d incentives (caught-eq-ok _ _ rest) in second ∙ first

  init_reserve-HasIds :
      (env : Env U) (caller asset a d strategy : Address) (s : InitReserveParams) (w w' : World U)
      → init_reserve env caller asset a d strategy s w ≡ ok w'
      → HasIds w.pool
      → HasIds w'.pool
  unfolding init_reserve fresh_reserve
  init_reserve-HasIds env caller asset a d strategy s w w' h i =
      >>-ok_elim (validate_pool_configurator w.pool caller) _ h λ configurator h.
        >>-ok_elim (require_auth env.auth caller) _ h λ signed h.
          >>-ok_elim
            (fail_if (not (not_found env w.pool.reserves asset)) reserve_already_initialized) _ h
            λ absent h.
              >>-ok_elim (panic_if (leb max_reserves w.pool.next_reserve_id) max_reserves_reached) _
                h
                λ room h. >>-ok_elim (validate_params s) _ h λ valid h.
                  let r : ReserveData = fresh_reserve env a d strategy s w.pool.next_reserve_id in
                  let next : Pool = add_reserve w.pool asset r in
                  let added : HasIds next =
                    add_reserve-HasIds w.pool asset r refl (ground arith) i in
                  elim (Option-cases w.pool.incentives_contract) [
                    | inl unset ↦
                        let done = rw unset at h in let same : w'.pool ≡ next = cc in rw same added
                    | inr (incentives, set) ↦
                        let same : w'.pool ≡ next =
                          propagate-pool env (in_pool w next) w' a d incentives (rw set at h) in
                        rw same added
                  ]

drop_reserve-HasIds :
    (auth : Auth) (m : Contracts) (caller asset : Address) (p p' : Pool)
    → drop_reserve auth m caller asset p ≡ ok p'
    → HasIds p
    → HasIds p'
unfolding drop_reserve
drop_reserve-HasIds auth m caller asset p p' h i =
    >>-ok_elim (validate_pool_configurator p caller) _ h λ configurator h.
      >>-ok_elim (require_auth auth caller) _ h λ signed h.
        >>=-ok_elim (get_reserve_data p.reserves asset) _ h λ r found h.
          >>=-ok_elim (caught (scaled_total_at m r.a_token_address) token_call_failed) _ h
            λ deposits e h.
              >>-ok_elim (panic_if (not (is_zero deposits)) cannot_drop_active_reserve) _ h
                λ no_deposits h.
                  >>=-ok_elim (caught (scaled_total_at m r.debt_token_address) token_call_failed) _
                    h
                    λ debts f h.
                      >>-ok_elim (panic_if (not (is_zero debts)) cannot_drop_active_reserve) _ h
                        λ no_debts h.
                          let same : p' ≡ forget_reserve p asset r.id = cc in
                          rw same
                            (forget_reserve-HasIds p asset r (stored p.reserves asset r found) i)

-- The setters store the reserve again under its id.
rewritten-HasIds :
    (p p' : Pool) (asset : Address) (change : ReserveData → ReserveData)
    → ((r : ReserveData) → (change r).id ≡ r.id)
    → (get_reserve_data p.reserves asset >>= λ r. ok (with_reserve p asset (change r))) ≡ ok p'
    → HasIds p
    → HasIds p'
rewritten-HasIds p p' asset change keeps h i =
    >>=-ok_elim (get_reserve_data p.reserves asset) _ h λ r found h.
      let same : p' ≡ with_reserve p asset (change r) = cc in
      rw same
        (with_reserve-HasIds p asset r (change r) (stored p.reserves asset r found) (keeps r) i)

accrued-id : (now : ℕ) (r u : ReserveData) → accrued now r ≡ ok u → u.id ≡ r.id
unfolding accrued
accrued-id now r u h =
    >>=-ok_elim (calculate_linear_interest r.current_liquidity_rate r.last_update_timestamp now) _ h
      λ l e h.
        >>=-ok_elim
          (calculate_compound_interest r.current_variable_borrow_rate r.last_update_timestamp now) _
          h
          λ c f h.
            >>=-ok_elim (ray_mul r.liquidity_index l) _ h
              λ i g h. >>=-ok_elim (ray_mul r.variable_borrow_index c) _ h λ j k h. cc

accrue-HasIds :
    (now : ℕ) (asset : Address) (p p' : Pool)
    → accrued_pool now asset p ≡ ok p'
    → HasIds p
    → HasIds p'
unfolding update_reserve_state
accrue-HasIds now asset p p' h i =
    >>=-ok_elim (update_reserve_state now asset p.reserves) _ h λ (u, m) e h.
      >>=-ok_elim (get_reserve_data p.reserves asset) _ e λ r found e.
        elim (update_state_cases now asset r u p.reserves m e) [
          | inl (_, _, same) ↦ let eq : p' ≡ record p { reserves = m } = cc in rw (eq, same) i
          | inr (_, grown, same) ↦
              let eq : p' ≡ record p { reserves = m } = cc in
              rw (eq, same)
                (with_reserve-HasIds p asset r u (stored p.reserves asset r found)
                  (accrued-id now r u grown) i)
        ]

outcome-HasIds :
    {U : Type 0} (env : Env U) (c : Call) (w w' : World U)
    → outcome env c w ≡ ok w'
    → HasIds w.pool
    → HasIds w'.pool
unfolding outcome set_reserve_supply_cap set_reserve_borrow_cap set_reserve_debt_ceiling
    set_reserve_min_remaining_debt update_reserve_configuration update_reserve_rate_strategy
outcome-HasIds env (init_call caller asset a d strategy s) w w' h i =
    init_reserve-HasIds env caller asset a d strategy s w w' h i
outcome-HasIds env (drop_call caller asset) w w' h i =
    let (p, e, same) =
      on_pool-eq-ok w w' (drop_reserve env.auth w.contracts caller asset w.pool) h in
    rw same (drop_reserve-HasIds env.auth w.contracts caller asset w.pool p e i)
outcome-HasIds env (configure_call caller asset c) w w' h i =
    let (p, e, same) =
      on_pool-eq-ok w w' (update_reserve_configuration env caller asset c w.pool) h in
    >>-ok_elim (validate_pool_configurator w.pool caller) _ e λ configurator e.
      >>-ok_elim (require_auth env.auth caller) _ e λ signed e.
        >>-ok_elim (validate_reserve_configuration c) _ e λ valid e.
          rw same
            (rewritten-HasIds w.pool p asset (λ r. record r { configuration = c }) (λ r. refl) e i)
outcome-HasIds env (strategy_call caller asset strategy) w w' h i =
    let (p, e, same) =
      on_pool-eq-ok w w' (update_reserve_rate_strategy env caller asset strategy w.pool) h in
    >>-ok_elim (validate_pool_configurator w.pool caller) _ e λ configurator e.
      >>-ok_elim (require_auth env.auth caller) _ e λ signed e. rw same (
        rewritten-HasIds w.pool p asset
          (λ r. record r { interest_rate_strategy_address = strategy }) (λ r. refl) e i)
outcome-HasIds env (supply_cap_call asset n) w w' h i =
    let (p, e, same) = on_pool-eq-ok w w' (set_reserve_supply_cap env asset n w.pool) h in
    >>-ok_elim (require_pool_admin env.auth w.pool) _ e λ signed e.
      >>-ok_elim (fail_if (ltb u64_max n) invalid_amount) _ e λ small e. rw same (
        rewritten-HasIds w.pool p asset
          (λ r. record r { configuration = set_supply_cap r.configuration n }) (λ r. refl) e i)
outcome-HasIds env (borrow_cap_call asset n) w w' h i =
    let (p, e, same) = on_pool-eq-ok w w' (set_reserve_borrow_cap env asset n w.pool) h in
    >>-ok_elim (require_pool_admin env.auth w.pool) _ e λ signed e.
      >>-ok_elim (fail_if (ltb u64_max n) invalid_amount) _ e λ small e. rw same (
        rewritten-HasIds w.pool p asset
          (λ r. record r { configuration = set_borrow_cap r.configuration n }) (λ r. refl) e i)
outcome-HasIds env (debt_ceiling_call asset n) w w' h i =
    let (p, e, same) = on_pool-eq-ok w w' (set_reserve_debt_ceiling env asset n w.pool) h in
    >>-ok_elim (require_pool_admin env.auth w.pool) _ e λ signed e.
      >>=-ok_elim (get_reserve_data w.pool.reserves asset) _ e λ r found e.
        >>-ok_elim (fail_if (ltb u64_max n) invalid_amount) _ e λ small e.
          let stays : p.reserves ≡ w.pool.reserves = cc in
          let next : p.next_reserve_id ≡ w.pool.next_reserve_id = cc in
          let index : p.reserve_address_by_id ≡ w.pool.reserve_address_by_id = cc in
          rw same (record {
            few = rw next i.few;
            given = rw (next, stays) i.given;
            indexed = rw (index, stays) i.indexed;
          })
outcome-HasIds env (min_debt_call asset n) w w' h i =
    let (p, e, same) = on_pool-eq-ok w w' (set_reserve_min_remaining_debt env asset n w.pool) h in
    >>-ok_elim (require_pool_admin env.auth w.pool) _ e λ signed e. rw same (
      rewritten-HasIds w.pool p asset
        (λ r. record r { configuration = set_min_remaining_debt r.configuration n }) (λ r. refl) e
        i)
outcome-HasIds env (accrue_call asset) w w' h i =
    let (p, e, same) = on_pool-eq-ok w w' (accrued_pool env.now asset w.pool) h in
    rw same (accrue-HasIds env.now asset w.pool p e i)

kept-HasIds :
    {U : Type 0} (env : Env U) (c : Call) (w : World U) (o : Outcome (World U))
    → outcome env c w ≡ o
    → HasIds w.pool
    → HasIds (kept w o).pool
kept-HasIds env c w (ok w') e i = outcome-HasIds env c w w' e i
kept-HasIds env c w (err x) e i = i
kept-HasIds env c w (panic f) e i = i

-- A history of reserve-management calls and accruals, failing ones included, that starts where every
-- stored reserve has an id below the next one, which is at most 64, and is what its id is mapped
-- to, ends where the same holds.
pub run-HasIds :
    {U : Type 0} (w : World U) (cs : List (Env U × Call)) → HasIds w.pool → HasIds (run w cs).pool
unfolding run
run-HasIds w [] i = i
run-HasIds w ((env, c) ∷ cs) i =
    run-HasIds (kept w (outcome env c w)) cs (kept-HasIds env c w _ refl i)
