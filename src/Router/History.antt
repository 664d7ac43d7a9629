-- ===== src/Router/History.antt =====
-- Histories of calls of the pool's four operations, and what holds after every one of them.
use k.Base.{
  ℕ, ◌≡◌, refl, arith, true, false, ok, err, panic, List, [], ◌∷◌, >>=-ok_elim, >>-ok_elim,
}
use k.Shared.Host.{Address}
use k.Shared.ReserveConfig.{is_active, is_paused}
use k.Router.Accrual.{ReserveData, Outcome, get_reserve_data}
use k.Router.State.{Pool, World, Env, panic_if}
use k.Router.Access.{validate_reserve_whitelist_access, validate_reserve_blacklist_access}
use k.Router.Validation.{
  validate_amount, validate_supply, validate_withdraw, validate_borrow, validate_repay,
}
use k.Router.Operations.{guarded, locked, reentrancy_detected, check_access}
use k.Router.Operations.Supply.{supply, router_supply}
use k.Router.Operations.Withdraw.{withdraw, router_withdraw}
use k.Router.Operations.Borrow.{borrow, router_borrow}
use k.Router.Operations.Repay.{repay, router_repay}
use k.Router.Operations.Parts.{Begun, supply_parts, withdraw_parts, borrow_parts, repay_parts}
use k.Router.Operations.Sound.{
  IsSound, supply-IsSound, withdraw-IsSound, borrow-IsSound, repay-IsSound,
}

-- An entry point and its arguments: caller, asset, amount, rate mode, the other account.
pub data Call : Type 0 where
  supply_call withdraw_call : Address → Address → ℕ → Address → Call
  borrow_call repay_call : Address → Address → ℕ → ℕ → Address → Call

abbrev pub caller_of : Call → Address
caller_of (supply_call caller asset amount user) = caller
caller_of (withdraw_call caller asset amount to) = caller
caller_of (borrow_call caller asset amount mode user) = caller
caller_of (repay_call caller asset amount mode user) = caller

abbrev pub asset_of : Call → Address
asset_of (supply_call caller asset amount user) = asset
asset_of (withdraw_call caller asset amount to) = asset
asset_of (borrow_call caller asset amount mode user) = asset
asset_of (repay_call caller asset amount mode user) = asset

abbrev world_of : {U A : Type 0} → Outcome (A × World U) → Outcome (World U)
world_of (ok (a, w)) = ok w
world_of (err e) = err e
world_of (panic p) = panic p

module _ {U : Type 0} where
  unfoldable pub outcome : Env U → Call → World U → Outcome (World U)
  outcome env (supply_call caller asset amount user) w =
      world_of (router_supply env caller asset amount user w)
  outcome env (withdraw_call caller asset amount to) w =
      world_of (router_withdraw env caller asset amount to w)
  outcome env (borrow_call caller asset amount mode user) w =
      world_of (router_borrow env caller asset amount mode user w)
  outcome env (repay_call caller asset amount mode user) w =
      world_of (router_repay env caller asset amount mode user w)

  -- A call that fails leaves everything as it was.
  abbrev kept : World U → Outcome (World U) → World U
  kept w (ok w') = w'
  kept w (err e) = w
  kept w (panic p) = w

  unfoldable pub run : World U → List (Env U × Call) → World U
  run w [] = w
  run w ((env, c) ∷ cs) = run (kept w (outcome env c w)) cs

  world_of-eq-ok :
      {A : Type 0} (m : Outcome (A × World U)) {w : World U}
      → world_of m ≡ ok w
      → (a : A) × (m ≡ ok (a, w))
  world_of-eq-ok (ok (a, w)) h = (a, cc)
  world_of-eq-ok (err e) h = absurd (cc)
  world_of-eq-ok (panic p) h = absurd (cc)

  guarded_lem :
      {A : Type 0} (operation : World U → Outcome (A × World U)) (w w' : World U) (a : A)
      → guarded operation w ≡ ok (a, w')
      → (v : World U) × (w.pool.protocol_locked ≡ false)
        × (operation (locked true w) ≡ ok (a, v))
        × (w' ≡ locked false v)
  unfolding guarded
  guarded_lem operation w w' a h =
      >>-ok_elim (panic_if w.pool.protocol_locked reentrancy_detected) _ h λ free rest.
        >>=-ok_elim (operation (locked true w)) _ rest
          λ (b, v) e last. let same : b ≡ a = cc in (v, ground arith, rw same at e, cc)

  outcome-IsSound :
      (env : Env U) (c : Call) (w w' : World U) → outcome env c w ≡ ok w' → IsSound w → IsSound w'
  unfolding outcome router_supply router_withdraw router_borrow router_repay
  outcome-IsSound env (supply_call caller asset amount user) w w' h s =
      let (a, e) = world_of-eq-ok (router_supply env caller asset amount user w) h in
      let (v, _, f, same) = guarded_lem (supply env caller asset amount user) w w' a e in
      rw same (supply-IsSound env caller asset (locked true w) v amount user f s)
  outcome-IsSound env (withdraw_call caller asset amount to) w w' h s =
      let (a, e) = world_of-eq-ok (router_withdraw env caller asset amount to w) h in
      let (v, _, f, same) = guarded_lem (withdraw env caller asset amount to) w w' a e in
      rw same (withdraw-IsSound env caller asset (locked true w) v amount a to f s)
  outcome-IsSound env (borrow_call caller asset amount mode user) w w' h s =
      let (a, e) = world_of-eq-ok (router_borrow env caller asset amount mode user w) h in
      let (v, _, f, same) = guarded_lem (borrow env caller asset amount mode user) w w' a e in
      rw same (borrow-IsSound env caller asset (locked true w) v amount mode user f s)
  outcome-IsSound env (repay_call caller asset amount mode user) w w' h s =
      let (a, e) = world_of-eq-ok (router_repay env caller asset amount mode user w) h in
      let (v, _, f, same) = guarded_lem (repay env caller asset amount mode user) w w' a e in
      rw same (repay-IsSound env caller asset (locked true w) v amount mode a user f s)

  kept-IsSound :
      (env : Env U) (c : Call) (w : World U) (o : Outcome (World U))
      → outcome env c w ≡ o
      → IsSound w
      → IsSound (kept w o)
  kept-IsSound env c w (ok w') e s = outcome-IsSound env c w w' e s
  kept-IsSound env c w (err x) e s = s
  kept-IsSound env c w (panic x) e s = s

  -- After any history of supplies, withdrawals, borrows and repayments, failing ones included, that
  -- starts where the books of all deposit and debt tokens are balanced (each scaled total is the
  -- sum of the accounts, and no deposit is negative), they are balanced.
  pub run-IsSound : (w : World U) (cs : List (Env U × Call)) → IsSound w → IsSound (run w cs)
  unfolding run
  run-IsSound w [] s = s
  run-IsSound w ((env, c) ∷ cs) s =
      run-IsSound (kept w (outcome env c w)) cs (kept-IsSound env c w _ refl s)

-- What the checks of an operation have found when it succeeds.
pub record Allowed {U : Type 0} (env : Env U) (c : Call) (w : World U) : Type 0 where
  pub signed : env.auth (caller_of c) ≡ true
  pub unlocked : w.pool.protocol_locked ≡ false
  pub unpaused : w.pool.paused ≡ false
  pub access : check_access w.pool (asset_of c) (caller_of c) ≡ ok tt
  pub reserve : ReserveData
  pub found : get_reserve_data w.pool.reserves (asset_of c) ≡ ok reserve
  pub active : is_active reserve.configuration ≡ true
  pub running : is_paused reserve.configuration ≡ false

-- The pool's pause, and the reserve's two flags.
abbrev Usable : Pool → ReserveData → Type 0
Usable p r =
    (p.paused ≡ false) × (is_active r.configuration ≡ true) × (is_paused r.configuration ≡ false)

validate_supply-Usable :
    (p : Pool) (amount : ℕ) (r : ReserveData) → validate_supply p amount r ≡ ok tt → Usable p r
unfolding validate_supply validate_amount
validate_supply-Usable p amount r h = (ground arith, ground arith, ground arith)

validate_withdraw-Usable :
    (p : Pool) (amount : ℕ) (r : ReserveData) → validate_withdraw p amount r ≡ ok tt → Usable p r
unfolding validate_withdraw validate_amount
validate_withdraw-Usable p amount r h = (ground arith, ground arith, ground arith)

validate_borrow-Usable :
    (p : Pool) (amount mode : ℕ) (r : ReserveData)
    → validate_borrow p amount mode r ≡ ok tt
    → Usable p r
unfolding validate_borrow validate_amount
validate_borrow-Usable p amount mode r h = (ground arith, ground arith, ground arith)

validate_repay-Usable :
    (p : Pool) (amount mode : ℕ) (r : ReserveData)
    → validate_repay p amount mode r ≡ ok tt
    → Usable p r
unfolding validate_repay validate_amount
validate_repay-Usable p amount mode r h = (ground arith, ground arith, ground arith)

module _ {U : Type 0} (env : Env U) (c : Call) (w v : World U) (r u : ReserveData)
    (w1 : World U) where
  allowed :
      w.pool.protocol_locked ≡ false
      → Begun env (caller_of c) (asset_of c) (locked true w) v r u w1
      → Usable (locked true w).pool r
      → Allowed env c w
  unfolding check_access validate_reserve_whitelist_access validate_reserve_blacklist_access
  allowed free b (unpaused, active, running) = record {
    signed = b.signed;
    unlocked = free;
    unpaused = unpaused;
    access = b.access;
    reserve = r;
    found = b.found;
    active = active;
    running = running;
  }

-- A call that succeeds was signed by its caller, whom the reserve's lists let pass, and found the
-- pool neither locked nor paused and the asset's reserve stored, active and not paused.
pub outcome-Allowed :
    {U : Type 0} (env : Env U) (c : Call) (w w' : World U)
    → outcome env c w ≡ ok w'
    → Allowed env c w
unfolding outcome router_supply router_withdraw router_borrow router_repay
outcome-Allowed env (supply_call caller asset amount user) w w' h =
    let (a, e) = world_of-eq-ok (router_supply env caller asset amount user w) h in
    let (v, free, f, _) = guarded_lem (supply env caller asset amount user) w w' a e in
    let (r, u, w1, _, _, _, begun, valid, _, _, _, _) =
      supply_parts env caller asset (locked true w) v amount user f in
    allowed env (supply_call caller asset amount user) w v r u w1 free begun
      (validate_supply-Usable _ amount r valid)
outcome-Allowed env (withdraw_call caller asset amount to) w w' h =
    let (a, e) = world_of-eq-ok (router_withdraw env caller asset amount to w) h in
    let (v, free, f, _) = guarded_lem (withdraw env caller asset amount to) w w' a e in
    let (r, u, w1, _, _, _, _, _, begun, valid, _, _, _, _, _, _) =
      withdraw_parts env caller asset (locked true w) v amount a to f in
    allowed env (withdraw_call caller asset amount to) w v r u w1 free begun
      (validate_withdraw-Usable _ amount r valid)
outcome-Allowed env (borrow_call caller asset amount mode user) w w' h =
    let (a, e) = world_of-eq-ok (router_borrow env caller asset amount mode user w) h in
    let (v, free, f, _) = guarded_lem (borrow env caller asset amount mode user) w w' a e in
    let (r, u, w1, _, _, _, begun, valid, _, _, _, _) =
      borrow_parts env caller asset (locked true w) v amount mode user f in
    allowed env (borrow_call caller asset amount mode user) w v r u w1 free begun
      (validate_borrow-Usable _ amount mode r valid)
outcome-Allowed env (repay_call caller asset amount mode user) w w' h =
    let (a, e) = world_of-eq-ok (router_repay env caller asset amount mode user w) h in
    let (v, free, f, _) = guarded_lem (repay env caller asset amount mode user) w w' a e in
    let (r, u, w1, _, _, _, _, begun, valid, _, _, _, _, _, _) =
      repay_parts env caller asset (locked true w) v amount mode a user f in
    allowed env (repay_call caller asset amount mode user) w v r u w1 free begun
      (validate_repay-Usable _ amount mode r valid)
