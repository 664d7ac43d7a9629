-- ===== src/Router/Operations/Repay.antt =====
-- `repay` (src/operations.rs).
use Prim.Native.Nat.{min}
use k.Base.{
  ℕ, ◌≡◌, ◌==◌, ltb, if◌then◌else◌, false, ok, ok_or, err, panic, contract, fail_if, ◌>>=◌, ◌>>◌,
}
use k.Shared.Constants.{u128_max}
use k.Shared.Errors.{
  token_call_failed, no_debt_of_requested_type, underlying_transfer_failed, math_overflow,
}
use k.Shared.Host.{Address, require_auth}
use k.Shared.ReserveConfig.{get_min_remaining_debt}
use k.Shared.Signed.{safe_i128_to_u128, safe_u128_to_i128, safe_reserve_id}
use k.Shared.UserConfig.{set_borrowing}
use k.Shared.Wide.{checked_sub}
use k.Router.Accrual.{ReserveData, Outcome, get_reserve_data}
use k.Router.State.{
  Pool, World, Env, caught, panic_if, get_user_configuration, set_user_configuration,
}
use k.Router.Access.{validate_reserve_whitelist_access}
use k.Router.Calls.{TokenOutcome, burn_debt, debt_of_user}
use k.Router.Validation.{validate_repay}
use k.Router.Operations.{
  check_access, unless_caller, accrue, settle_rates, guarded, in_pool, min_debt_of,
  debt_token_burn_failed, repay_would_leave_dust,
}

abbrev check_dust : ℕ → ReserveData → Outcome (Unit {0})
check_dust remaining r = do
  min_debt ← min_debt_of r
  panic_if (ltb remaining min_debt) repay_would_leave_dust

abbrev pub leaves_no_dust : ℕ → ReserveData → Outcome (Unit {0})
leaves_no_dust remaining r =
    if remaining == 0
    then ok tt
    else if get_min_remaining_debt r.configuration == 0
    then ok tt
    else check_dust remaining r

abbrev part_to_repay : ℕ → ℕ → ReserveData → Outcome ℕ
part_to_repay amount debt_balance r = do
  let tentative = min amount debt_balance
  remaining ← ok_or (checked_sub debt_balance tentative) math_overflow
  leaves_no_dust remaining r
  ok tentative

-- The largest `u128` repays everything; a part may not leave less than the least debt.
unfoldable pub amount_to_repay : ℕ → ℕ → ReserveData → Outcome ℕ
amount_to_repay amount debt_balance r =
    if amount == u128_max then ok debt_balance else part_to_repay amount debt_balance r

-- A burn that fails in any way panics.
abbrev pub or_burn_failed : {A : Type 0} → TokenOutcome A → Outcome A
or_burn_failed (ok a) = ok a
or_burn_failed (err e) = panic (contract debt_token_burn_failed)
or_burn_failed (panic p) = panic (contract debt_token_burn_failed)

pub or_burn_failed-eq-ok :
    {A : Type 0} (m : TokenOutcome A) {a : A} → or_burn_failed m ≡ ok a → m ≡ ok a
or_burn_failed-eq-ok (ok b) h = cc
or_burn_failed-eq-ok (err e) h = cc
or_burn_failed-eq-ok (panic p) h = cc

abbrev pub clear_borrowing : Address → ReserveData → Pool → Outcome Pool
clear_borrowing user r p = do
  reserve_id ← safe_reserve_id r.id
  ok (
      set_user_configuration p user
        (set_borrowing (get_user_configuration p user) reserve_id false))

-- No debt left, no borrowing flag.
unfoldable pub clear_if_repaid : ℕ → Address → ReserveData → Pool → Outcome Pool
clear_if_repaid remaining user r p = if remaining == 0 then clear_borrowing user r p else ok p

module _ {U : Type 0} (env : Env U) where
  -- The borrower's debt at the updated index, which must not be 0.
  unfoldable pub debt_to_repay : Address → ReserveData → World U → Outcome ℕ
  debt_to_repay user r w = do
    balance ←
        caught (debt_of_user w r.debt_token_address user r.variable_borrow_index) token_call_failed
    debt_balance ← safe_i128_to_u128 balance
    fail_if (debt_balance == 0) no_debt_of_requested_type
    ok debt_balance

  -- The payer's tokens go to the deposit token, and the debt token burns.
  unfoldable pub take_repayment :
      Address → Address → ℕ → Address → ReserveData → World U → Outcome (World U)
  take_repayment caller asset repaid user r w = do
    repaid_i128 ← safe_u128_to_i128 repaid
    underlying ←
        ok_or (env.transfer_from asset env.self caller r.a_token_address repaid_i128 w.underlying)
          underlying_transfer_failed
    (burned, w') ← or_burn_failed (
        burn_debt env (record w { underlying = underlying }) r.debt_token_address user repaid
          r.variable_borrow_index)
    ok w'

  unfoldable pub repay : Address → Address → ℕ → ℕ → Address → World U → Outcome (ℕ × World U)
  repay caller asset amount rate_mode on_behalf_of w = do
    require_auth env.auth caller
    check_access w.pool asset caller
    unless_caller caller on_behalf_of (validate_reserve_whitelist_access w.pool asset on_behalf_of)
    r ← get_reserve_data w.pool.reserves asset
    validate_repay w.pool amount rate_mode r
    (updated, w1) ← accrue env.now asset r w
    debt_balance ← debt_to_repay on_behalf_of updated w1
    repaid ← amount_to_repay amount debt_balance updated
    w2 ← take_repayment caller asset repaid on_behalf_of updated w1
    remaining_debt ← ok_or (checked_sub debt_balance repaid) math_overflow
    p ← clear_if_repaid remaining_debt on_behalf_of updated w2.pool
    w3 ← settle_rates asset updated (in_pool w2 p)
    ok (repaid, w3)

  -- The entry point of src/router.rs.
  unfoldable pub router_repay :
      Address → Address → ℕ → ℕ → Address → World U → Outcome (ℕ × World U)
  unfolding guarded
  router_repay caller asset amount rate_mode on_behalf_of =
      guarded (repay caller asset amount rate_mode on_behalf_of)
