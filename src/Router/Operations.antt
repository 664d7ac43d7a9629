-- ===== src/Router/Operations.antt =====
-- The four operations of a user (src/operations.rs, with the reentrancy guard of src/router.rs): the
-- parts that they have in common. A step that fails ends the invocation, and the host rolls it back.
pub mod Supply
pub mod Withdraw
pub mod Borrow
pub mod Repay
pub mod Parts
pub mod Frame
pub mod Sound
pub mod Positions
pub mod Settlement
pub mod Deposits
pub mod Redemption
pub mod Transfer
pub mod Collateral
use k.Base.{
  ℕ, ◌*◌, ◌==◌, ltb, leb, if◌then◌else◌, Bool, true, false, not, none, ok, ok_or, fail_if, ◌>>=◌,
  ◌>>◌,
}
use k.Shared.Errors.{math_overflow}
use k.Shared.Host.{Address, Auth, require_auth}
use k.Shared.ReserveConfig.{get_min_remaining_debt, get_decimals}
use k.Shared.UserConfig.{UserConfiguration, count_active_reserves}
use k.Shared.Wide.{checked_mul}
use k.Router.Accrual.{ReserveData, Reserves, Outcome, get_reserve_data, update_state}
use k.Router.State.{Pool, World, Env, panic_if}
use k.Router.Access.{validate_reserve_whitelist_access, validate_reserve_blacklist_access}
use k.Router.Rates.{update_interest_rates_and_store}
use k.Router.Liquidation.{pow_ten}

-- `MAX_USER_RESERVES` of src/storage.rs
abbrev pub max_user_reserves : ℕ
max_user_reserves = 15

-- `SecurityError`, `OperationError` and `UserReserveError` as the panics carry them.
abbrev pub reentrancy_detected : ℕ
reentrancy_detected = 1

abbrev pub recipient_is_a_token : ℕ
recipient_is_a_token = 2

abbrev pub recipient_is_debt_token : ℕ
recipient_is_debt_token = 3

abbrev pub debt_token_burn_failed : ℕ
debt_token_burn_failed = 4

abbrev pub repay_would_leave_dust : ℕ
repay_would_leave_dust = 6

abbrev pub max_user_reserves_exceeded : ℕ
max_user_reserves_exceeded = 1

abbrev pub in_pool : {U : Type 0} → World U → Pool → World U
in_pool w p = record w { pool = p }

abbrev pub locked : {U : Type 0} → Bool → World U → World U
locked b w = in_pool w (record w.pool { protocol_locked = b })

-- `acquire_reentrancy_guard` before an operation, and the guard's `drop` after it.
unfoldable pub guarded :
    {U A : Type 0} → (World U → Outcome (A × World U)) → World U → Outcome (A × World U)
guarded operation w = do
  panic_if w.pool.protocol_locked reentrancy_detected
  (out, w') ← operation (locked true w)
  ok (out, locked false w')

unfoldable pub check_access : Pool → Address → Address → Outcome (Unit {0})
check_access p asset user = do
  validate_reserve_whitelist_access p asset user
  validate_reserve_blacklist_access p asset user

-- A second account is checked where it is not the caller.
abbrev pub unless_caller : Address → Address → Outcome (Unit {0}) → Outcome (Unit {0})
unless_caller caller other check = if caller == other then ok tt else check

-- Neither token contract may receive.
unfoldable pub check_recipient : ReserveData → Address → Outcome (Unit {0})
check_recipient r recipient = do
  panic_if (recipient == r.a_token_address) recipient_is_a_token
  panic_if (recipient == r.debt_token_address) recipient_is_debt_token

-- A user may hold positions in 15 reserves.
abbrev pub check_positions : UserConfiguration → Outcome (Unit {0})
check_positions c =
    panic_if (leb max_user_reserves (count_active_reserves c)) max_user_reserves_exceeded

-- `update_state` on the pool's storage.
unfoldable pub accrue :
    {U : Type 0} → ℕ → Address → ReserveData → World U → Outcome (ReserveData × World U)
accrue now asset r w = do
  (updated, reserves) ← update_state now asset r w.pool.reserves
  ok (updated, in_pool w (record w.pool { reserves = reserves }))

-- The rates that follow from the new utilization, as every operation ends.
unfoldable pub settle_rates : {U : Type 0} → Address → ReserveData → World U → Outcome (World U)
settle_rates asset r w = do
  p ← update_interest_rates_and_store w.contracts asset r none none w.pool
  ok (in_pool w p)

-- The least debt that a position may have, where the reserve's configuration sets one.
unfoldable pub min_debt_of : ReserveData → Outcome ℕ
min_debt_of r = do
  debt_decimals_pow ← pow_ten (get_decimals r.configuration)
  ok_or (checked_mul (get_min_remaining_debt r.configuration) debt_decimals_pow) math_overflow
