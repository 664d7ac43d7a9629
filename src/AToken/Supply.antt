-- ===== src/AToken/Supply.antt =====
-- Minting and burning (src/contract.rs): `mint_scaled`, `burn_scaled`,
-- `burn_scaled_and_transfer_to` and `transfer_underlying_to`.
use Prim.Native.Nat.{min}
use k.Base.{
  ℕ, ◌==◌, if◌then◌else◌, Bool, not, ok, panic, host, ok_or, map_err, fail_if, ◌>>=◌, ◌>>◌,
}
use k.Base.Int.{ℤ, ltb_ℤ}
use k.Shared.Errors.{
  unauthorized, invalid_amount, invalid_index, transfer_failed, insufficient_balance,
}
use k.Shared.Host.{Address, require_auth}
use k.Shared.RayMath.{ray_mul, ray_mul_down, ray_div_down, ray_div_up}
use k.Shared.Signed.{
  is_zero, checked_add_i128, checked_sub_i128, safe_u128_to_i128, safe_i128_to_u128,
}
use k.AToken.State.{
  ATokenState, Token, Env, Outcome, get_state, get_scaled_balance, set_scaled_balance, set_state,
  is_authorized_caller, handle_incentives_action,
}

-- (is_first_supply, new scaled balance, total scaled supply)
unfoldable pub mint_scaled :
    Env → Address → Address → ℕ → ℕ → Token → Outcome ((Bool × ℤ × ℤ) × Token)
unfolding get_state
mint_scaled env caller on_behalf_of amount index t = do
  require_auth env.auth caller
  state ← get_state t
  fail_if (not (caller == state.pool_address)) unauthorized
  fail_if (amount == 0) invalid_amount
  fail_if (index == 0) invalid_index
  scaled_u128 ← map_err (ray_div_down amount index) invalid_index
  amount_scaled ← safe_u128_to_i128 scaled_u128
  let current_scaled_balance = get_scaled_balance t on_behalf_of
  let is_first_supply = is_zero current_scaled_balance
  new_scaled_balance ← ok_or (checked_add_i128 current_scaled_balance amount_scaled) transfer_failed
  let credited = set_scaled_balance t on_behalf_of new_scaled_balance
  total ← ok_or (checked_add_i128 state.total_supply_scaled amount_scaled) transfer_failed
  let t' = set_state credited (record state { total_supply_scaled = total })
  shown ← safe_u128_to_i128 amount
  handle_incentives_action t' on_behalf_of
  ok ((is_first_supply, new_scaled_balance, total), t')

-- The part that `burn_scaled` and `burn_scaled_and_transfer_to` have in common: the guards, and
-- the capped amount of scaled units that goes.
unfoldable pub scaled_to_burn : Env → Address → Address → ℕ → ℕ → Token → Outcome (ATokenState × ℤ)
unfolding get_state
scaled_to_burn env caller on_behalf_of amount index t = do
  require_auth env.auth caller
  state ← get_state t
  fail_if (not (is_authorized_caller caller state.pool_address)) unauthorized
  fail_if (amount == 0) invalid_amount
  fail_if (index == 0) invalid_index
  scaled_u128 ← map_err (ray_div_up amount index) invalid_index
  uncapped ← safe_u128_to_i128 scaled_u128
  let current_scaled_balance = get_scaled_balance t on_behalf_of
  let amount_scaled =
      if ltb_ℤ current_scaled_balance uncapped then current_scaled_balance else uncapped
  fail_if (is_zero amount_scaled) invalid_amount
  ok (state, amount_scaled)

-- Both then take the units off the balance and the total: (new balance, new total, new state).
unfoldable pub debit_scaled : Token → ATokenState → Address → ℤ → Outcome (ℤ × ℤ × Token)
debit_scaled t state on_behalf_of amount_scaled = do
  new_scaled_balance ←
      ok_or (checked_sub_i128 (get_scaled_balance t on_behalf_of) amount_scaled)
        insufficient_balance
  let debited = set_scaled_balance t on_behalf_of new_scaled_balance
  total ← ok_or (checked_sub_i128 state.total_supply_scaled amount_scaled) transfer_failed
  ok (new_scaled_balance, total, set_state debited (record state { total_supply_scaled = total }))

-- (whether the balance is now 0, total scaled supply)
unfoldable pub burn_scaled : Env → Address → Address → ℕ → ℕ → Token → Outcome ((Bool × ℤ) × Token)
burn_scaled env caller on_behalf_of amount index t = do
  (state, amount_scaled) ← scaled_to_burn env caller on_behalf_of amount index t
  (new_scaled_balance, total, t') ← debit_scaled t state on_behalf_of amount_scaled
  burned ← safe_i128_to_u128 amount_scaled
  actual_amount ← map_err (ray_mul burned index) invalid_index
  shown ← safe_u128_to_i128 actual_amount
  handle_incentives_action t' on_behalf_of
  ok ((is_zero new_scaled_balance, total), t')

-- `env.invoke_contract` of the underlying token's `transfer`: a failure traps.
unfoldable pub pay : Env → Address → ℤ → Outcome (Unit {0})
pay env target amount = if env.pays target amount then ok tt else panic host

-- (new scaled balance, total scaled supply, amount transferred)
unfoldable pub burn_scaled_and_transfer_to :
    Env → Address → Address → ℕ → ℕ → Address → Token → Outcome ((ℤ × ℤ × ℕ) × Token)
unfolding pay
burn_scaled_and_transfer_to env caller on_behalf_of amount index transfer_target t = do
  (state, amount_scaled) ← scaled_to_burn env caller on_behalf_of amount index t
  (new_scaled_balance, total, t') ← debit_scaled t state on_behalf_of amount_scaled
  burned ← safe_i128_to_u128 amount_scaled
  uncapped_amount ← map_err (ray_mul_down burned index) invalid_index
  let actual_amount = min uncapped_amount amount
  actual_amount_i128 ← safe_u128_to_i128 actual_amount
  handle_incentives_action t' on_behalf_of
  pay env transfer_target actual_amount_i128
  ok ((new_scaled_balance, total, actual_amount), t')

unfoldable pub transfer_underlying_to : Env → Address → Address → ℕ → Token → Outcome (Bool × Token)
unfolding get_state pay
transfer_underlying_to env caller target amount t = do
  require_auth env.auth caller
  state ← get_state t
  fail_if (not (caller == state.pool_address)) unauthorized
  fail_if (amount == 0) invalid_amount
  underlying_balance ← ok_or env.underlying_balance transfer_failed
  amount_i128 ← safe_u128_to_i128 amount
  fail_if (ltb_ℤ underlying_balance amount_i128) insufficient_balance
  pay env target amount_i128
  ok (Bool.true, t)
