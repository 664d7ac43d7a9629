-- ===== src/DebtToken/Supply.antt =====
-- Borrowing and repaying (src/contract.rs): `mint_scaled` and `burn_scaled`.
use k.Base.{ℕ, ◌==◌, ltb, leb, if◌then◌else◌, Bool, not, ok, ok_or, map_err, fail_if, ◌>>=◌, ◌>>◌}
use k.Base.Int.{ℤ}
use k.Shared.Errors.{
  unauthorized, invalid_amount, invalid_index, transfer_failed, insufficient_balance,
}
use k.Shared.Host.{Address, require_auth}
use k.Shared.RayMath.{ray_mul, ray_div_down, ray_div_up}
use k.Shared.Signed.{checked_add_i128, checked_sub_i128, safe_u128_to_i128}
use k.Shared.Wide.{checked_add, checked_sub}
use k.DebtToken.State.{
  DebtToken, Env, Outcome, get_state, get_scaled_debt, set_scaled_debt, set_state,
  is_authorized_caller, handle_incentives_action,
}

-- (is_first_borrow, new scaled debt, total scaled debt)
unfoldable pub mint_scaled :
    Env → Address → Address → ℕ → ℕ → DebtToken → Outcome ((Bool × ℤ × ℤ) × DebtToken)
unfolding get_state
mint_scaled env caller on_behalf_of amount index t = do
  require_auth env.auth caller
  state ← get_state t
  fail_if (not (caller == state.pool_address)) unauthorized
  fail_if (amount == 0) invalid_amount
  fail_if (index == 0) invalid_index
  amount_scaled ← map_err (ray_div_up amount index) invalid_index
  let current_scaled_debt = get_scaled_debt t on_behalf_of
  let is_first_borrow = current_scaled_debt == 0
  new_scaled_debt ← ok_or (checked_add current_scaled_debt amount_scaled) transfer_failed
  let owing = set_scaled_debt t on_behalf_of new_scaled_debt
  amount_scaled_i128 ← safe_u128_to_i128 amount_scaled
  new_scaled_debt_i128 ← safe_u128_to_i128 new_scaled_debt
  total ← ok_or (checked_add_i128 state.total_debt_scaled amount_scaled_i128) transfer_failed
  let t' = set_state owing (record state { total_debt_scaled = total })
  shown ← safe_u128_to_i128 amount
  handle_incentives_action t' on_behalf_of
  ok ((is_first_borrow, new_scaled_debt_i128, total), t')

-- The scaled units to take off, and the debt that is then left: a remainder of at most one unit is
-- burned with the rest.
unfoldable pub sweep_dust : ℕ → ℕ → ℕ → ℕ × ℕ
sweep_dust current_scaled_debt amount_scaled new_scaled_debt =
    if leb new_scaled_debt 1 then (current_scaled_debt, 0) else (amount_scaled, new_scaled_debt)

-- (whether the debt is now 0, total scaled debt, new scaled debt)
unfoldable pub burn_scaled :
    Env → Address → Address → ℕ → ℕ → DebtToken → Outcome ((Bool × ℤ × ℤ) × DebtToken)
unfolding get_state sweep_dust
burn_scaled env caller on_behalf_of amount index t = do
  require_auth env.auth caller
  state ← get_state t
  fail_if (not (is_authorized_caller caller state.pool_address)) unauthorized
  fail_if (amount == 0) invalid_amount
  fail_if (index == 0) invalid_index
  requested ← map_err (ray_div_down amount index) invalid_index
  let current_scaled_debt = get_scaled_debt t on_behalf_of
  fail_if (ltb current_scaled_debt requested) insufficient_balance
  new_scaled_debt ← ok_or (checked_sub current_scaled_debt requested) insufficient_balance
  let swept = sweep_dust current_scaled_debt requested new_scaled_debt
  let amount_scaled = swept.0
  let left = set_scaled_debt t on_behalf_of (swept.1)
  final_user_scaled_debt ← safe_u128_to_i128 (swept.1)
  amount_scaled_i128 ← safe_u128_to_i128 amount_scaled
  total ← ok_or (checked_sub_i128 state.total_debt_scaled amount_scaled_i128) transfer_failed
  let t' = set_state left (record state { total_debt_scaled = total })
  actual_amount ← map_err (ray_mul amount_scaled index) invalid_index
  shown ← safe_u128_to_i128 actual_amount
  handle_incentives_action t' on_behalf_of
  ok ((swept.1 == 0, total, final_user_scaled_debt), t')
