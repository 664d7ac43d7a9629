-- ===== src/DebtToken/Balance.antt =====
-- Debts in amounts (src/balance.rs): the scaled debt times the borrow index, rounded half up.
use k.Base.{ℕ, ok, ok_or, or_panic, ◌>>=◌}
use k.Base.Int.{ℤ}
use k.Shared.Errors.{invalid_index, math_overflow_code}
use k.Shared.Host.{Address}
use k.Shared.RayMath.{ray_mul}
use k.Shared.Signed.{safe_i128_to_u128, safe_u128_to_i128}
use k.DebtToken.State.{DebtToken, Env, Outcome, get_state, get_scaled_debt}

-- `i128::try_from(..).unwrap_or_else(panic)` panics where `safe_u128_to_i128` does, with its code.
unfoldable pub balance_of_with_index : DebtToken → Address → ℕ → Outcome ℤ
balance_of_with_index t id borrow_index = do
  result ← or_panic (ray_mul (get_scaled_debt t id) borrow_index) math_overflow_code
  safe_u128_to_i128 result

unfoldable pub balance_of : Env → DebtToken → Address → Outcome ℤ
unfolding get_state
balance_of env t id = do
  state ← get_state t
  borrow_index ← ok_or env.current_borrow_index invalid_index
  balance_of_with_index t id borrow_index

unfoldable pub total_supply_with_index : DebtToken → ℕ → Outcome ℤ
unfolding get_state
total_supply_with_index t borrow_index = do
  state ← get_state t
  total_debt_u128 ← safe_i128_to_u128 state.total_debt_scaled
  result ← or_panic (ray_mul total_debt_u128 borrow_index) math_overflow_code
  safe_u128_to_i128 result

unfoldable pub total_supply : Env → DebtToken → Outcome ℤ
unfolding get_state
total_supply env t = do
  state ← get_state t
  borrow_index ← ok_or env.current_borrow_index invalid_index
  total_supply_with_index t borrow_index

-- `get_state(..).unwrap_or_else(panic)`
unfoldable pub scaled_total_supply : DebtToken → Outcome ℤ
unfolding get_state
scaled_total_supply t = do state ← or_panic (get_state t) 6; ok state.total_debt_scaled
