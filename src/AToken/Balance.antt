-- ===== src/AToken/Balance.antt =====
-- Balances in amounts (src/balance.rs): the scaled balance times an index, rounded half up.
use k.Base.{ℕ, ok, ok_or, or_panic, map_err, ◌>>=◌}
use k.Base.Int.{ℤ}
use k.Shared.Errors.{invalid_index, math_overflow_code}
use k.Shared.Host.{Address}
use k.Shared.RayMath.{ray_mul}
use k.Shared.Signed.{safe_i128_to_u128, safe_u128_to_i128}
use k.AToken.State.{Token, Env, Outcome, get_state, get_scaled_balance}

-- `i128::try_from(..).unwrap_or_else(panic)` panics where `safe_u128_to_i128` does, with its code.
unfoldable pub balance_of_with_index : Token → Address → ℕ → Outcome ℤ
balance_of_with_index t id liquidity_index = do
  scaled_balance_u128 ← safe_i128_to_u128 (get_scaled_balance t id)
  result ← or_panic (ray_mul scaled_balance_u128 liquidity_index) math_overflow_code
  safe_u128_to_i128 result

unfoldable pub balance_of : Env → Token → Address → Outcome ℤ
unfolding get_state
balance_of env t id = do
  state ← get_state t
  liquidity_index ← ok_or env.current_liquidity_index invalid_index
  balance_of_with_index t id liquidity_index

unfoldable pub total_supply : Env → Token → Outcome ℤ
unfolding get_state
total_supply env t = do
  state ← get_state t
  liquidity_index ← ok_or env.current_liquidity_index invalid_index
  total_supply_u128 ← safe_i128_to_u128 state.total_supply_scaled
  result ← or_panic (ray_mul total_supply_u128 liquidity_index) math_overflow_code
  safe_u128_to_i128 result

unfoldable pub total_supply_with_index : Token → ℕ → Outcome ℕ
unfolding get_state
total_supply_with_index t index = do
  state ← get_state t
  total_supply_u128 ← safe_i128_to_u128 state.total_supply_scaled
  map_err (ray_mul total_supply_u128 index) invalid_index

-- `get_state(..).unwrap_or_else(panic)`
unfoldable pub scaled_total_supply : Token → Outcome ℤ
unfolding get_state
scaled_total_supply t = do state ← or_panic (get_state t) 6; ok state.total_supply_scaled
