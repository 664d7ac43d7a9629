-- ===== src/AToken/Transfer.antt =====
-- Transfers and allowances (src/contract.rs): `allowance`, `approve`, `transfer`, `transfer_from`,
-- `transfer_internal` and `transfer_on_liquidation`; `mint`, `burn` and `burn_from` always refuse.
use k.Base.{
  ℕ, ◌==◌, ltb, leb, if◌then◌else◌, Bool, ◌&&◌, not, none, some, ok, err, ok_or, map_err, fail_if,
  ◌>>=◌, ◌>>◌,
}
use k.Base.Int.{ℤ, pos, ◌-ℤ◌, ltb_ℤ, leb_ℤ}
use k.Shared.Errors.{
  unauthorized, invalid_amount, invalid_index, transfer_failed, insufficient_balance,
  insufficient_allowance, unsupported_operation,
}
use k.Shared.Host.{Address, require_auth}
use k.Shared.RayMath.{ray_div_down, ray_div_up}
use k.Shared.Signed.{
  is_zero, checked_add_i128, checked_sub_i128, safe_u128_to_i128, safe_i128_to_u128,
}
use k.AToken.State.{
  AllowanceData, Token, Env, Outcome, get_state, get_scaled_balance, set_scaled_balance,
  handle_incentives_action, validate_recipient_whitelist, validate_not_blacklisted,
}

abbrev set_allowance : Token → Address → Address → AllowanceData → Token
set_allowance t from spender data' = record t {
  allowances = λ f s. if f == from && s == spender then some data' else t.allowances f s;
}

unfoldable pub allowance : Env → Token → Address → Address → ℤ
allowance env t from spender = elim (t.allowances from spender) [
  | none ↦ pos 0
  | some granted ↦ if leb env.sequence granted.expiration_ledger then granted.amount else pos 0
]

unfoldable pub approve : Env → Address → Address → ℤ → ℕ → Token → Outcome Token
unfolding get_state validate_not_blacklisted
approve env from spender amount expiration_ledger t = do
  require_auth env.auth from
  fail_if (ltb_ℤ amount (pos 0)) invalid_amount
  fail_if (ltb_ℤ (pos 0) amount && ltb expiration_ledger env.sequence) invalid_amount
  state ← get_state t
  validate_not_blacklisted env from
  validate_not_blacklisted env spender
  ok (
      set_allowance t from spender
        (record { amount = amount; expiration_ledger = expiration_ledger }))

-- The index of `transfer_internal`: a failed call and a zero index are refused.
unfoldable pub fresh_index : Env → Outcome ℕ
fresh_index env = elim env.current_liquidity_index [
  | none ↦ err invalid_index
  | some index ↦ if ltb 0 index then ok index else err invalid_index
]

-- Debit and credit by the same number of scaled units; the balances are written at the end.
unfoldable pub move_scaled : Env → Address → Address → ℤ → Token → Outcome Token
unfolding fresh_index
move_scaled env from to amount t = do
  liquidity_index ← fresh_index env
  amount_u128 ← safe_i128_to_u128 amount
  scaled_u128 ← map_err (ray_div_up amount_u128 liquidity_index) invalid_index
  scaled_amount ← safe_u128_to_i128 scaled_u128
  let from_scaled_balance = get_scaled_balance t from
  fail_if (ltb_ℤ from_scaled_balance scaled_amount) insufficient_balance
  new_from_balance ← ok_or (checked_sub_i128 from_scaled_balance scaled_amount) insufficient_balance
  let to_scaled_balance = get_scaled_balance t to
  new_to_balance ← ok_or (checked_add_i128 to_scaled_balance scaled_amount) transfer_failed
  from_balance_u128 ← safe_i128_to_u128 new_from_balance
  to_balance_u128 ← safe_i128_to_u128 new_to_balance
  fail_if
      (not
        (env.validate_and_finalize_transfer from to amount_u128 from_balance_u128 to_balance_u128))
      transfer_failed
  let debited = set_scaled_balance t from new_from_balance
  ok (set_scaled_balance debited to new_to_balance)

-- The body of `transfer_internal` below its early return on a transfer to oneself.
unfoldable pub transfer_distinct : Env → Address → Address → ℤ → Token → Outcome Token
unfolding get_state validate_recipient_whitelist validate_not_blacklisted
transfer_distinct env from to amount t = do
  state ← get_state t
  validate_recipient_whitelist env to
  validate_not_blacklisted env from
  validate_not_blacklisted env to
  t' ← move_scaled env from to amount t
  handle_incentives_action t' from
  handle_incentives_action t' to
  ok t'

unfoldable pub transfer_internal : Env → Address → Address → ℤ → Token → Outcome Token
transfer_internal env from to amount t = do
  fail_if (leb_ℤ amount (pos 0)) invalid_amount
  if from == to then ok t else transfer_distinct env from to amount t

unfoldable pub transfer : Env → Address → Address → ℤ → Token → Outcome Token
unfolding transfer_internal
transfer env from to amount t = do
  require_auth env.auth from
  transfer_internal env from to amount t

-- The allowance is taken off what was granted, with its expiry kept.
unfoldable pub spend_allowance : Env → Address → Address → ℤ → Token → Outcome Token
unfolding allowance
spend_allowance env spender from amount t = do
  let current_allowance = allowance env t from spender
  fail_if (ltb_ℤ current_allowance amount) insufficient_allowance
  elim (t.allowances from spender) [
    | none ↦ ok t
    | some granted ↦ do
      left ← ok_or (checked_sub_i128 current_allowance amount) insufficient_allowance
      ok (set_allowance t from spender (record granted { amount = left }))
  ]

unfoldable pub transfer_from : Env → Address → Address → Address → ℤ → Token → Outcome Token
unfolding get_state validate_not_blacklisted spend_allowance transfer_internal
transfer_from env spender from to amount t = do
  require_auth env.auth spender
  fail_if (leb_ℤ amount (pos 0)) invalid_amount
  state ← get_state t
  validate_not_blacklisted env spender
  t' ← spend_allowance env spender from amount t
  if from == to then ok t' else transfer_internal env from to amount t'

-- (whether the receiver held nothing before)
unfoldable pub transfer_on_liquidation :
    Env → Address → Address → Address → ℕ → ℕ → Token → Outcome (Bool × Token)
unfolding get_state
transfer_on_liquidation env caller from to amount index t = do
  require_auth env.auth caller
  state ← get_state t
  fail_if (not (caller == state.pool_address)) unauthorized
  fail_if (amount == 0) invalid_amount
  fail_if (index == 0) invalid_index
  scaled_u128 ← map_err (ray_div_down amount index) invalid_index
  amount_scaled ← safe_u128_to_i128 scaled_u128
  fail_if (is_zero amount_scaled) invalid_amount
  let from_balance = get_scaled_balance t from
  fail_if (ltb_ℤ from_balance amount_scaled) insufficient_balance
  let debited = set_scaled_balance t from (from_balance -ℤ amount_scaled)
  let to_balance = get_scaled_balance debited to
  let is_first = is_zero to_balance
  new_to_balance ← ok_or (checked_add_i128 to_balance amount_scaled) transfer_failed
  let t' = set_scaled_balance debited to new_to_balance
  handle_incentives_action t' from
  handle_incentives_action t' to
  shown ← safe_u128_to_i128 amount
  ok (is_first, t')

unfoldable pub mint : Address → ℤ → Token → Outcome Token
mint to amount t = err unsupported_operation

unfoldable pub burn : Address → ℤ → Token → Outcome Token
burn from amount t = err unsupported_operation

unfoldable pub burn_from : Address → Address → ℤ → Token → Outcome Token
burn_from spender from amount t = err unsupported_operation
