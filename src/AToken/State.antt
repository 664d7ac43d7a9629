-- ===== src/AToken/State.antt =====
-- The token's storage (src/storage.rs), what it calls outside, and the hook it calls after each
-- change (`handle_incentives_action`, `validate_not_blacklisted` and
-- `validate_recipient_whitelist` in src/contract.rs).
use k.Base.{ℕ, ◌==◌, Bool, not, Option, none, some, Result, ok, err, ok_or, fail_if, ◌>>=◌, ◌>>◌}
use k.Base.Int.{ℤ, pos}
use k.Shared.Errors.{
  TokenError, token_not_found, already_initialized, unauthorized, transfer_failed,
}
use k.Shared.Host.{Address, Auth, require_auth}
use k.Shared.Signed.{safe_i128_to_u128}
use k.Shared.Balances.{Ledger, get, put}

pub record ATokenState : Type 0 where
  pub underlying_asset : Address
  pub pool_address : Address
  pub total_supply_scaled : ℤ
  pub token_decimals : ℕ

pub record AllowanceData : Type 0 where
  pub amount : ℤ
  pub expiration_ledger : ℕ

pub record Token : Type 0 where
  pub state : Option ATokenState
  pub admin : Option Address
  pub balances : Ledger
  pub allowances : Address → Address → Option AllowanceData
  pub incentives_contract : Option Address

-- What one invocation sees of the host and of the other contracts. A call that fails gives `none`
-- (or `false`). `pays target amount` says that the underlying token's `transfer` from this
-- contract goes through.
pub record Env : Type 0 where
  pub auth : Auth
  pub sequence : ℕ
  pub current_liquidity_index : Option ℕ
  pub is_whitelisted_for_reserve : Address → Option Bool
  pub is_blacklisted_for_reserve : Address → Option Bool
  pub validate_and_finalize_transfer : Address → Address → ℕ → ℕ → ℕ → Bool
  pub underlying_balance : Option ℤ
  pub pays : Address → ℤ → Bool

abbrev pub Outcome : Type 0 → Type 0
Outcome A = Result TokenError A

unfoldable pub get_state : Token → Outcome ATokenState
get_state t = ok_or t.state token_not_found

abbrev pub get_scaled_balance : Token → Address → ℤ
get_scaled_balance t a = get a t.balances

abbrev pub set_scaled_balance : Token → Address → ℤ → Token
set_scaled_balance t a v = record t { balances = put a v t.balances }

abbrev pub set_state : Token → ATokenState → Token
set_state t s = record t { state = some s }

abbrev pub is_authorized_caller : Address → Address → Bool
is_authorized_caller caller pool = caller == pool

-- The reward hook reads the two scaled amounts and ignores what the incentives contract answers.
unfoldable pub handle_incentives_action : Token → Address → Outcome (Unit {0})
unfolding get_state
handle_incentives_action t user = elim t.incentives_contract [
  | none ↦ ok tt
  | some incentives ↦ do
    user_balance ← safe_i128_to_u128 (get_scaled_balance t user)
    state ← get_state t
    total_supply ← safe_i128_to_u128 state.total_supply_scaled
    ok tt
]

-- Fails closed: a call of the pool that fails blocks the transfer.
unfoldable pub validate_recipient_whitelist : Env → Address → Outcome (Unit {0})
validate_recipient_whitelist env recipient = do
  is_whitelisted ← ok_or (env.is_whitelisted_for_reserve recipient) transfer_failed
  fail_if (not is_whitelisted) transfer_failed

unfoldable pub validate_not_blacklisted : Env → Address → Outcome (Unit {0})
validate_not_blacklisted env account = do
  is_blacklisted ← ok_or (env.is_blacklisted_for_reserve account) transfer_failed
  fail_if is_blacklisted transfer_failed

unfoldable pub initialize : Address → Address → Address → ℕ → Token → Outcome Token
initialize admin underlying_asset pool decimals t = elim t.state [
  | some _ ↦ err already_initialized
  | none ↦ ok (record t {
    admin = some admin;
    state = some (record {
      underlying_asset = underlying_asset;
      pool_address = pool;
      total_supply_scaled = pos 0;
      token_decimals = decimals;
    });
  })
]

unfoldable pub set_incentives_contract : Env → Address → Address → Token → Outcome Token
unfolding get_state
set_incentives_contract env caller incentives t = do
  require_auth env.auth caller
  state ← get_state t
  fail_if (not (caller == state.pool_address)) unauthorized
  ok (record t { incentives_contract = some incentives })
