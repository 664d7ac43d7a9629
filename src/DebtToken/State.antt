-- ===== src/DebtToken/State.antt =====
-- The token's storage (src/storage.rs), what it calls outside, the reward hook, and the functions
-- of src/contract.rs that set the contract up or always refuse.
use k.Base.{ℕ, ◌==◌, not, Bool, Option, none, some, Result, ok, err, ok_or, fail_if, ◌>>=◌, ◌>>◌}
use k.Base.Int.{ℤ, pos}
use k.Shared.Errors.{
  TokenError, token_not_found, already_initialized, unauthorized, unsupported_operation,
}
use k.Shared.Host.{Address, Auth, require_auth}
use k.Shared.Signed.{safe_i128_to_u128}
use k.Shared.Debts.{Debts, debt_of, put_debt}

pub record DebtTokenState : Type 0 where
  pub borrowed_asset : Address
  pub pool_address : Address
  pub total_debt_scaled : ℤ
  pub decimals : ℕ

pub record DebtToken : Type 0 where
  pub state : Option DebtTokenState
  pub admin : Option Address
  pub debts : Debts
  pub incentives_contract : Option Address

-- What one invocation sees: the signatures, and the pool's answer to `get_current_var_borrow_idx`,
-- `none` where that call fails.
pub record Env : Type 0 where
  pub auth : Auth
  pub current_borrow_index : Option ℕ

abbrev pub Outcome : Type 0 → Type 0
Outcome A = Result TokenError A

unfoldable pub get_state : DebtToken → Outcome DebtTokenState
get_state t = ok_or t.state token_not_found

abbrev pub get_scaled_debt : DebtToken → Address → ℕ
get_scaled_debt t a = debt_of a t.debts

abbrev pub set_scaled_debt : DebtToken → Address → ℕ → DebtToken
set_scaled_debt t a v = record t { debts = put_debt a v t.debts }

abbrev pub set_state : DebtToken → DebtTokenState → DebtToken
set_state t s = record t { state = some s }

abbrev pub is_authorized_caller : Address → Address → Bool
is_authorized_caller caller pool = caller == pool

-- The reward hook reads the scaled total and ignores what the incentives contract answers.
unfoldable pub handle_incentives_action : DebtToken → Address → Outcome (Unit {0})
unfolding get_state
handle_incentives_action t user = elim t.incentives_contract [
  | none ↦ ok tt
  | some incentives ↦ do
    state ← get_state t
    total_supply ← safe_i128_to_u128 state.total_debt_scaled
    ok tt
]

unfoldable pub initialize : Address → Address → Address → ℕ → DebtToken → Outcome DebtToken
initialize admin borrowed_asset pool decimals t = elim t.state [
  | some _ ↦ err already_initialized
  | none ↦ ok (record t {
    admin = some admin;
    state = some (record {
      borrowed_asset = borrowed_asset;
      pool_address = pool;
      total_debt_scaled = pos 0;
      decimals = decimals;
    });
  })
]

unfoldable pub set_incentives_contract : Env → Address → Address → DebtToken → Outcome DebtToken
unfolding get_state
set_incentives_contract env caller incentives t = do
  require_auth env.auth caller
  state ← get_state t
  fail_if (not (caller == state.pool_address)) unauthorized
  ok (record t { incentives_contract = some incentives })

-- Debt does not move between accounts, and nobody can be allowed to move it.
unfoldable pub allowance : Address → Address → ℤ
allowance from spender = pos 0

unfoldable pub approve : Address → Address → ℤ → ℕ → DebtToken → Outcome DebtToken
approve from spender amount expiration_ledger t = err unsupported_operation

unfoldable pub transfer : Address → Address → ℤ → DebtToken → Outcome DebtToken
transfer from to amount t = err unsupported_operation

unfoldable pub transfer_from : Address → Address → Address → ℤ → DebtToken → Outcome DebtToken
transfer_from spender from to amount t = err unsupported_operation

unfoldable pub burn : Address → ℤ → DebtToken → Outcome DebtToken
burn from amount t = err unsupported_operation

unfoldable pub burn_from : Address → Address → ℤ → DebtToken → Outcome DebtToken
burn_from spender from amount t = err unsupported_operation

unfoldable pub mint : Address → ℤ → DebtToken → Outcome DebtToken
mint to amount t = err unsupported_operation
