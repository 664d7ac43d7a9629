-- ===== src/Router/Calls.antt =====
-- The pool's calls of the two tokens, the rate strategy and the underlying tokens. The callee sees
-- the pool as its caller, which needs no signature, and cannot call the pool again: the host
-- forbids it, so the pool's index is not to be had.
pub mod Effects
use k.Base.{ℕ, ◌==◌, Bool, false, Option, none, some, Result, ok, ok_or, ◌>>=◌, ◌>>◌}
use k.Base.Int.{ℤ, pos}
use k.Shared.Errors.{TokenError, KineticRouterError, transfer_failed}
use k.Shared.Host.{Address}
use k.AToken.State as AState
use k.AToken.Supply as ASupply
use k.AToken.Balance as ABalance
use k.DebtToken.State as DState
use k.DebtToken.Supply as DSupply
use k.DebtToken.Balance as DBalance
use k.Router.State.{
  Contract, a_token, debt_token, World, Env, a_token_at, debt_token_at, set_contract,
}

abbrev pub TokenOutcome : Type 0 → Type 0
TokenOutcome A = Result TokenError A

abbrev pub is_some : {A : Type 0} → Option A → Bool
is_some none = false
is_some (some a) = Bool.true

module _ {U : Type 0} (env : Env U) where
  -- What the deposit token at `address` sees when the pool calls it.
  abbrev pub a_token_env : World U → Address → AState.Token → AState.Env
  a_token_env w address t = record {
    auth = λ a. a == env.self;
    sequence = 0;
    current_liquidity_index = none;
    is_whitelisted_for_reserve = λ a. none;
    is_blacklisted_for_reserve = λ a. none;
    validate_and_finalize_transfer = λ from to x y z. false;
    underlying_balance = elim t.state [
      | none ↦ none
      | some s ↦ env.balance s.underlying_asset address w.underlying
    ];
    pays = λ to amount. elim t.state [
      | none ↦ false
      | some s ↦ is_some (env.transfer s.underlying_asset address to amount w.underlying)
    ];
  }

  abbrev pub debt_token_env : DState.Env
  debt_token_env = record { auth = λ a. a == env.self; current_borrow_index = none }

  abbrev put_contract : World U → Address → Contract → World U
  put_contract w address c = record w { contracts = set_contract w.contracts address c }

  unfoldable pub mint_deposit :
      World U → Address → Address → ℕ → ℕ → TokenOutcome ((Bool × ℤ × ℤ) × World U)
  mint_deposit w address user amount index = do
    t ← a_token_at w.contracts address
    (out, t') ← ASupply.mint_scaled (a_token_env w address t) env.self user amount index t
    ok (out, put_contract w address (a_token t'))

  unfoldable pub burn_deposit :
      World U → Address → Address → ℕ → ℕ → TokenOutcome ((Bool × ℤ) × World U)
  burn_deposit w address user amount index = do
    t ← a_token_at w.contracts address
    (out, t') ← ASupply.burn_scaled (a_token_env w address t) env.self user amount index t
    ok (out, put_contract w address (a_token t'))

  -- The token has found that the transfer goes through, so the last step does not fail.
  unfoldable pub pay_underlying : World U → Address → Address → ℕ → TokenOutcome (Bool × World U)
  pay_underlying w address target amount = do
    t ← a_token_at w.contracts address
    (paid, t') ← ASupply.transfer_underlying_to (a_token_env w address t) env.self target amount t
    s ← AState.get_state t'
    underlying ←
        ok_or (env.transfer s.underlying_asset address target (pos amount) w.underlying)
          transfer_failed
    ok (
      paid,
      record w {
        contracts = set_contract w.contracts address (a_token t');
        underlying = underlying;
      },
    )

  unfoldable pub mint_debt :
      World U → Address → Address → ℕ → ℕ → TokenOutcome ((Bool × ℤ × ℤ) × World U)
  mint_debt w address user amount index = do
    t ← debt_token_at w.contracts address
    (out, t') ← DSupply.mint_scaled debt_token_env env.self user amount index t
    ok (out, put_contract w address (debt_token t'))

  unfoldable pub burn_debt :
      World U → Address → Address → ℕ → ℕ → TokenOutcome ((Bool × ℤ × ℤ) × World U)
  burn_debt w address user amount index = do
    t ← debt_token_at w.contracts address
    (out, t') ← DSupply.burn_scaled debt_token_env env.self user amount index t
    ok (out, put_contract w address (debt_token t'))

module _ {U : Type 0} where
  unfoldable pub deposit_of : World U → Address → Address → ℕ → TokenOutcome ℤ
  deposit_of w address user index = do
    t ← a_token_at w.contracts address
    ABalance.balance_of_with_index t user index

  unfoldable pub debt_of_user : World U → Address → Address → ℕ → TokenOutcome ℤ
  debt_of_user w address user index = do
    t ← debt_token_at w.contracts address
    DBalance.balance_of_with_index t user index
