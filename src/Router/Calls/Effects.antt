-- ===== src/Router/Calls/Effects.antt =====
-- What the calls of the tokens do to the contracts, and that every token's books stay balanced.
use k.Base.{
  ℕ, ◌==◌, ◌≡◌, arith, Bool, some, ok, ok_or, >>=-ok_elim, Option-cases, Bool-cases, inl, inr, ◌⊎◌,
}
use k.Base.Int.{ℤ, pos}
use k.Shared.Errors.{transfer_failed}
use k.Shared.Host.{Address}
use k.AToken.State as AState
use k.AToken.Supply as ASupply
use k.AToken.Conservation as AConservation
use k.DebtToken.State as DState
use k.DebtToken.Supply as DSupply
use k.DebtToken.History as DHistory
use k.Router.State.{
  Contract, a_token, debt_token, rate_strategy, Contracts, World, Env, a_token_at, debt_token_at,
  set_contract,
}
use k.Router.Calls.{
  a_token_env, debt_token_env, mint_deposit, burn_deposit, pay_underlying, mint_debt, burn_debt,
}

-- The books of every deposit token and every debt token are balanced.
pub record Sound (m : Contracts) : Type 0 where
  pub deposits : (a : Address) (t : AState.Token) → m a ≡ some (a_token t) → AConservation.Inv t
  pub debts : (a : Address) (t : DState.DebtToken) → m a ≡ some (debt_token t) → DHistory.Inv t

pub a_token_at-eq-ok :
    {E : Type 0} (m : Contracts) (a : Address) (t : AState.Token)
    → a_token_at {E = E} m a ≡ ok t
    → m a ≡ some (a_token t)
unfolding a_token_at
a_token_at-eq-ok m a t h = elim (Option-cases (m a)) [
  | inl e ↦ absurd (cc)
  | inr (a_token s, e) ↦ cc
  | inr (debt_token s, e) ↦ absurd (cc)
  | inr (rate_strategy s, e) ↦ absurd (cc)
]

pub debt_token_at-eq-ok :
    {E : Type 0} (m : Contracts) (a : Address) (t : DState.DebtToken)
    → debt_token_at {E = E} m a ≡ ok t
    → m a ≡ some (debt_token t)
unfolding debt_token_at
debt_token_at-eq-ok m a t h = elim (Option-cases (m a)) [
  | inl e ↦ absurd (cc)
  | inr (a_token s, e) ↦ absurd (cc)
  | inr (debt_token s, e) ↦ cc
  | inr (rate_strategy s, e) ↦ absurd (cc)
]

-- What a token's address holds after the contract at `a` is replaced.
pub set_contract_cases :
    (m : Contracts) (a b : Address) (c d : Contract)
    → set_contract m a c b ≡ some d
    → ((b ≡ a) × (c ≡ d)) ⊎ (m b ≡ some d)
unfolding set_contract
set_contract_cases m a b c d h = elim (Bool-cases (b == a)) [
  | inl same ↦ let found = rw same at h in inl (ground arith, cc)
  | inr other ↦ inr (rw other at h)
]

pub put_a_token-Sound :
    (m : Contracts) (a : Address) (t : AState.Token)
    → AConservation.Inv t
    → Sound m
    → Sound (set_contract m a (a_token t))
put_a_token-Sound m a t i s = record {
  deposits = λ b u e. elim (set_contract_cases m a b (a_token t) (a_token u) e) [
    | inl (_, same) ↦ let same_token : t ≡ u = cc in rw same_token at i
    | inr there ↦ s.deposits b u there
  ];
  debts = λ b u e. elim (set_contract_cases m a b (a_token t) (debt_token u) e) [
    | inl (_, same) ↦ absurd (cc)
    | inr there ↦ s.debts b u there
  ];
}

pub put_debt_token-Sound :
    (m : Contracts) (a : Address) (t : DState.DebtToken)
    → DHistory.Inv t
    → Sound m
    → Sound (set_contract m a (debt_token t))
put_debt_token-Sound m a t i s = record {
  deposits = λ b u e. elim (set_contract_cases m a b (debt_token t) (a_token u) e) [
    | inl (_, same) ↦ absurd (cc)
    | inr there ↦ s.deposits b u there
  ];
  debts = λ b u e. elim (set_contract_cases m a b (debt_token t) (debt_token u) e) [
    | inl (_, same) ↦ let same_token : t ≡ u = cc in rw same_token at i
    | inr there ↦ s.debts b u there
  ];
}

module _ {U : Type 0} (env : Env U) (w w' : World U) (address user : Address)
    (amount index : ℕ) where
  -- The token's own call, the token before and after, and the world with the token replaced.
  pub mint_deposit_parts :
      (out : Bool × ℤ × ℤ)
      → mint_deposit env w address user amount index ≡ ok (out, w')
      → (t : AState.Token) × (t' : AState.Token) × (w.contracts address ≡ some (a_token t))
        × (ASupply.mint_scaled (a_token_env env w address t) env.self user amount index t
            ≡ ok (out, t'))
        × (w' ≡ record w { contracts = set_contract w.contracts address (a_token t') })
  unfolding mint_deposit
  mint_deposit_parts out h = >>=-ok_elim (a_token_at w.contracts address) _ h λ t e rest.
      >>=-ok_elim (ASupply.mint_scaled (a_token_env env w address t) env.self user amount index t) _
        rest
        λ (o, t') f rest.
          let same : o ≡ out = cc in
          (t, t', a_token_at-eq-ok w.contracts address t e, rw same at f, cc)

  pub burn_deposit_parts :
      (out : Bool × ℤ)
      → burn_deposit env w address user amount index ≡ ok (out, w')
      → (t : AState.Token) × (t' : AState.Token) × (w.contracts address ≡ some (a_token t))
        × (ASupply.burn_scaled (a_token_env env w address t) env.self user amount index t
            ≡ ok (out, t'))
        × (w' ≡ record w { contracts = set_contract w.contracts address (a_token t') })
  unfolding burn_deposit
  burn_deposit_parts out h = >>=-ok_elim (a_token_at w.contracts address) _ h λ t e rest.
      >>=-ok_elim (ASupply.burn_scaled (a_token_env env w address t) env.self user amount index t) _
        rest
        λ (o, t') f rest.
          let same : o ≡ out = cc in
          (t, t', a_token_at-eq-ok w.contracts address t e, rw same at f, cc)

  pub mint_debt_parts :
      (out : Bool × ℤ × ℤ)
      → mint_debt env w address user amount index ≡ ok (out, w')
      → (t : DState.DebtToken) × (t' : DState.DebtToken) × (w.contracts address
          ≡ some (debt_token t))
        × (DSupply.mint_scaled (debt_token_env env) env.self user amount index t ≡ ok (out, t'))
        × (w' ≡ record w { contracts = set_contract w.contracts address (debt_token t') })
  unfolding mint_debt
  mint_debt_parts out h = >>=-ok_elim (debt_token_at w.contracts address) _ h λ t e rest.
      >>=-ok_elim (DSupply.mint_scaled (debt_token_env env) env.self user amount index t) _ rest
        λ (o, t') f rest.
          let same : o ≡ out = cc in
          (t, t', debt_token_at-eq-ok w.contracts address t e, rw same at f, cc)

  pub burn_debt_parts :
      (out : Bool × ℤ × ℤ)
      → burn_debt env w address user amount index ≡ ok (out, w')
      → (t : DState.DebtToken) × (t' : DState.DebtToken) × (w.contracts address
          ≡ some (debt_token t))
        × (DSupply.burn_scaled (debt_token_env env) env.self user amount index t ≡ ok (out, t'))
        × (w' ≡ record w { contracts = set_contract w.contracts address (debt_token t') })
  unfolding burn_debt
  burn_debt_parts out h = >>=-ok_elim (debt_token_at w.contracts address) _ h λ t e rest.
      >>=-ok_elim (DSupply.burn_scaled (debt_token_env env) env.self user amount index t) _ rest
        λ (o, t') f rest.
          let same : o ≡ out = cc in
          (t, t', debt_token_at-eq-ok w.contracts address t e, rw same at f, cc)

pub pay_underlying_parts :
    {U : Type 0} (env : Env U) (w w' : World U) (address to : Address) (amount : ℕ) (paid : Bool)
    → pay_underlying env w address to amount ≡ ok (paid, w')
    → (t : AState.Token) × (t' : AState.Token) × (v : U) × (w.contracts address ≡ some (a_token t))
      × (ASupply.transfer_underlying_to (a_token_env env w address t) env.self to amount t
          ≡ ok (paid, t'))
      × (w'
          ≡ record w { contracts = set_contract w.contracts address (a_token t'); underlying = v })
unfolding pay_underlying
pay_underlying_parts env w w' address to amount paid h =
    >>=-ok_elim (a_token_at w.contracts address) _ h λ t e rest.
      >>=-ok_elim
        (ASupply.transfer_underlying_to (a_token_env env w address t) env.self to amount t) _ rest
        λ (o, t') f rest. >>=-ok_elim (AState.get_state t') _ rest λ s g rest.
          >>=-ok_elim
            (ok_or (env.transfer s.underlying_asset address to (pos amount) w.underlying)
              transfer_failed)
            _ rest
            λ v moved rest.
              let same : o ≡ paid = cc in
              (t, t', v, a_token_at-eq-ok w.contracts address t e, rw same at f, cc)

-- The underlying token has moved `amount` from the deposit token at `address` to `to`.
abbrev pub Pays : {U : Type 0} → Env U → Address → Address → ℕ → World U → World U → Type 0
Pays env address to amount w w' =
    (t : AState.Token) × (s : AState.ATokenState) × (w.contracts address ≡ some (a_token t))
    × (t.state ≡ some s)
    × (env.transfer s.underlying_asset address to (pos amount) w.underlying ≡ some w'.underlying)

pub transfer_underlying_to-state :
    (env : AState.Env) (caller target : Address) (amount : ℕ) (paid : Bool) (t t' : AState.Token)
    → ASupply.transfer_underlying_to env caller target amount t ≡ ok (paid, t')
    → t' ≡ t
unfolding ASupply.transfer_underlying_to ASupply.pay
transfer_underlying_to-state env caller target amount paid t t' h = ground arith

state_found :
    (t : AState.Token) (s : AState.ATokenState) → AState.get_state t ≡ ok s → t.state ≡ some s
unfolding AState.get_state
state_found t s h = ground arith

pub pay_underlying-Pays :
    {U : Type 0} (env : Env U) (w w' : World U) (address to : Address) (amount : ℕ) (paid : Bool)
    → pay_underlying env w address to amount ≡ ok (paid, w')
    → Pays env address to amount w w'
unfolding pay_underlying
pay_underlying-Pays env w w' address to amount paid h =
    >>=-ok_elim (a_token_at w.contracts address) _ h λ t e rest.
      >>=-ok_elim
        (ASupply.transfer_underlying_to (a_token_env env w address t) env.self to amount t) _ rest
        λ (o, t') f rest. >>=-ok_elim (AState.get_state t') _ rest λ s g rest.
          >>=-ok_elim
            (ok_or (env.transfer s.underlying_asset address to (pos amount) w.underlying)
              transfer_failed)
            _ rest
            λ v moved rest.
              let same : t' ≡ t =
                transfer_underlying_to-state (a_token_env env w address t) env.self to amount o t t'
                  f in
              let known = state_found t' s g in
              let end : w'.underlying ≡ v = cc in
              (
                t,
                s,
                a_token_at-eq-ok w.contracts address t e,
                rw same at known,
                rw end (ground (arith, moved)),
              )
