-- ===== src/AToken/History.antt =====
-- Histories of calls of the token contract, and what holds after every one of them.
use k.Base.{
  ℕ, Bool, ◌≡◌, refl, sym, arith, none, some, ok, err, panic, >>=-ok_elim, Option-cases,
  Result-cases, inl, inr, ◌⊎◌, List, [], ◌∷◌,
}
use k.Base.Int.{ℤ, pos}
use k.Shared.Host.{Address}
use k.Shared.Balances.{IsCovered, sum}
use k.Shared.Signed.{safe_i128_to_u128}
use k.AToken.State.{ATokenState, Token, Env, Outcome, initialize, set_incentives_contract}
use k.AToken.Supply.{
  mint_scaled, burn_scaled, burn_scaled_and_transfer_to, transfer_underlying_to, pay,
  scaled_to_burn, debit_scaled,
}
use k.AToken.Transfer.{
  approve, transfer, transfer_internal, transfer_from, transfer_on_liquidation, spend_allowance,
  mint, burn, burn_from,
}
use k.AToken.Effects.{
  mint_scaled_effect, scaled_to_burn_effect, burn_scaled_effect, move_scaled_effect,
  transfer_internal_effect, spend_allowance_effect, transfer_on_liquidation_effect, Burns,
  debit_scaled_effect,
}
use k.AToken.Conservation.{Inv, total_of, credited-Inv, debited-Inv, moved-Inv}

-- The calls that change the contract's storage or move the underlying asset.
pub data Call : Type 0 where
  initialize_call : Address → Address → Address → ℕ → Call
  set_incentives : Address → Address → Call
  mint_scaled_call : Address → Address → ℕ → ℕ → Call
  burn_scaled_call : Address → Address → ℕ → ℕ → Call
  burn_and_pay : Address → Address → ℕ → ℕ → Address → Call
  pay_underlying : Address → Address → ℕ → Call
  approve_call : Address → Address → ℤ → ℕ → Call
  transfer_call : Address → Address → ℤ → Call
  transfer_from_call : Address → Address → Address → ℤ → Call
  liquidate : Address → Address → Address → ℕ → ℕ → Call
  mint_call burn_call : Address → ℤ → Call
  burn_from_call : Address → Address → ℤ → Call

abbrev pub state_of : {A : Type 0} → Outcome (A × Token) → Outcome Token
state_of (ok (a, t)) = ok t
state_of (err e) = err e
state_of (panic p) = panic p

unfoldable pub outcome : Env → Call → Token → Outcome Token
outcome env (initialize_call admin asset pool decimals) t = initialize admin asset pool decimals t
outcome env (set_incentives caller c) t = set_incentives_contract env caller c t
outcome env (mint_scaled_call caller user x i) t = state_of (mint_scaled env caller user x i t)
outcome env (burn_scaled_call caller user x i) t = state_of (burn_scaled env caller user x i t)
outcome env (burn_and_pay caller user x i to) t =
    state_of (burn_scaled_and_transfer_to env caller user x i to t)
outcome env (pay_underlying caller to x) t = state_of (transfer_underlying_to env caller to x t)
outcome env (approve_call from spender x until) t = approve env from spender x until t
outcome env (transfer_call from to x) t = transfer env from to x t
outcome env (transfer_from_call spender from to x) t = transfer_from env spender from to x t
outcome env (liquidate caller from to x i) t =
    state_of (transfer_on_liquidation env caller from to x i t)
outcome env (mint_call to x) t = mint to x t
outcome env (burn_call from x) t = burn from x t
outcome env (burn_from_call spender from x) t = burn_from spender from x t

-- A call that fails leaves the storage as it was.
abbrev pub kept : Token → Outcome Token → Token
kept t (ok t') = t'
kept t (err e) = t
kept t (panic p) = t

unfoldable pub run : Token → List (Env × Call) → Token
run t [] = t
run t ((env, c) ∷ cs) = run (kept t (outcome env c t)) cs

-- The storage of a contract that was deployed and not called yet.
abbrev pub blank : Token
blank = record {
  state = none;
  admin = none;
  balances = [];
  allowances = λ from spender. none;
  incentives_contract = none;
}

state_of-eq-ok :
    {A : Type 0} (m : Outcome (A × Token)) {t : Token}
    → state_of m ≡ ok t
    → (a : A) × (m ≡ ok (a, t))
state_of-eq-ok (ok (a, t)) h = (a, cc)
state_of-eq-ok (err e) h = absurd (cc)
state_of-eq-ok (panic p) h = absurd (cc)

-- `Inv` reads the balances and the pool's record only.
same-Inv : (t t' : Token) → t'.balances ≡ t.balances → t'.state ≡ t.state → Inv t → Inv t'
same-Inv t t' e f i = record { covered = rw e i.covered; backed = rw (e, f) i.backed }

initialize-Inv :
    (admin asset pool : Address) (n : ℕ) (t t' : Token)
    → initialize admin asset pool n t ≡ ok t'
    → Inv t
    → Inv t'
unfolding initialize
initialize-Inv admin asset pool n t t' h i = elim (Option-cases t.state) [
  | inl unset ↦
      rw (the_new_state unset) (record { covered = i.covered; backed = sym (rw unset at i.backed) })
  | inr (s, set) ↦ absurd (ground arith)
]
  where
    the_new_state :
        t.state ≡ none
        → t' ≡ record t {
          admin = some admin;
          state = some (record {
            underlying_asset = asset;
            pool_address = pool;
            total_supply_scaled = pos 0;
            token_decimals = n;
          });
        }
    the_new_state unset = ground arith

Burns-Inv :
    (env : Env) (caller user : Address) (x i : ℕ) (t t' : Token)
    → Burns env caller user x i t t'
    → Inv t
    → Inv t'
Burns-Inv env caller user x i t t' (s, a, e, same) inv =
    let (_, set, _, _, _, _, le, _, _) = scaled_to_burn_effect env caller user x i t s a e in
    rw same (debited-Inv t s user a inv set le)

burn_and_pay-Burns :
    (env : Env) (caller user to : Address) (x i : ℕ) (t t' : Token) (out : ℤ × ℤ × ℕ)
    → burn_scaled_and_transfer_to env caller user x i to t ≡ ok (out, t')
    → Burns env caller user x i t t'
unfolding burn_scaled_and_transfer_to pay
burn_and_pay-Burns env caller user to x i t t' out h =
    >>=-ok_elim (scaled_to_burn env caller user x i t) _ h λ (s, a) e rest.
      >>=-ok_elim (debit_scaled t s user a) _ rest λ (b, total, t'') f rest'.
        >>=-ok_elim (safe_i128_to_u128 a) _ rest' λ n g rest''.
          let (_, f') = debit_scaled_effect t s user a b total t'' f in (s, a, e, ground arith)

transfer_internal-Inv :
    (env : Env) (from to : Address) (x : ℤ) (t t' : Token)
    → transfer_internal env from to x t ≡ ok t'
    → Inv t
    → Inv t'
transfer_internal-Inv env from to x t t' h i =
    elim (transfer_internal_effect env from to x t t' h) [
      | inl same ↦ rw same i
      | inr (ne, e) ↦
          let (_, _, n, _, _, _, le, same) = move_scaled_effect env from to x t t' ne e in
          rw same (moved-Inv t from to n i le)
    ]

transfer_from_parts :
    (env : Env) (spender from to : Address) (x : ℤ) (t t' : Token)
    → transfer_from env spender from to x t ≡ ok t'
    → (u : Token) × (spend_allowance env spender from x t ≡ ok u)
      × ((t' ≡ u) ⊎ (transfer_internal env from to x u ≡ ok t'))
unfolding transfer_from
transfer_from_parts env spender from to x t t' h =
    elim (Result-cases (spend_allowance env spender from x t)) [
      | inl (u, e) ↦ (u, e, ground arith)
      | inr (inl (e, failed)) ↦ absurd (ground arith)
      | inr (inr (p, failed)) ↦ absurd (ground arith)
    ]

transfer_from-Inv :
    (env : Env) (spender from to : Address) (x : ℤ) (t t' : Token)
    → transfer_from env spender from to x t ≡ ok t'
    → Inv t
    → Inv t'
transfer_from-Inv env spender from to x t t' h i =
    let (u, e, then_) = transfer_from_parts env spender from to x t t' h in
    let (e_balances, e_state) = spend_allowance_effect env spender from x t u e in
    let i' = same-Inv t u e_balances e_state i in
    elim then_ [
      | inl same ↦ rw same i'
      | inr moved_on ↦ transfer_internal-Inv env from to x u t' moved_on i'
    ]

-- Each of the pool's calls keeps the books balanced.
pub mint_scaled-Inv :
    (env : Env) (caller user : Address) (x i : ℕ) (t t' : Token) (out : Bool × ℤ × ℤ)
    → mint_scaled env caller user x i t ≡ ok (out, t')
    → Inv t
    → Inv t'
mint_scaled-Inv env caller user x i t t' out h inv =
    let (s, n, set, _, _, _, same) = mint_scaled_effect env caller user x i t t' out h in
    rw same (credited-Inv t s user n inv set)

pub burn_scaled-Inv :
    (env : Env) (caller user : Address) (x i : ℕ) (t t' : Token) (out : Bool × ℤ)
    → burn_scaled env caller user x i t ≡ ok (out, t')
    → Inv t
    → Inv t'
burn_scaled-Inv env caller user x i t t' out h inv =
    Burns-Inv env caller user x i t t' (burn_scaled_effect env caller user x i t t' out h) inv

pub transfer_underlying_to-Inv :
    (env : Env) (caller to : Address) (x : ℕ) (t t' : Token) (paid : Bool)
    → transfer_underlying_to env caller to x t ≡ ok (paid, t')
    → Inv t
    → Inv t'
unfolding transfer_underlying_to pay
transfer_underlying_to-Inv env caller to x t t' paid h inv =
    same-Inv t t' (ground arith) (ground arith) inv

-- Every call keeps the balances non-negative and the total equal to their sum.
outcome-Inv : (env : Env) (c : Call) (t t' : Token) → outcome env c t ≡ ok t' → Inv t → Inv t'
unfolding outcome set_incentives_contract approve transfer mint burn burn_from
outcome-Inv env (initialize_call admin asset pool n) t t' h i =
    initialize-Inv admin asset pool n t t' h i
outcome-Inv env (set_incentives caller c) t t' h i = same-Inv t t' (ground arith) (ground arith) i
outcome-Inv env (mint_scaled_call caller user x index) t t' h i =
    let (out, e) = state_of-eq-ok (mint_scaled env caller user x index t) h in
    mint_scaled-Inv env caller user x index t t' out e i
outcome-Inv env (burn_scaled_call caller user x index) t t' h i =
    let (out, e) = state_of-eq-ok (burn_scaled env caller user x index t) h in
    burn_scaled-Inv env caller user x index t t' out e i
outcome-Inv env (burn_and_pay caller user x index to) t t' h i =
    let (out, e) = state_of-eq-ok (burn_scaled_and_transfer_to env caller user x index to t) h in
    Burns-Inv env caller user x index t t'
      (burn_and_pay-Burns env caller user to x index t t' out e) i
outcome-Inv env (pay_underlying caller to x) t t' h i =
    let (paid, e) = state_of-eq-ok (transfer_underlying_to env caller to x t) h in
    transfer_underlying_to-Inv env caller to x t t' paid e i
outcome-Inv env (approve_call from spender x until) t t' h i =
    same-Inv t t' (ground arith) (ground arith) i
outcome-Inv env (transfer_call from to x) t t' h i =
    transfer_internal-Inv env from to x t t' (ground arith) i
outcome-Inv env (transfer_from_call spender from to x) t t' h i =
    transfer_from-Inv env spender from to x t t' h i
outcome-Inv env (liquidate caller from to x index) t t' h i =
    let (out, e) = state_of-eq-ok (transfer_on_liquidation env caller from to x index t) h in
    let (_, n, _, _, _, _, le, same) =
      transfer_on_liquidation_effect env caller from to x index t t' out e in
    rw same (moved-Inv t from to n i le)
outcome-Inv env (mint_call to x) t t' h i = absurd (ground arith)
outcome-Inv env (burn_call from x) t t' h i = absurd (ground arith)
outcome-Inv env (burn_from_call spender from x) t t' h i = absurd (ground arith)

kept-Inv :
    (env : Env) (c : Call) (t : Token) (o : Outcome Token)
    → outcome env c t ≡ o
    → Inv t
    → Inv (kept t o)
kept-Inv env c t (ok t') e i = outcome-Inv env c t t' e i
kept-Inv env c t (err x) e i = i
kept-Inv env c t (panic x) e i = i

run-Inv : (t : Token) (cs : List (Env × Call)) → Inv t → Inv (run t cs)
unfolding run
run-Inv t [] i = i
run-Inv t ((env, c) ∷ cs) i = run-Inv (kept t (outcome env c t)) cs (kept-Inv env c t _ refl i)

blank-Inv : Inv blank
blank-Inv = record { covered = tt; backed = refl }

-- After any history of calls, failing ones included, no scaled balance is negative, and the stored
-- scaled total is exactly the sum of the scaled balances.
pub run_conserves :
    (cs : List (Env × Call)) (s : ATokenState)
    → (run blank cs).state ≡ some s
    → IsCovered (run blank cs).balances × (s.total_supply_scaled ≡ sum (run blank cs).balances)
run_conserves cs s e =
    let i = run-Inv blank cs blank-Inv in (i.covered, total_of (run blank cs) i e)
