-- ===== src/DebtToken/History.antt =====
-- Histories of calls of the debt token, and what holds after every one of them.
use k.Base.{
  ℕ, ◌+◌, ◌≡◌, refl, arith, Bool, Option, none, some, ok, err, panic, inl, inr, List, [], ◌∷◌,
  Option-cases,
}
use k.Base.Int.{ℤ, pos, int_laws}
use k.Shared.Host.{Address}
use k.Shared.Debts.{Debts, debt_of, sum_of_debts, sum_of_debts-put_debt, debt_of_le-sum}
use k.DebtToken.State.{
  DebtTokenState, DebtToken, Env, Outcome, initialize, set_incentives_contract, approve, transfer,
  transfer_from, mint, burn, burn_from,
}
use k.DebtToken.Supply.{mint_scaled, burn_scaled}
use k.DebtToken.Effects.{left_after, borrow_effect, repay_effect}

-- Every entry point that takes the contract's storage to change it.
pub data Call : Type 0 where
  initialize_call : Address → Address → Address → ℕ → Call
  set_incentives : Address → Address → Call
  mint_scaled_call burn_scaled_call : Address → Address → ℕ → ℕ → Call
  approve_call : Address → Address → ℤ → ℕ → Call
  transfer_call : Address → Address → ℤ → Call
  transfer_from_call : Address → Address → Address → ℤ → Call
  mint_call burn_call : Address → ℤ → Call
  burn_from_call : Address → Address → ℤ → Call

abbrev state_of : {A : Type 0} → Outcome (A × DebtToken) → Outcome DebtToken
state_of (ok (a, t)) = ok t
state_of (err e) = err e
state_of (panic p) = panic p

unfoldable pub outcome : Env → Call → DebtToken → Outcome DebtToken
outcome env (initialize_call admin asset pool decimals) t = initialize admin asset pool decimals t
outcome env (set_incentives caller c) t = set_incentives_contract env caller c t
outcome env (mint_scaled_call caller user x i) t = state_of (mint_scaled env caller user x i t)
outcome env (burn_scaled_call caller user x i) t = state_of (burn_scaled env caller user x i t)
outcome env (approve_call from spender x until) t = approve from spender x until t
outcome env (transfer_call from to x) t = transfer from to x t
outcome env (transfer_from_call spender from to x) t = transfer_from spender from to x t
outcome env (mint_call to x) t = mint to x t
outcome env (burn_call from x) t = burn from x t
outcome env (burn_from_call spender from x) t = burn_from spender from x t

-- A call that fails leaves the storage as it was.
abbrev kept : DebtToken → Outcome DebtToken → DebtToken
kept t (ok t') = t'
kept t (err e) = t
kept t (panic p) = t

unfoldable pub run : DebtToken → List (Env × Call) → DebtToken
run t [] = t
run t ((env, c) ∷ cs) = run (kept t (outcome env c t)) cs

-- The storage of a contract that was deployed and not called yet.
abbrev pub blank : DebtToken
blank = record { state = none; admin = none; debts = []; incentives_contract = none }

abbrev pub Backed : Option DebtTokenState → Debts → Type 0
Backed none l = sum_of_debts l ≡ 0
Backed (some s) l = s.total_debt_scaled ≡ pos (sum_of_debts l)

abbrev pub Inv : DebtToken → Type 0
Inv t = Backed t.state t.debts

state_of-eq-ok :
    {A : Type 0} (m : Outcome (A × DebtToken)) {t : DebtToken}
    → state_of m ≡ ok t
    → (a : A) × (m ≡ ok (a, t))
state_of-eq-ok (ok (a, t)) h = (a, cc)
state_of-eq-ok (err e) h = absurd (cc)
state_of-eq-ok (panic p) h = absurd (cc)

same-Inv : (t t' : DebtToken) → t'.debts ≡ t.debts → t'.state ≡ t.state → Inv t → Inv t'
same-Inv t t' e f i = rw (e, f) i

initialize-Inv :
    (admin asset pool : Address) (n : ℕ) (t t' : DebtToken)
    → initialize admin asset pool n t ≡ ok t'
    → Inv t
    → Inv t'
unfolding initialize
initialize-Inv admin asset pool n t t' h i = elim (Option-cases t.state) [
  | inl unset ↦ rw (the_new_state unset) (rw (sum_is_zero unset) refl)
  | inr (s, set) ↦ absurd (ground arith)
]
  where
    sum_is_zero : t.state ≡ none → sum_of_debts t.debts ≡ 0
    sum_is_zero unset = rw unset at i

    the_new_state :
        t.state ≡ none
        → t' ≡ record t {
          admin = some admin;
          state = some (record {
            borrowed_asset = asset;
            pool_address = pool;
            total_debt_scaled = pos 0;
            decimals = n;
          });
        }
    the_new_state unset = ground arith

pub mint_scaled-Inv :
    (env : Env) (caller user : Address) (x i : ℕ) (t t' : DebtToken) (out : Bool × ℤ × ℤ)
    → mint_scaled env caller user x i t ≡ ok (out, t')
    → Inv t
    → Inv t'
mint_scaled-Inv env caller user x i t t' out h inv =
    let (s, n, set, _, _, _, same) = borrow_effect env caller user x i t t' out h in
    let backed : s.total_debt_scaled ≡ pos (sum_of_debts t.debts) = rw set at inv in
    rw (same, backed)
      (grind (int_laws, sum_of_debts-put_debt user (debt_of user t.debts + n) t.debts))

pub burn_scaled-Inv :
    (env : Env) (caller user : Address) (x i : ℕ) (t t' : DebtToken) (out : Bool × ℤ × ℤ)
    → burn_scaled env caller user x i t ≡ ok (out, t')
    → Inv t
    → Inv t'
burn_scaled-Inv env caller user x i t t' out h inv =
    let (s, n, set, _, _, _, _, _, same) = repay_effect env caller user x i t t' out h in
    let backed : s.total_debt_scaled ≡ pos (sum_of_debts t.debts) = rw set at inv in
    let left : ℕ = left_after (debt_of user t.debts) n in
    rw (same, backed)
      (grind (int_laws, sum_of_debts-put_debt user left t.debts, debt_of_le-sum user t.debts))

outcome-Inv : (env : Env) (c : Call) (t t' : DebtToken) → outcome env c t ≡ ok t' → Inv t → Inv t'
unfolding outcome set_incentives_contract approve transfer transfer_from mint burn burn_from
outcome-Inv env (initialize_call admin asset pool n) t t' h i =
    initialize-Inv admin asset pool n t t' h i
outcome-Inv env (set_incentives caller c) t t' h i = same-Inv t t' (ground arith) (ground arith) i
outcome-Inv env (mint_scaled_call caller user x index) t t' h i =
    let (out, e) = state_of-eq-ok (mint_scaled env caller user x index t) h in
    mint_scaled-Inv env caller user x index t t' out e i
outcome-Inv env (burn_scaled_call caller user x index) t t' h i =
    let (out, e) = state_of-eq-ok (burn_scaled env caller user x index t) h in
    burn_scaled-Inv env caller user x index t t' out e i
outcome-Inv env (approve_call from spender x until) t t' h i = absurd (ground arith)
outcome-Inv env (transfer_call from to x) t t' h i = absurd (ground arith)
outcome-Inv env (transfer_from_call spender from to x) t t' h i = absurd (ground arith)
outcome-Inv env (mint_call to x) t t' h i = absurd (ground arith)
outcome-Inv env (burn_call from x) t t' h i = absurd (ground arith)
outcome-Inv env (burn_from_call spender from x) t t' h i = absurd (ground arith)

kept-Inv :
    (env : Env) (c : Call) (t : DebtToken) (o : Outcome DebtToken)
    → outcome env c t ≡ o
    → Inv t
    → Inv (kept t o)
kept-Inv env c t (ok t') e i = outcome-Inv env c t t' e i
kept-Inv env c t (err x) e i = i
kept-Inv env c t (panic x) e i = i

run-Inv : (t : DebtToken) (cs : List (Env × Call)) → Inv t → Inv (run t cs)
unfolding run
run-Inv t [] i = i
run-Inv t ((env, c) ∷ cs) i = run-Inv (kept t (outcome env c t)) cs (kept-Inv env c t _ refl i)

-- After any history of calls, failing ones included, the stored total is exactly the sum of the
-- scaled debts; so it is never negative, whatever dust repayments have swept away.
pub total_is_sum :
    (cs : List (Env × Call)) (s : DebtTokenState)
    → (run blank cs).state ≡ some s
    → s.total_debt_scaled ≡ pos (sum_of_debts (run blank cs).debts)
total_is_sum cs s e = rw e at (run-Inv blank cs refl)
