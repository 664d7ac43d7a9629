-- ===== src/DebtToken/Effects.antt =====
-- What borrowing and repaying do to the debts and the total once they have succeeded.
use k.Base.{
  ℕ, ◌+◌, ◌-◌, ◌≤◌, ◌≡◌, arith, Bool, true, some, ok, Option-cases, Result-cases, inl, inr, ◌==◌,
  if◌then◌else◌, leb,
}
use k.Base.Int.{ℤ, pos, ◌+ℤ◌, ◌-ℤ◌}
use k.Shared.Host.{Address}
use k.Shared.RayMath.{ray_div_down, ray_div_up}
use k.Shared.Signed.{checked_add_i128, checked_sub_i128, safe_u128_to_i128}
use k.Shared.Wide.{checked_add, checked_sub}
use k.Shared.Debts.{debt_of, put_debt}
use k.DebtToken.State.{DebtTokenState, DebtToken, Env}
use k.DebtToken.Supply.{mint_scaled, burn_scaled, sweep_dust}

-- The debt of `user` set to `debt`, and the total set to `total`.
abbrev pub settled : DebtToken → DebtTokenState → Address → ℕ → ℤ → DebtToken
settled t s user debt total = record t {
  debts = put_debt user debt t.debts;
  state = some (record s { total_debt_scaled = total });
}

-- A successful borrow has been asked for by the pool, and adds the same number of scaled units,
-- the amount at the index rounded up, to the account and to the total.
pub borrow_effect :
    (env : Env) (caller user : Address) (amount index : ℕ) (t t' : DebtToken) (out : Bool × ℤ × ℤ)
    → mint_scaled env caller user amount index t ≡ ok (out, t')
    → (s : DebtTokenState) × (n : ℕ) × (t.state ≡ some s)
      × (caller ≡ s.pool_address)
      × (env.auth caller ≡ true)
      × (ray_div_up amount index ≡ ok n)
      × (t' ≡ settled t s user (debt_of user t.debts + n) (s.total_debt_scaled +ℤ pos n))
unfolding mint_scaled checked_add checked_add_i128 safe_u128_to_i128
borrow_effect env caller user amount index t t' out h = elim (Option-cases t.state) [
  | inl unset ↦ absurd (ground arith)
  | inr (s, set) ↦ elim (Result-cases (ray_div_up amount index)) [
    | inl (n, scaled) ↦ (s, n, set, ground arith, ground arith, scaled, ground arith)
    | inr (inl (e, failed)) ↦ absurd (ground arith)
    | inr (inr (p, failed)) ↦ absurd (ground arith)
  ]
]

-- The debt that is left when `n` scaled units are repaid of `debt`.
abbrev pub left_after : ℕ → ℕ → ℕ
left_after debt n = if leb (debt - n) 1 then 0 else debt - n

-- A successful repayment has been asked for by the pool, for at most the whole debt. What it takes
-- off the account it takes off the total, and no dust of one unit is left behind.
pub repay_effect :
    (env : Env) (caller user : Address) (amount index : ℕ) (t t' : DebtToken) (out : Bool × ℤ × ℤ)
    → burn_scaled env caller user amount index t ≡ ok (out, t')
    → (s : DebtTokenState) × (n : ℕ) × (t.state ≡ some s)
      × (caller ≡ s.pool_address)
      × (env.auth caller ≡ true)
      × (ray_div_down amount index ≡ ok n)
      × (n ≤ debt_of user t.debts)
      × (out.0 ≡ (left_after (debt_of user t.debts) n == 0))
      × (t'
          ≡ settled t s user (left_after (debt_of user t.debts) n) (
              s.total_debt_scaled
              -ℤ pos (debt_of user t.debts - left_after (debt_of user t.debts) n)))
unfolding burn_scaled sweep_dust checked_sub checked_sub_i128 safe_u128_to_i128
repay_effect env caller user amount index t t' out h = elim (Option-cases t.state) [
  | inl unset ↦ absurd (ground arith)
  | inr (s, set) ↦ elim (Result-cases (ray_div_down amount index)) [
    | inl (n, scaled) ↦
        (s, n, set, ground arith, ground arith, scaled, ground arith, ground arith, ground arith)
    | inr (inl (e, failed)) ↦ absurd (ground arith)
    | inr (inr (p, failed)) ↦ absurd (ground arith)
  ]
]
