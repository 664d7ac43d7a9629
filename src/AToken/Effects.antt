-- ===== src/AToken/Effects.antt =====
-- What each operation does to the balances and the total once it has succeeded.
use k.Base.{
  ℕ, ◌≤◌, ◌≡◌, ◌≢◌, refl, arith, Bool, true, some, ok, >>=-eq-ok, Option-cases, Result-cases, inl,
  inr, ◌⊎◌,
}
use k.Base.Int.{ℤ, pos, ◌+ℤ◌, ◌-ℤ◌, ◌≤ℤ◌}
use k.Shared.Constants.{i128_max}
use k.Shared.Host.{Address}
use k.Shared.RayMath.{ray_div_down, ray_div_up}
use k.Shared.Signed.{checked_add_i128, checked_sub_i128, safe_u128_to_i128, safe_i128_to_u128}
use k.Shared.Balances.{get, put, get-put}
use k.AToken.State.{ATokenState, Token, Env}
use k.AToken.Supply.{mint_scaled, scaled_to_burn, debit_scaled, burn_scaled}
use k.AToken.Transfer.{
  fresh_index, move_scaled, transfer_distinct, transfer_internal, spend_allowance,
  transfer_on_liquidation,
}

-- `a` scaled units more for `user`, and in total.
abbrev pub credited : Token → ATokenState → Address → ℤ → Token
credited t s user a = record t {
  balances = put user (get user t.balances +ℤ a) t.balances;
  state = some (record s { total_supply_scaled = s.total_supply_scaled +ℤ a });
}

-- A successful mint has been asked for by the pool, and adds the same number of scaled units, the
-- amount at the index rounded down, to the account and to the total.
pub mint_scaled_effect :
    (env : Env) (caller user : Address) (amount index : ℕ) (t t' : Token) (out : Bool × ℤ × ℤ)
    → mint_scaled env caller user amount index t ≡ ok (out, t')
    → (s : ATokenState) × (n : ℕ) × (t.state ≡ some s)
      × (caller ≡ s.pool_address)
      × (env.auth caller ≡ true)
      × (ray_div_down amount index ≡ ok n)
      × (t' ≡ credited t s user (pos n))
unfolding mint_scaled checked_add_i128 safe_u128_to_i128
mint_scaled_effect env caller user amount index t t' out h = elim (Option-cases t.state) [
  | inl unset ↦ absurd (ground arith)
  | inr (s, set) ↦ elim (Result-cases (ray_div_down amount index)) [
    | inl (n, scaled) ↦ (s, n, set, ground arith, ground arith, scaled, ground arith)
    | inr (inl (e, failed)) ↦ absurd (ground arith)
    | inr (inr (p, failed)) ↦ absurd (ground arith)
  ]
]

-- `a` scaled units fewer for `user`, and in total.
abbrev pub debited : Token → ATokenState → Address → ℤ → Token
debited t s user a = record t {
  balances = put user (get user t.balances -ℤ a) t.balances;
  state = some (record s { total_supply_scaled = s.total_supply_scaled -ℤ a });
}

-- The units that a burn takes: those that the amount is worth, rounded up, but at most all.
pub scaled_to_burn_effect :
    (env : Env) (caller user : Address) (amount index : ℕ) (t : Token) (s : ATokenState) (a : ℤ)
    → scaled_to_burn env caller user amount index t ≡ ok (s, a)
    → (n : ℕ) × (t.state ≡ some s)
      × (caller ≡ s.pool_address)
      × (env.auth caller ≡ true)
      × (ray_div_up amount index ≡ ok n)
      × (n ≤ i128_max)
      × (a ≤ℤ get user t.balances)
      × (a ≤ℤ pos n)
      × ((a ≡ pos n) ⊎ (a ≡ get user t.balances))
unfolding scaled_to_burn safe_u128_to_i128
scaled_to_burn_effect env caller user amount index t s a h =
    elim (Result-cases (ray_div_up amount index)) [
      | inl (n, scaled) ↦ (
        n,
        ground arith,
        ground arith,
        ground arith,
        scaled,
        ground arith,
        ground arith,
        ground arith,
        ground arith,
      )
      | inr (inl (e, failed)) ↦ absurd (ground arith)
      | inr (inr (p, failed)) ↦ absurd (ground arith)
    ]

pub debit_scaled_effect :
    (t : Token) (s : ATokenState) (user : Address) (a b total : ℤ) (t' : Token)
    → debit_scaled t s user a ≡ ok (b, total, t')
    → (b ≡ get user t.balances -ℤ a) × (t' ≡ debited t s user a)
unfolding debit_scaled checked_sub_i128
debit_scaled_effect t s user a b total t' h = ground arith

-- What a successful burn has checked and done.
abbrev pub Burns : Env → Address → Address → ℕ → ℕ → Token → Token → Type 0
Burns env caller user amount index t t' =
    (s : ATokenState) × (a : ℤ) × (scaled_to_burn env caller user amount index t ≡ ok (s, a))
    × (t' ≡ debited t s user a)

pub burn_scaled_effect :
    (env : Env) (caller user : Address) (amount index : ℕ) (t t' : Token) (out : Bool × ℤ)
    → burn_scaled env caller user amount index t ≡ ok (out, t')
    → Burns env caller user amount index t t'
unfolding burn_scaled
burn_scaled_effect env caller user amount index t t' out h =
    let ((s, a), e, rest) = >>=-eq-ok (scaled_to_burn env caller user amount index t) _ h in
    let ((b, total, t''), f, rest') = >>=-eq-ok (debit_scaled t s user a) _ rest in
    let (burned, _, rest'') = >>=-eq-ok (safe_i128_to_u128 a) _ rest' in
    let (_, f') = debit_scaled_effect t s user a b total t'' f in (s, a, e, ground arith)

-- `a` scaled units from one address to another.
abbrev pub moved : Token → Address → Address → ℤ → Token
moved t from to a =
    let rest = put from (get from t.balances -ℤ a) t.balances in
    record t { balances = put to (get to rest +ℤ a) rest }

pub move_scaled_effect :
    (env : Env) (from to : Address) (amount : ℤ) (t t' : Token)
    → from ≢ to
    → move_scaled env from to amount t ≡ ok t'
    → (i : ℕ) × (v : ℕ) × (n : ℕ) × (env.current_liquidity_index ≡ some i)
      × (amount ≡ pos v)
      × (ray_div_up v i ≡ ok n)
      × (pos n ≤ℤ get from t.balances)
      × (t' ≡ moved t from to (pos n))
unfolding move_scaled fresh_index checked_add_i128 checked_sub_i128 safe_u128_to_i128
    safe_i128_to_u128
move_scaled_effect env from to (ℤ.negsuc m) t t' ne h =
    elim (Option-cases env.current_liquidity_index) [
      | inl failed ↦ absurd (ground arith)
      | inr (i, known) ↦ absurd (ground arith)
    ]
move_scaled_effect env from to (pos v) t t' ne h = elim (Option-cases env.current_liquidity_index) [
  | inl failed ↦ absurd (ground arith)
  | inr (i, known) ↦ elim (Result-cases (ray_div_up v i)) [
    | inl (n, scaled) ↦ (
      i,
      v,
      n,
      known,
      refl,
      scaled,
      ground arith,
      ground (arith, get-put from to (get from t.balances -ℤ pos n) t.balances),
    )
    | inr (inl (e, failed)) ↦ absurd (ground arith)
    | inr (inr (p, failed)) ↦ absurd (ground arith)
  ]
]

pub transfer_internal_effect :
    (env : Env) (from to : Address) (amount : ℤ) (t t' : Token)
    → transfer_internal env from to amount t ≡ ok t'
    → (t' ≡ t) ⊎ ((from ≢ to) × (move_scaled env from to amount t ≡ ok t'))
unfolding transfer_internal transfer_distinct
transfer_internal_effect env from to amount t t' h =
    elim (Result-cases (move_scaled env from to amount t)) [
      | inl (u, e) ↦ ground arith
      | inr (inl (e, failed)) ↦ ground arith
      | inr (inr (p, failed)) ↦ ground arith
    ]

-- Spending an allowance touches neither balances nor the total.
pub spend_allowance_effect :
    (env : Env) (spender from : Address) (amount : ℤ) (t t' : Token)
    → spend_allowance env spender from amount t ≡ ok t'
    → (t'.balances ≡ t.balances) × (t'.state ≡ t.state)
unfolding spend_allowance checked_sub_i128
spend_allowance_effect env spender from amount t t' h = (ground arith, ground arith)

-- A successful liquidation transfer has been asked for by the pool, and moves to the liquidator the
-- scaled units that the amount is worth, rounded down, which the borrower had; nothing else changes.
pub transfer_on_liquidation_effect :
    (env : Env) (caller from to : Address) (amount index : ℕ) (t t' : Token) (first : Bool)
    → transfer_on_liquidation env caller from to amount index t ≡ ok (first, t')
    → (s : ATokenState) × (n : ℕ) × (t.state ≡ some s)
      × (caller ≡ s.pool_address)
      × (env.auth caller ≡ true)
      × (ray_div_down amount index ≡ ok n)
      × (pos n ≤ℤ get from t.balances)
      × (t' ≡ moved t from to (pos n))
unfolding transfer_on_liquidation checked_add_i128 safe_u128_to_i128
transfer_on_liquidation_effect env caller from to amount index t t' first h =
    elim (Option-cases t.state) [
      | inl unset ↦ absurd (ground arith)
      | inr (s, set) ↦ elim (Result-cases (ray_div_down amount index)) [
        | inl (n, scaled) ↦
            (s, n, set, ground arith, ground arith, scaled, ground arith, ground arith)
        | inr (inl (e, failed)) ↦ absurd (ground arith)
        | inr (inr (p, failed)) ↦ absurd (ground arith)
      ]
    ]
