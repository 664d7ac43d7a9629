-- ===== src/Router/Operations/Deposits.antt =====
-- What the deposit token shows for some units, and what burning some or all of it leaves.
use k.Base.{
  ℕ, ◌+◌, ◌-◌, ◌≤◌, ◌≡◌, ◌∙◌, ap, arith, ok_injective, ◌==◌, Bool, if◌then◌else◌, ok, or_panic,
  or_panic-eq-ok, >>=-ok_elim, inl, inr, ◌⊎◌,
}
use k.Base.Int.{ℤ, pos, ◌-ℤ◌, ◌≤ℤ◌, int_laws}
use k.Shared.Constants.{IsU128, i128_max, ray}
use k.Shared.Errors.{math_overflow_code}
use k.Shared.Host.{Address}
use k.Shared.Balances.{get, get-put}
use k.Shared.RayMath.{ray_mul, ray_div_up}
use k.Shared.RayMath.Scaled.{ray_div_up-ray_mul}
use k.Shared.Signed.{safe_i128_to_u128, safe_u128_to_i128-eq-ok}
use k.AToken.State as AState
use k.AToken.Supply as ASupply
use k.AToken.Balance.{balance_of_with_index}
use k.AToken.Effects.{burn_scaled_effect, scaled_to_burn_effect}

-- The displayed balance of `s` scaled units.
pub displayed :
    (t : AState.Token) (user : Address) (index s held : ℕ)
    → get user t.balances ≡ pos s
    → balance_of_with_index t user index ≡ ok (pos held)
    → ray_mul s index ≡ ok held
unfolding balance_of_with_index safe_i128_to_u128
displayed t user index s held units h =
    >>=-ok_elim (or_panic (ray_mul s index) math_overflow_code) _ (rw units at h) λ r e rest.
      let (eq, _) = safe_u128_to_i128-eq-ok r (pos held) rest in
      let same : r ≡ held = cc in rw same at (or_panic-eq-ok (ray_mul s index) math_overflow_code e)

-- An amount that is at least all the units, and no more than them.
taken : (a : ℤ) (n s : ℕ) (b : ℤ) → b ≡ pos s → a ≤ℤ b → (a ≡ pos n) ⊎ (a ≡ b) → s ≤ n → a ≡ pos s
taken a n s b units le (inl e) more =
    let small : pos n ≤ℤ pos s = rw (e, units) at le in
    let plain : n + 0 ≤ s + 0 = small in
    let bound : n ≤ s = omega (arith, plain) in
    let same : n ≡ s = omega (arith, bound, more) in e ∙ ap pos same
taken a n s b units le (inr e) more = e ∙ units

-- What a burn of the whole displayed balance leaves.
burned_all :
    (env : AState.Env) (caller user : Address) (index s held : ℕ) (t t' : AState.Token)
    (out : Bool × ℤ)
    → get user t.balances ≡ pos s
    → s ≤ i128_max
    → IsU128 index
    → ray ≤ index
    → ray_mul s index ≡ ok held
    → ASupply.burn_scaled env caller user held index t ≡ ok (out, t')
    → get user t'.balances ≡ pos 0
burned_all env caller user index s held t t' out units small hi low mul h =
    let (st, a, e, same) = burn_scaled_effect env caller user held index t t' out h in
    let (n, _, _, _, scaled, _, le, _, which) =
      scaled_to_burn_effect env caller user held index t st a e in
    let (y, div, _, near) = ray_div_up-ray_mul s index held (omega arith) hi low small mul in
    let eq : n ≡ y = ok_injective _ n y scaled div in
    let all : a ≡ pos s = taken a n s _ units le which (omega (arith, eq, near)) in
    rw (same, get-put user user (get user t.balances -ℤ a) t.balances, all, units)
      (itself s (pos s))
  where
    itself : (k : ℕ) (v : ℤ) → (if user == user then pos k -ℤ pos k else v) ≡ pos 0
    itself k v =
        let none_left : pos k -ℤ pos k ≡ pos 0 = omega int_laws in ground (arith, none_left)

-- The same for an amount that turns out to be the whole.
pub burned_whole :
    (env : AState.Env) (caller user : Address) (index s held amount : ℕ) (t t' : AState.Token)
    (out : Bool × ℤ)
    → get user t.balances ≡ pos s
    → s ≤ i128_max
    → IsU128 index
    → ray ≤ index
    → ray_mul s index ≡ ok held
    → ASupply.burn_scaled env caller user amount index t ≡ ok (out, t')
    → amount ≡ held
    → get user t'.balances ≡ pos 0
burned_whole env caller user index s held amount t t' out units small hi low mul h all =
    burned_all env caller user index s held t t' out units small hi low mul (rw all at h)

minus : (s n : ℕ) → n ≤ s → pos s -ℤ pos n ≡ pos (s - n)
minus s n low = omega int_laws

-- The units that are left: `a` of `s` go, which are `n`, or all where `n` is no less.
left_of :
    (s n : ℕ) (a b : ℤ)
    → b ≡ pos s
    → a ≤ℤ b
    → a ≤ℤ pos n
    → (a ≡ pos n) ⊎ (a ≡ b)
    → b -ℤ a ≡ pos (s - n)
left_of s n a b units le most (inl e) =
    let small : pos n ≤ℤ pos s = rw (e, units) at le in
    let plain : n + 0 ≤ s + 0 = small in rw (units, e) (minus s n (omega (arith, plain)))
left_of s n a b units le most (inr e) =
    let small : pos s ≤ℤ pos n = rw (e, units) at most in
    let plain : s + 0 ≤ n + 0 = small in
    let none_left : s - n ≡ 0 = omega (arith, plain) in rw (e, units, none_left) (omega int_laws)

-- What a burn leaves: the units less those that the amount is worth, rounded up, and none if it is
-- worth more.
pub burned_part :
    (env : AState.Env) (caller user : Address) (index s amount : ℕ) (t t' : AState.Token)
    (out : Bool × ℤ)
    → get user t.balances ≡ pos s
    → ASupply.burn_scaled env caller user amount index t ≡ ok (out, t')
    → (n : ℕ) × (ray_div_up amount index ≡ ok n) × (get user t'.balances ≡ pos (s - n))
burned_part env caller user index s amount t t' out units h =
    let (st, a, e, same) = burn_scaled_effect env caller user amount index t t' out h in
    let (n, _, _, _, scaled, _, le, most, which) =
      scaled_to_burn_effect env caller user amount index t st a e in
    let left = left_of s n a (get user t.balances) units le most which in
    (
      n,
      scaled,
      rw (same, get-put user user (get user t.balances -ℤ a) t.balances, left)
          (itself (pos (s - n)) (get user t.balances)),
    )
  where
    itself : (v v' : ℤ) → (if user == user then v else v') ≡ v
    itself v v' = ground arith
