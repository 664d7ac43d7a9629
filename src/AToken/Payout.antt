-- ===== src/AToken/Payout.antt =====
-- What a burn pays, and what it leaves.
use Prim.Native.Nat.{min}
use k.Base.{
  ℕ, ◌*◌, ◌≤◌, ◌≡◌, arith, true, ok, >>=-ok_elim, map_err, map_err-eq-ok, ◌∙◌, sym, ◌>>◌, ap,
}
use k.Base.Int.{ℤ, pos, ◌≤ℤ◌, int_laws}
use k.Shared.Constants.{IsU128, ray}
use k.Shared.Host.{Address}
use k.Shared.RayMath.{ray_mul_down}
use k.Shared.RayMath.Rounding.{ray_mul_down-Truncates}
use k.Shared.RayMath.Scaled.{Truncates-ok}
use k.Shared.Signed.{
  safe_u128_to_i128, safe_i128_to_u128, safe_u128_to_i128-eq-ok, safe_i128_to_u128-eq-ok,
}
use k.Shared.Errors.{invalid_index}
use k.AToken.State.{ATokenState, Token, Env, handle_incentives_action}
use k.AToken.Supply.{scaled_to_burn, debit_scaled, burn_scaled_and_transfer_to, pay}
use k.AToken.Effects.{debited, debit_scaled_effect, scaled_to_burn_effect}

ray_mul_down_ok :
    (n index v : ℕ) → IsU128 n → IsU128 index → ray_mul_down n index ≡ ok v → v * ray ≤ n * index
ray_mul_down_ok n index v hn hi h =
    (Truncates-ok (n * index) ray v _ h (ray_mul_down-Truncates n index hn hi)).0

pay_effect :
    {A : Type 0} (env : Env) (target : Address) (w : ℤ) (x y : A) (t t' : Token)
    → ◌>>◌ {Y = A × Token} (pay env target w) (ok (x, t)) ≡ ok (y, t')
    → (env.pays target w ≡ true) × (x ≡ y) × (t ≡ t')
unfolding pay
pay_effect env target w x y t t' h = (ground arith, ground arith, ground arith)

-- A withdrawal pays no more than was asked for and no more than the burned units are worth at the
-- given index (a `u128`), rounded down; the transfer of exactly that amount to the target has gone
-- through.
pub burn_scaled_and_transfer_to_effect :
    (env : Env) (caller user target : Address) (amount index paid : ℕ) (t t' : Token) (b total : ℤ)
    → IsU128 index
    → burn_scaled_and_transfer_to env caller user amount index target t ≡ ok ((b, total, paid), t')
    → (s : ATokenState) × (n : ℕ) × (scaled_to_burn env caller user amount index t ≡ ok (s, pos n))
      × (t' ≡ debited t s user (pos n))
      × (paid ≤ amount)
      × (paid * ray ≤ n * index)
      × (env.pays target (pos paid) ≡ true)
unfolding burn_scaled_and_transfer_to pay
burn_scaled_and_transfer_to_effect env caller user target amount index paid t t' b total hi h =
    >>=-ok_elim (scaled_to_burn env caller user amount index t) _ h λ (s, a) e rest.
      >>=-ok_elim (debit_scaled t s user a) _ rest λ (b', total', t'') f rest'.
        >>=-ok_elim (safe_i128_to_u128 a) _ rest' λ n g rest''.
          >>=-ok_elim (map_err (ray_mul_down n index) invalid_index) _ rest'' λ v k rest3.
            >>=-ok_elim (safe_u128_to_i128 (min v amount)) _ rest3 λ w l rest4.
              >>=-ok_elim (handle_incentives_action t'' user) _ rest4 λ u hook rest5.
                let (through, eq, same) =
                  pay_effect env target w (b', total', min v amount) (b, total, paid) t'' t'
                    rest5 in
                let (_, eff) = debit_scaled_effect t s user a b' total' t'' f in
                let units : a ≡ pos n = safe_i128_to_u128-eq-ok a n g in
                let (m, _, _, _, _, bound, _, le, _) =
                  scaled_to_burn_effect env caller user amount index t s a e in
                let small : pos n ≤ℤ pos m = rw units at le in
                let worth =
                  ray_mul_down_ok n index v (omega (int_laws, arith)) hi (map_err-eq-ok _ _ k) in
                let given : min v amount ≡ paid = ap (λ r. r.2) eq in
                let (wide, _) = safe_u128_to_i128-eq-ok (min v amount) w l in
                (
                  s,
                  n,
                  rw units at e,
                  sym same ∙ (rw units at eff),
                  omega arith,
                  omega arith,
                  (rw (wide, given) at through),
                )
