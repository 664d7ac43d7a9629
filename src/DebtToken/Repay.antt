-- ===== src/DebtToken/Repay.antt =====
-- Repaying everything.
use k.Base.{
  ℕ, ◌-◌, ◌≤◌, ◌<◌, ◌≡◌, refl, arith, true, some, ok, >>=-ok_elim, or_panic, or_panic-eq-ok, ◌==◌,
  Option-cases, false, ltb, inl, inr, mul_mono,
}
use k.Base.Int.{pos, ◌-ℤ◌, int_laws}
use k.Shared.Constants.{IsU128, ray, i128_max}
use k.Shared.Errors.{math_overflow_code}
use k.Shared.Host.{Address}
use k.Shared.RayMath.{ray_mul}
use k.Shared.RayMath.Rounding.{ray_mul-Truncates}
use k.Shared.RayMath.Scaled.{Truncates-ok, ray_div_down-ray_mul}
use k.Shared.Signed.{
  checked_sub_i128, safe_u128_to_i128, safe_i128_to_u128, safe_u128_to_i128-eq-ok,
}
use k.Shared.Wide.{checked_sub}
use k.Shared.Debts.{debt_of}
use k.DebtToken.State.{DebtTokenState, DebtToken, Env, get_state, handle_incentives_action}
use k.DebtToken.Supply.{burn_scaled, sweep_dust}
use k.DebtToken.Balance.{balance_of_with_index}
use k.DebtToken.Effects.{settled}

-- A debt that shows at an index of at least one ray is at least its scaled units.
pub displayed :
    (t : DebtToken) (user : Address) (index x : ℕ)
    → IsU128 (debt_of user t.debts)
    → IsU128 index
    → ray ≤ index
    → balance_of_with_index t user index ≡ ok (pos x)
    → (ray_mul (debt_of user t.debts) index ≡ ok x) × (x ≤ i128_max) × (debt_of user t.debts ≤ x)
unfolding balance_of_with_index
displayed t user index x hd hi h e =
    >>=-ok_elim (or_panic (ray_mul (debt_of user t.debts) index) math_overflow_code) _ e λ r f rest.
      let (eq, small) = safe_u128_to_i128-eq-ok r (pos x) rest in
      let same : r ≡ x = cc in
      let mul = or_panic-eq-ok (ray_mul (debt_of user t.debts) index) math_overflow_code f in
      let bounds =
        Truncates-ok _ ray r _ mul (ray_mul-Truncates (debt_of user t.debts) index hd hi) in
      let wide = mul_mono (debt_of user t.debts) ray (debt_of user t.debts) index (omega arith) h in
      (rw same at mul, rw same at small, omega arith)

hook_settled :
    (t : DebtToken) (s : DebtTokenState) (user : Address) (debt total : ℕ)
    → handle_incentives_action (settled t s user debt (pos total)) user ≡ ok tt
unfolding handle_incentives_action get_state safe_i128_to_u128
hook_settled t s user debt total = elim (Option-cases t.incentives_contract) [
  | inl e ↦ rw e refl
  | inr (c, e) ↦ rw e refl
]

taken_off :
    (total d : ℕ)
    → d ≤ total
    → total ≤ i128_max
    → checked_sub_i128 (pos total) (pos d) ≡ some (pos (total - d))
unfolding checked_sub_i128
taken_off total d h small =
    let eq : pos total -ℤ pos d ≡ pos (total - d) = grind (int_laws) in rw eq (ground arith)

-- When the pool, having signed, repays exactly the debt that is shown at the same index, a `u128`
-- of at least one ray, the call succeeds, the account owes nothing, and the total has gone down by
-- all that it owed. The account owes something, and the stored total is an `i128` that covers it.
pub repay_all :
    (env : Env) (caller user : Address) (index x total : ℕ) (t : DebtToken) (s : DebtTokenState)
    → t.state ≡ some s
    → caller ≡ s.pool_address
    → env.auth caller ≡ true
    → IsU128 index
    → ray ≤ index
    → 0 < debt_of user t.debts
    → debt_of user t.debts ≤ total
    → total ≤ i128_max
    → s.total_debt_scaled ≡ pos total
    → balance_of_with_index t user index ≡ ok (pos x)
    → burn_scaled env caller user x index t
      ≡ ok (
        (true, pos (total - debt_of user t.debts), pos 0),
        settled t s user 0 (pos (total - debt_of user t.debts)),
      )
unfolding burn_scaled get_state sweep_dust checked_sub checked_sub_i128 safe_u128_to_i128
repay_all env caller user index x total t s set pool signed hi low some_debt le small backed shown =
    let (mul, fits, more) = displayed t user index x (omega arith) hi low shown in
    let (y, div, y-le, near) =
      ray_div_down-ray_mul (debt_of user t.debts) index x (omega arith) hi low mul in
    let d : ℕ = debt_of user t.debts in
    let open_ : (caller == s.pool_address) ≡ true = ground arith in
    let asked : (x == 0) ≡ false = ground arith in
    let priced : (index == 0) ≡ false = ground arith in
    let enough : ltb d y ≡ false = ground arith in
    let rest : checked_sub d y ≡ some (d - y) = ground arith in
    let dust : sweep_dust d y (d - y) ≡ (d, 0) = ground arith in
    let burned : ltb i128_max d ≡ false = ground arith in
    let fitting : ltb i128_max x ≡ false = ground arith in
    let lower : checked_sub_i128 s.total_debt_scaled (pos d) ≡ some (pos (total - d)) =
      rw backed (taken_off total d le small) in
    let hook = hook_settled t s user 0 (total - d) in
    rw
      (
        signed, set, open_, asked, priced, div, enough, rest, dust, burned, lower, mul, fitting,
        hook,
      )
      refl
