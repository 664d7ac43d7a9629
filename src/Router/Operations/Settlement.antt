-- ===== src/Router/Operations/Settlement.antt =====
-- What repaying does: how much goes, what is left, and when the borrower's flag is cleared.
use Prim.Native.Nat.{min}
use k.Base.{
  ℕ, ◌+◌, ◌-◌, ◌≤◌, ◌<◌, ◌≡◌, refl, sym, ◌∙◌, ap, subst, arith, ok_injective, ok-injective_pair,
  ◌==◌, false, if◌then◌else◌, some, ok, ok_or, fail_if, >>=-ok_elim, >>-ok_elim, inl, inr, ◌⊎◌,
  Bool-cases,
}
use k.Base.Int.{pos}
use k.Shared.Constants.{IsU128, ray, u128_max}
use k.Shared.Errors.{
  KineticRouterError, token_call_failed, no_debt_of_requested_type, underlying_transfer_failed,
  math_overflow,
}
use k.Shared.Host.{Address}
use k.Shared.Debts.{debt_of, debt_of-put_debt}
use k.Shared.RayMath.{ray_div_down}
use k.Shared.RayMath.Scaled.{ray_div_down-ray_mul}
use k.Shared.Signed.{
  safe_reserve_id, safe_u128_to_i128, safe_i128_to_u128, safe_i128_to_u128-eq-ok,
  safe_u128_to_i128-eq-ok,
}
use k.Shared.UserConfig.{UserConfiguration, is_borrowing, set_borrowing}
use k.Shared.UserConfig.Flags.{set_borrowing-reads}
use k.Shared.Wide.{checked_sub}
use k.DebtToken.State as DState
use k.DebtToken.Balance.{balance_of_with_index}
use k.DebtToken.Effects.{repay_effect, left_after}
use k.DebtToken.Repay.{displayed}
use k.Router.Accrual.{ReserveData, get_reserve_data}
use k.Router.State.{
  Pool, World, Env, debt_token, debt_token_at, caught, caught-eq-ok, set_contract,
  set_user_configuration, get_user_configuration,
}
use k.Router.Calls.{burn_debt, debt_of_user, debt_token_env}
use k.Router.Calls.Effects.{burn_debt_parts, debt_token_at-eq-ok}
use k.Router.Operations.{in_pool, accrue}
use k.Router.Operations.Repay.{
  repay, debt_to_repay, amount_to_repay, leaves_no_dust, take_repayment, clear_if_repaid,
  or_burn_failed, or_burn_failed-eq-ok,
}
use k.Router.Operations.Parts.{repay_parts}
use k.Router.Operations.Frame.{Framed, accrue-Framed, settle_rates-Framed}
use k.Router.Operations.Positions.{reserve_id_lem}

part_le :
    (amount debt out : ℕ) (r : ReserveData) → amount_to_repay amount debt r ≡ ok out → out ≤ debt
unfolding amount_to_repay
part_le amount debt out r h = elim (Bool-cases (amount == u128_max)) [
  | inl all ↦ let same = rw all at h in let eq : debt ≡ out = cc in omega arith
  | inr part ↦
      >>=-ok_elim (ok_or (checked_sub debt (min amount debt)) math_overflow) _ (rw part at h)
        λ remaining e rest.
          >>-ok_elim (leaves_no_dust remaining r) _ rest
            λ clean rest. let eq : min amount debt ≡ out = cc in omega arith
]

pub remaining_lem :
    (a b n : ℕ)
    → ok_or {E = KineticRouterError} (checked_sub a b) math_overflow ≡ ok n
    → (b ≤ a) × (n ≡ a - b)
unfolding checked_sub
remaining_lem a b n h = (ground arith, ground arith)

debt_to_repay_lem :
    {U : Type 0} (env : Env U) (user : Address) (r : ReserveData) (w : World U) (debt : ℕ)
    (t : DState.DebtToken)
    → debt_to_repay env user r w ≡ ok debt
    → w.contracts r.debt_token_address ≡ some (debt_token t)
    → (balance_of_with_index t user r.variable_borrow_index ≡ ok (pos debt)) × (0 < debt)
unfolding debt_to_repay debt_of_user
debt_to_repay_lem env user r w debt t h there =
    >>=-ok_elim
      (caught (debt_of_user w r.debt_token_address user r.variable_borrow_index) token_call_failed)
      _ h
      λ balance e rest. >>=-ok_elim (safe_i128_to_u128 balance) _ rest λ n f rest.
        >>-ok_elim (fail_if (n == 0) no_debt_of_requested_type) _ rest λ some_debt rest.
          >>=-ok_elim (debt_token_at w.contracts r.debt_token_address) _
            (caught-eq-ok _ token_call_failed e)
            λ s found shown.
              let here = debt_token_at-eq-ok w.contracts r.debt_token_address s found in
              let same : s ≡ t = cc in
              let value : balance ≡ pos n = safe_i128_to_u128-eq-ok balance n f in
              let amount : n ≡ debt = cc in
              let shown' : balance_of_with_index t user r.variable_borrow_index ≡ ok balance =
                rw same at shown in
              (rw (value, amount) at shown', rw amount at (positive n some_debt))
  where
    positive :
        (n : ℕ)
        → fail_if {E = KineticRouterError} (n == 0) no_debt_of_requested_type ≡ ok tt
        → 0 < n
    positive n h = ground arith

take_repayment_effect :
    {U : Type 0} (env : Env U) (caller asset user : Address) (amount : ℕ) (r : ReserveData)
    (w w' : World U) (t : DState.DebtToken)
    → take_repayment env caller asset amount user r w ≡ ok w'
    → w.contracts r.debt_token_address ≡ some (debt_token t)
    → (t' : DState.DebtToken) × (n : ℕ) × (w'.contracts r.debt_token_address ≡ some (debt_token t'))
      × (w'.pool ≡ w.pool)
      × (env.transfer_from asset env.self caller r.a_token_address (pos amount) w.underlying
          ≡ some w'.underlying)
      × (ray_div_down amount r.variable_borrow_index ≡ ok n)
      × (debt_of user t'.debts ≡ left_after (debt_of user t.debts) n)
unfolding take_repayment set_contract
take_repayment_effect {U = U} env caller asset user amount r w w' t h there =
    >>=-ok_elim (safe_u128_to_i128 amount) _ h λ i e rest.
      >>=-ok_elim
        (ok_or (env.transfer_from asset env.self caller r.a_token_address i w.underlying)
          underlying_transfer_failed)
        _ rest
        λ paid f rest.
          let v : World U = record w { underlying = paid } in
          >>=-ok_elim
            (or_burn_failed
              (burn_debt env v r.debt_token_address user amount r.variable_borrow_index))
            _ rest
            λ (burned, v') g rest.
              let (s, s', here, called, same) =
                burn_debt_parts env v v' r.debt_token_address user amount r.variable_borrow_index
                  burned (or_burn_failed-eq-ok _ g) in
              let one : s ≡ t = cc in
              let (st, n, _, _, _, scaled, _, _, changed) =
                repay_effect (debt_token_env env) env.self user amount r.variable_borrow_index s s'
                  burned called in
              let end : w' ≡ v' = cc in
              let debts : debt_of user s'.debts ≡ left_after (debt_of user s.debts) n = rw changed (
                debt_of-put_debt user user (left_after (debt_of user s.debts) n) s.debts
                ∙ ground arith) in
              let exact : i ≡ pos amount = (safe_u128_to_i128-eq-ok amount i e).0 in
              let took : env.transfer_from asset env.self caller r.a_token_address i w.underlying
                  ≡ some paid =
                ground (arith, f) in
              let left : w'.underlying ≡ paid = cc in
              (
                s',
                n,
                rw (end, same) (ground arith),
                rw (end, same) refl,
                rw left (rw exact at took),
                scaled,
                rw one at debts,
              )

clear_if_repaid_lem :
    (remaining : ℕ) (user : Address) (r : ReserveData) (p p' : Pool)
    → clear_if_repaid remaining user r p ≡ ok p'
    → ((remaining ≡ 0) × (is_borrowing (p'.user_configuration user) r.id ≡ false))
      ⊎ ((0 < remaining) × (p' ≡ p))
unfolding clear_if_repaid set_user_configuration
clear_if_repaid_lem remaining user r p p' h = elim (Bool-cases (remaining == 0)) [
  | inr left ↦ let same = rw left at h in inr (ground arith, cc)
  | inl repaid ↦
      let c : UserConfiguration = get_user_configuration p user in
      >>=-ok_elim (safe_reserve_id r.id) _ (rw repaid at h) λ i e rest.
        let (same, small) = reserve_id_lem r.id i e in
        let config : p'.user_configuration user ≡ set_borrowing c i false = ground arith in
        let itself : (if r.id == r.id then false else is_borrowing c r.id) ≡ false = ground arith in
        inl (
          ground arith,
          rw (config, same) ((set_borrowing-reads c r.id r.id false small small).0 ∙ itself),
        )
]

-- The last unit goes with the rest.
swept : (d y n : ℕ) → y ≤ d → d ≤ y + 1 → n ≡ y → left_after d n ≡ 0
swept d y n low high e = ground arith

settled_debt :
    (t : DState.DebtToken) (user : Address) (index debt n : ℕ)
    → IsU128 (debt_of user t.debts)
    → IsU128 index
    → ray ≤ index
    → balance_of_with_index t user index ≡ ok (pos debt)
    → ray_div_down debt index ≡ ok n
    → left_after (debt_of user t.debts) n ≡ 0
settled_debt t user index debt n hd hi low shown scaled =
    let (mul, _, _) = displayed t user index debt hd hi low shown in
    let (y, div, y-le, near) =
      ray_div_down-ray_mul (debt_of user t.debts) index debt hd hi low mul in
    swept (debt_of user t.debts) y n y-le near (ok_injective _ n y scaled div)

-- What a repayment of `out` comes to: the payer's underlying tokens have gone to the deposit token,
-- and they are worth all of the debt that is shown, or less.
abbrev pub Settles :
    {U : Type 0}
    → Env U
    → Address
    → Address
    → Address
    → ℕ
    → World U
    → World U
    → DState.DebtToken
    → ReserveData
    → Type 0
Settles env caller asset user out w w' t u =
    (shown : ℕ) × (t' : DState.DebtToken) × (balance_of_with_index t user u.variable_borrow_index
      ≡ ok (pos shown))
    × (w'.contracts u.debt_token_address ≡ some (debt_token t'))
    × (env.transfer_from asset env.self caller u.a_token_address (pos out) w.underlying
        ≡ some w'.underlying)
    × (((out ≡ shown)
          × (debt_of user t'.debts ≡ 0)
          × (is_borrowing (w'.pool.user_configuration user) u.id ≡ false))
        ⊎ ((out < shown)
            × ((n : ℕ) × (ray_div_down out u.variable_borrow_index ≡ ok n)
                × (debt_of user t'.debts ≡ left_after (debt_of user t.debts) n))
            × (w'.pool.user_configuration user ≡ w.pool.user_configuration user)))

parts-Settles :
    {U : Type 0} (env : Env U) (caller asset user : Address) (w w1 w2 w' : World U)
    (u : ReserveData) (t t' : DState.DebtToken) (debt out n remaining : ℕ) (p : Pool)
    → Framed w w1
    → env.transfer_from asset env.self caller u.a_token_address (pos out) w1.underlying
      ≡ some w2.underlying
    → balance_of_with_index t user u.variable_borrow_index ≡ ok (pos debt)
    → w2.contracts u.debt_token_address ≡ some (debt_token t')
    → w2.pool ≡ w1.pool
    → ray_div_down out u.variable_borrow_index ≡ ok n
    → debt_of user t'.debts ≡ left_after (debt_of user t.debts) n
    → ok_or {E = KineticRouterError} (checked_sub debt out) math_overflow ≡ ok remaining
    → clear_if_repaid remaining user u w2.pool ≡ ok p
    → Framed (in_pool w2 p) w'
    → IsU128 (debt_of user t.debts)
    → IsU128 u.variable_borrow_index
    → ray ≤ u.variable_borrow_index
    → Settles env caller asset user out w w' t u
parts-Settles env caller asset user w w1 w2 w' u t t' debt out n remaining p f1 moved shown after
      same scaled fewer left cleared f hd hi low =
    let kept : w2.pool.user_configuration ≡ w.pool.user_configuration =
      ap (λ x. x.user_configuration) same ∙ f1.flags in
    let paid = rw (f1.underlying, sym f.underlying) at moved in
    let (part, same_left) = remaining_lem debt out remaining left in
    let after' : w'.contracts u.debt_token_address ≡ some (debt_token t') = rw f.contracts after in
    elim (clear_if_repaid_lem remaining user u w2.pool p cleared) [
      | inl (none_left, flag) ↦
          let all : out ≡ debt = omega (arith, part, same_left, none_left) in
          let nothing =
            settled_debt t user u.variable_borrow_index debt n hd hi low shown (rw all at scaled) in
          (debt, t', shown, after', paid, inl (all, fewer ∙ nothing, rw f.flags flag))
      | inr (some_left, same_pool) ↦
          let flags : p.user_configuration ≡ w.pool.user_configuration =
            ap (λ x. x.user_configuration) same_pool ∙ kept in
          (
            debt,
            t',
            shown,
            after',
            paid,
            inr (
              omega (arith, part, same_left, some_left),
              (n, scaled, fewer),
              rw (f.flags, flags) refl,
            ),
          )
    ]

-- A repayment of `out` that succeeds has moved just `out` of the underlying token from the caller
-- to the deposit token, no more than the debt that the debt token shows at the reserve's updated
-- borrow index. If it takes all of it, the borrower owes no scaled unit and the
-- borrower's flag for the reserve is cleared; if it takes less, the scaled debt falls by `out` at the
-- index, rounded down, and to 0 if at most one unit is left, and the flag stays as it was. The
-- index is a `u128` of at least one ray, and the scaled debt was a `u128`.
pub repay-Settles :
    {U : Type 0} (env : Env U) (caller asset user : Address) (amount mode out : ℕ)
    (w w' w1 : World U) (r u : ReserveData) (t : DState.DebtToken)
    → repay env caller asset amount mode user w ≡ ok (out, w')
    → get_reserve_data w.pool.reserves asset ≡ ok r
    → accrue env.now asset r w ≡ ok (u, w1)
    → w.contracts u.debt_token_address ≡ some (debt_token t)
    → IsU128 (debt_of user t.debts)
    → IsU128 u.variable_borrow_index
    → ray ≤ u.variable_borrow_index
    → Settles env caller asset user out w w' t u
repay-Settles env caller asset user amount mode out w w' w1 r u t h found accrued there hd hi low =
    let (r', u', v1, w2, debt, remaining, p, begun, _, owed, part, taken, left, cleared, rated) =
      repay_parts env caller asset w w' amount mode out user h in
    let same_r : r' ≡ r = ok_injective _ r' r begun.found found in
    let accrued' : accrue env.now asset r w ≡ ok (u', v1) = rw same_r at begun.accrued in
    let (same_u, _) = ok-injective_pair u' u v1 w1 _ accrued' accrued in
    let f1 = accrue-Framed env.now asset r u' w v1 accrued' in
    let f2 = settle_rates-Framed asset u' (in_pool w2 p) w' rated in
    let there' : v1.contracts u'.debt_token_address ≡ some (debt_token t) =
      rw (f1.contracts, same_u) there in
    let (shown, _) = debt_to_repay_lem env user u' v1 debt t owed there' in
    let (t', n, after, kept, moved, scaled, fewer) =
      take_repayment_effect env caller asset user out u' v1 w2 t taken there' in
    subst (λ x. Settles env caller asset user out w w' t x) same_u
      (parts-Settles env caller asset user w v1 w2 w' u' t t' debt out n remaining p f1 moved shown
        after kept scaled fewer left cleared f2 hd (rw same_u hi) (rw same_u low))
