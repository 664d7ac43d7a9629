-- ===== src/Router/Operations/Redemption.antt =====
-- What withdrawing does: how much goes, what is left, and when the collateral flag is cleared.
use k.Base.{
  ℕ, ◌-◌, ◌≤◌, ◌<◌, ◌≡◌, refl, sym, ◌∙◌, ap, subst, arith, ok_injective, ok-injective_pair, ◌==◌,
  ltb, Bool, false, not, if◌then◌else◌, some, ok, ok_or, fail_if, >>=-ok_elim, >>-ok_elim, inl, inr,
  ◌⊎◌, Bool-cases,
}
use k.Base.Int.{ℤ, pos}
use k.Shared.Constants.{IsU128, i128_max, ray, u128_max}
use k.Shared.Errors.{
  KineticRouterError, token_call_failed, insufficient_collateral, insufficient_liquidity,
  a_token_burn_failed, underlying_transfer_failed, math_overflow,
}
use k.Shared.Host.{Address}
use k.Shared.Balances.{get}
use k.Shared.RayMath.{ray_mul, ray_div_up}
use k.Shared.Signed.{safe_reserve_id, safe_i128_to_u128, safe_i128_to_u128-eq-ok}
use k.Shared.UserConfig.{UserConfiguration, is_using_as_collateral, set_using_as_collateral}
use k.Shared.UserConfig.Flags.{set_using_as_collateral-reads}
use k.Shared.Wide.{checked_sub}
use k.AToken.State as AState
use k.AToken.Supply as ASupply
use k.AToken.Balance.{balance_of_with_index}
use k.Router.Accrual.{ReserveData, get_reserve_data}
use k.Router.State.{
  Pool, World, Env, a_token, a_token_at, caught, caught-eq-ok, set_contract, set_user_configuration,
  get_user_configuration,
}
use k.Router.Calls.{burn_deposit, deposit_of, pay_underlying, a_token_env}
use k.Router.Calls.Effects.{
  burn_deposit_parts, pay_underlying_parts, a_token_at-eq-ok, Pays, pay_underlying-Pays,
  transfer_underlying_to-state,
}
use k.AToken.Effects.{burn_scaled_effect, scaled_to_burn_effect}
use k.Router.Rates.{get_total_supply_with_index, get_atoken_underlying_balance}
use k.Router.Operations.{in_pool, accrue}
use k.Router.Operations.Withdraw.{
  withdraw, amount_to_withdraw, return_deposit, pay_out, disable_if_empty,
}
use k.Router.Operations.Parts.{withdraw_parts}
use k.Router.Operations.Frame.{Framed, accrue-Framed, settle_rates-Framed, check_health-Framed}
use k.Router.Operations.Positions.{reserve_id_lem}
use k.Router.Operations.Settlement.{remaining_lem}
use k.Router.Operations.Deposits.{displayed, burned_whole, burned_part}

-- The units of the caller and what the deposit token shows for them.
amount_to_withdraw_lem :
    {U : Type 0} (env : Env U) (caller asset : Address) (amount held out : ℕ) (r : ReserveData)
    (w : World U) (t : AState.Token)
    → amount_to_withdraw env caller asset amount r w ≡ ok (held, out)
    → w.contracts r.a_token_address ≡ some (a_token t)
    → balance_of_with_index t caller r.liquidity_index ≡ ok (pos held)
unfolding amount_to_withdraw deposit_of
amount_to_withdraw_lem env caller asset amount held out r w t h there =
    >>=-ok_elim (caught (deposit_of w r.a_token_address caller r.liquidity_index) token_call_failed)
      _ h
      λ balance e rest. >>=-ok_elim (safe_i128_to_u128 balance) _ rest λ n f rest.
        let going : ℕ = if amount == u128_max then n else amount in
        >>-ok_elim (fail_if (ltb n going) insufficient_collateral) _ rest λ enough rest.
          >>=-ok_elim (get_total_supply_with_index w.contracts r.a_token_address r.liquidity_index)
            _ rest
            λ total g rest.
              >>=-ok_elim (get_atoken_underlying_balance env w asset r.a_token_address) _ rest
                λ lying k rest.
                  >>-ok_elim (fail_if (ltb total going) insufficient_liquidity) _ rest λ first rest.
                    >>-ok_elim (fail_if (ltb lying going) insufficient_liquidity) _ rest
                      λ second rest.
                        let (amount_held, _) = ok-injective_pair n held going out _ refl rest in
                        >>=-ok_elim (a_token_at w.contracts r.a_token_address) _
                          (caught-eq-ok _ token_call_failed e)
                          λ s found shown.
                            let here = a_token_at-eq-ok w.contracts r.a_token_address s found in
                            let same : s ≡ t = cc in
                            let value : balance ≡ pos n = safe_i128_to_u128-eq-ok balance n f in
                            let shown' : balance_of_with_index t caller r.liquidity_index
                                ≡ ok balance =
                              rw same at shown in
                            rw (value, amount_held) at shown'

-- A payment leaves the books of the token that pays as they are.
paid_here :
    {U : Type 0} (env : Env U) (w w' : World U) (address to : Address) (amount : ℕ)
    (t : AState.Token)
    → pay_out env w address to amount ≡ ok w'
    → w.contracts address ≡ some (a_token t)
    → (w'.contracts address ≡ some (a_token t))
      × (w'.pool ≡ w.pool)
      × Pays env address to amount w w'
unfolding set_contract
paid_here env w w' address to amount t h there =
    >>=-ok_elim (caught (pay_underlying env w address to amount) underlying_transfer_failed) _ h
      λ (paid, v) e rest.
        >>-ok_elim (fail_if (not paid) underlying_transfer_failed) _ rest λ went rest.
          let (s, s', u, before, called, same) =
            pay_underlying_parts env w v address to amount paid
              (caught-eq-ok _ underlying_transfer_failed e) in
          let world : v ≡ w' = ok_injective _ v w' refl rest in
          let unchanged : s' ≡ s =
            transfer_underlying_to-state (a_token_env env w address s) env.self to amount paid s s'
              called in
          let token : s ≡ t = cc in
          let full = sym world ∙ same in
          let moved =
            pay_underlying-Pays env w v address to amount paid
              (caught-eq-ok _ underlying_transfer_failed e) in
          (
            ground (arith, full),
            ap (λ x. x.pool) full,
            subst (λ x. Pays env address to amount w x) world moved,
          )

-- The underlying token of the deposit token `t` has moved `out` from it to `to`.
abbrev pub Sends :
    {U : Type 0} → Env U → Address → Address → ℕ → AState.Token → World U → World U → Type 0
Sends env address to out t w w' =
    (s : AState.ATokenState) × (t.state ≡ some s)
    × (env.transfer s.underlying_asset address to (pos out) w.underlying ≡ some w'.underlying)

-- A burn leaves the underlying asset as it is.
sent :
    {U : Type 0} (env : Env U) (address caller to : Address) (out index : ℕ) (t t' : AState.Token)
    (o : Bool × ℤ) (w v w' : World U) (token_env : AState.Env)
    → ASupply.burn_scaled token_env env.self caller out index t ≡ ok (o, t')
    → v.contracts address ≡ some (a_token t')
    → v.underlying ≡ w.underlying
    → Pays env address to out v w'
    → Sends env address to out t w w'
sent env address caller to out index t t' o w v w' token_env burned put same
      (x, s, there, known, moved) =
    let (st, a, e, changed) =
      burn_scaled_effect token_env env.self caller out index t t' o burned in
    let (_, set, _, _, _, _, _, _, _) =
      scaled_to_burn_effect token_env env.self caller out index t st a e in
    let token : x ≡ t' = cc in
    let asset : s.underlying_asset ≡ st.underlying_asset = ground (arith, changed) in
    (st, set, rw (asset, same) at moved)

-- What the deposit token holds once it has burned and paid.
return_deposit_effect :
    {U : Type 0} (env : Env U) (caller to : Address) (out : ℕ) (r : ReserveData) (w w' : World U)
    (t : AState.Token)
    → return_deposit env caller out to r w ≡ ok w'
    → w.contracts r.a_token_address ≡ some (a_token t)
    → (t' : AState.Token) × (o : Bool × ℤ) × (ASupply.burn_scaled
          (a_token_env env w r.a_token_address t)
          env.self
          caller
          out
          r.liquidity_index
          t
        ≡ ok (o, t'))
      × (w'.contracts r.a_token_address ≡ some (a_token t'))
      × (w'.pool ≡ w.pool)
      × Sends env r.a_token_address to out t w w'
unfolding return_deposit set_contract
return_deposit_effect env caller to out r w w' t h there =
    let burn = burn_deposit env w r.a_token_address caller out r.liquidity_index in
    >>=-ok_elim (caught burn a_token_burn_failed) _ h λ (o, v) e rest.
      let (s, t', before, burned, same) =
        burn_deposit_parts env w v r.a_token_address caller out r.liquidity_index o
          (caught-eq-ok burn a_token_burn_failed e) in
      let token : s ≡ t = cc in
      let put : v.contracts r.a_token_address ≡ some (a_token t') = ground (arith, same) in
      let (after, kept, moved) = paid_here env v w' r.a_token_address to out t' rest put in
      let burned' = rw token at burned in
      let before' : v.underlying ≡ w.underlying = ap (λ x. x.underlying) same in
      (
        t',
        o,
        burned',
        after,
        kept ∙ ap (λ x. x.pool) same,
        sent env r.a_token_address caller to out r.liquidity_index t t' o w v w'
            (a_token_env env w r.a_token_address t) burned' put before' moved,
      )

disable_if_empty_lem :
    (remaining : ℕ) (user : Address) (r : ReserveData) (p p' : Pool)
    → disable_if_empty remaining user r p ≡ ok p'
    → ((remaining ≡ 0) × (is_using_as_collateral (p'.user_configuration user) r.id ≡ false))
      ⊎ ((0 < remaining) × (p' ≡ p))
unfolding disable_if_empty set_user_configuration
disable_if_empty_lem remaining user r p p' h = elim (Bool-cases (remaining == 0)) [
  | inr left ↦ let same = rw left at h in inr (ground arith, cc)
  | inl taken_all ↦
      let c : UserConfiguration = get_user_configuration p user in
      >>=-ok_elim (safe_reserve_id r.id) _ (rw taken_all at h) λ i e rest.
        let (same, small) = reserve_id_lem r.id i e in
        let config : p'.user_configuration user ≡ set_using_as_collateral c i false =
          ground arith in
        let itself : (if r.id == r.id then false else is_using_as_collateral c r.id) ≡ false =
          ground arith in
        inl (
          ground arith,
          rw (config, same)
              ((set_using_as_collateral-reads c r.id r.id false small small).0 ∙ itself),
        )
]

-- What a withdrawal of `out` to `to` comes to: the underlying token has moved as much from the
-- deposit token, all of the deposit that is shown, or less.
abbrev pub Redeems :
    {U : Type 0}
    → Env U
    → Address
    → Address
    → ℕ
    → ℕ
    → World U
    → World U
    → AState.Token
    → ReserveData
    → Type 0
Redeems env user to s out w w' t u =
    (shown : ℕ) × (t' : AState.Token) × (balance_of_with_index t user u.liquidity_index
      ≡ ok (pos shown))
    × (w'.contracts u.a_token_address ≡ some (a_token t'))
    × Sends env u.a_token_address to out t w w'
    × (((out ≡ shown)
          × (get user t'.balances ≡ pos 0)
          × (is_using_as_collateral (w'.pool.user_configuration user) u.id ≡ false))
        ⊎ ((out < shown)
            × ((n : ℕ) × (ray_div_up out u.liquidity_index ≡ ok n)
                × (get user t'.balances ≡ pos (s - n)))
            × (w'.pool.user_configuration user ≡ w.pool.user_configuration user)))

parts-Redeems :
    {U : Type 0} (env : Env U) (user to : Address) (w w2 w3 w' : World U) (u : ReserveData)
    (t t' : AState.Token) (s held out remaining : ℕ) (p : Pool)
    → w2.underlying ≡ w.underlying
    → Sends env u.a_token_address to out t w2 w3
    → balance_of_with_index t user u.liquidity_index ≡ ok (pos held)
    → w3.contracts u.a_token_address ≡ some (a_token t')
    → w3.pool.user_configuration ≡ w.pool.user_configuration
    → ((out ≡ held) → get user t'.balances ≡ pos 0)
    → ((n : ℕ) × (ray_div_up out u.liquidity_index ≡ ok n) × (get user t'.balances ≡ pos (s - n)))
    → ok_or {E = KineticRouterError} (checked_sub held out) math_overflow ≡ ok remaining
    → disable_if_empty remaining user u w3.pool ≡ ok p
    → Framed (in_pool w3 p) w'
    → Redeems env user to s out w w' t u
parts-Redeems env user to w w2 w3 w' u t t' s held out remaining p same (st, known, moved) shown
      after kept emptied units_left left marked f =
    let paid : Sends env u.a_token_address to out t w w' =
      (st, known, rw (same, sym f.underlying) at moved) in
    let (part, same_left) = remaining_lem held out remaining left in
    let after' : w'.contracts u.a_token_address ≡ some (a_token t') = rw f.contracts after in
    elim (disable_if_empty_lem remaining user u w3.pool p marked) [
      | inl (none_left, flag) ↦
          let all : out ≡ held = omega (arith, part, same_left, none_left) in
          (held, t', shown, after', paid, inl (all, emptied all, rw f.flags flag))
      | inr (some_left, same_pool) ↦
          let flags : p.user_configuration ≡ w.pool.user_configuration =
            ap (λ x. x.user_configuration) same_pool ∙ kept in
          (
            held,
            t',
            shown,
            after',
            paid,
            inr (omega (arith, part, same_left, some_left), units_left, rw (f.flags, flags) refl),
          )
    ]

-- A withdrawal of `out` that succeeds has moved just `out` of the deposit token's underlying asset
-- from the deposit token to the receiver, no more than the deposit that the deposit token shows
-- at the reserve's updated liquidity index. If it takes all of it, no scaled unit is left and the
-- caller's collateral flag for the reserve is cleared; if it takes less, the caller's units fall by
-- `out` at the index, rounded up, or to 0 if that is more, and the flags stay as they were. The
-- index is a `u128` of at least one ray, and the caller had `s` scaled units, an amount that an
-- `i128` holds.
pub withdraw-Redeems :
    {U : Type 0} (env : Env U) (caller asset to : Address) (amount out s : ℕ) (w w' w1 : World U)
    (r u : ReserveData) (t : AState.Token)
    → withdraw env caller asset amount to w ≡ ok (out, w')
    → get_reserve_data w.pool.reserves asset ≡ ok r
    → accrue env.now asset r w ≡ ok (u, w1)
    → w.contracts u.a_token_address ≡ some (a_token t)
    → get caller t.balances ≡ pos s
    → s ≤ i128_max
    → IsU128 u.liquidity_index
    → ray ≤ u.liquidity_index
    → Redeems env caller to s out w w' t u
withdraw-Redeems env caller asset to amount out s w w' w1 r u t h found accrued there units small hi
      low =
    let (
      r', u', v1, w2, w3, held, remaining, p, begun, _, amounts, checked, returned, left, marked,
      rated,
    ) =
      withdraw_parts env caller asset w w' amount out to h in
    let same_r : r' ≡ r = ok_injective _ r' r begun.found found in
    let accrued' : accrue env.now asset r w ≡ ok (u', v1) = rw same_r at begun.accrued in
    let (same_u, _) = ok-injective_pair u' u v1 w1 _ accrued' accrued in
    let f1 = accrue-Framed env.now asset r u' w v1 accrued' in
    let f2 = check_health-Framed env caller asset out u' v1 w2 checked in
    let f3 = settle_rates-Framed asset u' (in_pool w3 p) w' rated in
    let there1 : v1.contracts u'.a_token_address ≡ some (a_token t) =
      rw (f1.contracts, same_u) there in
    let there2 : w2.contracts u'.a_token_address ≡ some (a_token t) = rw f2.contracts there1 in
    let shown = amount_to_withdraw_lem env caller asset amount held out u' v1 t amounts there1 in
    let (t', o, burned, after, kept, moved) =
      return_deposit_effect env caller to out u' w2 w3 t returned there2 in
    let flags = ap (λ x. x.user_configuration) kept ∙ f2.flags ∙ f1.flags in
    let worth : ray_mul s u'.liquidity_index ≡ ok held =
      displayed t caller u'.liquidity_index s held units shown in
    let index_hi : IsU128 u'.liquidity_index = rw same_u hi in
    let index_low : ray ≤ u'.liquidity_index = rw same_u low in
    subst (λ x. Redeems env caller to s out w w' t x) same_u
      (parts-Redeems env caller to w w2 w3 w' u' t t' s held out remaining p
        (f2.underlying ∙ f1.underlying) moved shown after flags
        (burned_whole (a_token_env env w2 u'.a_token_address t) env.self caller u'.liquidity_index s
          held out t t' o units small index_hi index_low worth burned)
        (burned_part (a_token_env env w2 u'.a_token_address t) env.self caller u'.liquidity_index s
          out t t' o units burned)
        left marked f3)
