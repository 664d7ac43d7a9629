-- ===== src/Router/Treasury.antt =====
-- The protocol's share of the interest, and the recorded deficit (src/treasury.rs, and
-- `reduce_reserve_deficit` of src/storage.rs).
use Prim.Native.Nat.{min}
use k.Base.{
  ℕ, ◌+◌, ◌-◌, ◌≤◌, ◌<◌, ◌≡◌, refl, sym, ◌∙◌, arith, ap, some, true, not, subst, ok_injective, ◌==◌,
  ltb, if◌then◌else◌, ok, ok_or, fail_if, ◌>>=◌, ◌>>◌, >>=-ok_elim, >>-ok_elim, ok-injective_pair,
  inl, inr, ◌⊎◌, Bool-cases,
}
use k.Shared.Errors.{invalid_amount, treasury_not_set, underlying_transfer_failed}
use k.Shared.Host.{Address, require_auth}
use k.Shared.Signed.{safe_u128_to_i128, safe_u128_to_i128-eq-ok}
use k.Base.Int.{pos}
use k.Router.Calls.Effects.{
  Pays, pay_underlying-Pays, pay_underlying_parts, transfer_underlying_to-state,
}
use k.Router.State.{a_token, set_contract, Contract, Contracts, caught, caught-eq-ok}
use k.Router.Calls.{pay_underlying, a_token_env}
use k.Router.Accrual.{update_state, ReserveData, Outcome, get_reserve_data}
use k.Router.State.{Pool, World, Env}
use k.Router.Access.{require_pool_admin}
use k.Router.Rates.{get_atoken_underlying_balance, get_total_supply_with_index}
use k.Router.Operations.{accrue}
use k.Router.Operations.Withdraw.{pay_out}

-- `reduce_reserve_deficit`
unfoldable pub reduce_reserve_deficit : Pool → Address → ℕ → Pool
reduce_reserve_deficit p asset amount = record p {
  reserve_deficit =
      λ a. if a == asset then p.reserve_deficit asset - amount else p.reserve_deficit a;
}

module _ {U : Type 0} (env : Env U) where
  -- What lies in the deposit token beyond the suppliers' claim, less the deficit.
  unfoldable pub collectible : Address → ReserveData → World U → Outcome ℕ
  collectible asset r w = do
    underlying_balance ← get_atoken_underlying_balance env w asset r.a_token_address
    total_supply ← get_total_supply_with_index w.contracts r.a_token_address r.liquidity_index
    total_borrow ←
        get_total_supply_with_index w.contracts r.debt_token_address r.variable_borrow_index
    fail_if (ltb total_supply total_borrow) invalid_amount
    ok (underlying_balance - (total_supply - total_borrow) - w.pool.reserve_deficit asset)

  abbrev send_to_treasury : ReserveData → ℕ → World U → Outcome (ℕ × World U)
  send_to_treasury r amount w = do
    treasury ← ok_or w.pool.treasury treasury_not_set
    w' ← pay_out env w r.a_token_address treasury amount
    ok (amount, w')

  unfoldable pub collect_protocol_reserves : Address → World U → Outcome (ℕ × World U)
  unfolding collectible
  collect_protocol_reserves asset w = do
    require_pool_admin env.auth w.pool
    r ← get_reserve_data w.pool.reserves asset
    (updated, w1) ← accrue env.now asset r w
    amount ← collectible asset updated w1
    if amount == 0 then ok (0, w1) else send_to_treasury updated amount w1

  unfoldable pub cover_deficit : Address → Address → ℕ → World U → Outcome (ℕ × World U)
  unfolding reduce_reserve_deficit
  cover_deficit caller asset amount w = do
    require_auth env.auth caller
    fail_if (amount == 0) invalid_amount
    fail_if (w.pool.reserve_deficit asset == 0) invalid_amount
    let cover_amount = min amount (w.pool.reserve_deficit asset)
    r ← get_reserve_data w.pool.reserves asset
    cover_i128 ← safe_u128_to_i128 cover_amount
    underlying ←
        ok_or (env.transfer asset caller r.a_token_address cover_i128 w.underlying)
          underlying_transfer_failed
    ok (
      cover_amount,
      record w { pool = reduce_reserve_deficit w.pool asset cover_amount; underlying = underlying },
    )

  -- Covering a deficit of `out` that succeeds was signed by the caller and has moved just `out` of the
  -- asset from the caller to the reserve's deposit token: more than 0 and at most what was offered.
  -- The deficit recorded afterwards is less by just that; the other assets' deficits stay.
  pub cover_deficit_effect :
      (caller asset other : Address) (amount out : ℕ) (w w' : World U)
      → cover_deficit caller asset amount w ≡ ok (out, w')
      → (r : ReserveData) × (get_reserve_data w.pool.reserves asset ≡ ok r)
        × (env.auth caller ≡ true)
        × (env.transfer asset caller r.a_token_address (pos out) w.underlying ≡ some w'.underlying)
        × (0 < out)
        × (out ≤ amount)
        × (w'.pool.reserve_deficit asset + out ≡ w.pool.reserve_deficit asset)
        × ((other ≡ asset) ⊎ (w'.pool.reserve_deficit other ≡ w.pool.reserve_deficit other))
  unfolding cover_deficit reduce_reserve_deficit
  cover_deficit_effect caller asset other amount out w w' h =
      >>-ok_elim (require_auth env.auth caller) _ h λ signed rest.
        >>-ok_elim (fail_if (amount == 0) invalid_amount) _ rest λ some_amount rest.
          >>-ok_elim (fail_if (w.pool.reserve_deficit asset == 0) invalid_amount) _ rest
            λ some_deficit rest.
              let covered : ℕ = min amount (w.pool.reserve_deficit asset) in
              >>=-ok_elim (get_reserve_data w.pool.reserves asset) _ rest λ r found rest.
                >>=-ok_elim (safe_u128_to_i128 covered) _ rest λ n e rest.
                  >>=-ok_elim
                    (ok_or (env.transfer asset caller r.a_token_address n w.underlying)
                      underlying_transfer_failed)
                    _ rest
                    λ u moved rest.
                      let (same, world) = ok-injective_pair covered out _ w' _ refl rest in
                      let there : w'.pool.reserve_deficit asset
                          ≡ w.pool.reserve_deficit asset - covered =
                        rw (sym world) (ground arith) in
                      let elsewhere : (other ≡ asset)
                          ⊎ (w'.pool.reserve_deficit other ≡ w.pool.reserve_deficit other) =
                        rw (sym world) (ground arith) in
                      let exact : n ≡ pos covered = (safe_u128_to_i128-eq-ok covered n e).0 in
                      let moved' : env.transfer asset caller r.a_token_address n w.underlying
                          ≡ some u =
                        ground (arith, moved) in
                      let after : w'.underlying ≡ u = sym (ap (λ x. x.underlying) world) in
                      (
                        r,
                        found,
                        ground arith,
                        rw after (rw (exact, same) at moved'),
                        ground arith,
                        ground arith,
                        ground arith,
                        elsewhere,
                      )

  -- What lies in the deposit token is what the suppliers may claim less what is lent out, the
  -- recorded deficit, and what is collectible, if anything is.
  collectible_lem :
      (asset : Address) (r : ReserveData) (w : World U) (n : ℕ)
      → collectible asset r w ≡ ok n
      → (held : ℕ) × (claims : ℕ) × (lent : ℕ) × (get_atoken_underlying_balance env w asset
            r.a_token_address
          ≡ ok held)
        × (get_total_supply_with_index w.contracts r.a_token_address r.liquidity_index ≡ ok claims)
        × (get_total_supply_with_index w.contracts r.debt_token_address r.variable_borrow_index
            ≡ ok lent)
        × (lent ≤ claims)
        × (n ≡ held - (claims - lent) - w.pool.reserve_deficit asset)
  unfolding collectible
  collectible_lem asset r w n h =
      >>=-ok_elim (get_atoken_underlying_balance env w asset r.a_token_address) _ h λ held e rest.
        >>=-ok_elim (get_total_supply_with_index w.contracts r.a_token_address r.liquidity_index) _
          rest
          λ claims f rest.
            >>=-ok_elim
              (get_total_supply_with_index w.contracts r.debt_token_address r.variable_borrow_index)
              _ rest
              λ lent g rest.
                >>-ok_elim (fail_if (ltb claims lent) invalid_amount) _ rest
                  λ solvent rest. (held, claims, lent, e, f, g, ground arith, ground arith)

  -- What a collection of `out` does, once the reserve is brought up to date as `u` in `w1`: nothing
  -- more, where nothing lies beyond the suppliers' claim less what is lent, and the recorded deficit;
  -- or a payment of just what lies beyond them to the treasury.
  abbrev pub Collects : Address → Address → ℕ → World U → World U → World U → ReserveData → Type 0
  Collects asset other out w w1 w' u =
      (held : ℕ) × (claims : ℕ) × (lent : ℕ) × (require_pool_admin env.auth w.pool ≡ ok tt)
      × (get_atoken_underlying_balance env w asset u.a_token_address ≡ ok held)
      × (get_total_supply_with_index w.contracts u.a_token_address u.liquidity_index ≡ ok claims)
      × (get_total_supply_with_index w.contracts u.debt_token_address u.variable_borrow_index
          ≡ ok lent)
      × (((out ≡ 0) × (w' ≡ w1) × (held + lent ≤ claims + w.pool.reserve_deficit asset))
          ⊎ ((treasury : Address) × (w.pool.treasury ≡ some treasury)
              × Pays env u.a_token_address treasury out w w'
              × (w'.pool ≡ w1.pool)
              × (w'.contracts other ≡ w1.contracts other)
              × (claims + w.pool.reserve_deficit asset + out ≡ held + lent)))

  -- Bringing a reserve up to date leaves the tokens, the deficits and the treasury.
  abbrev Accrued : World U → World U → Type 0
  Accrued w w1 =
      (w1.contracts ≡ w.contracts)
      × (w1.underlying ≡ w.underlying)
      × (w1.pool.reserve_deficit ≡ w.pool.reserve_deficit)
      × (w1.pool.treasury ≡ w.pool.treasury)

  accrue-Accrued :
      (now : ℕ) (asset : Address) (r u : ReserveData) (w w1 : World U)
      → accrue now asset r w ≡ ok (u, w1)
      → Accrued w w1
  unfolding accrue
  accrue-Accrued now asset r u w w1 h =
      >>=-ok_elim (update_state now asset r w.pool.reserves) _ h λ (v, m) e rest. (cc, cc, cc, cc)

  -- A contract that is put back where it stood.
  put_back :
      (m : Contracts) (address other : Address) (c : Contract)
      → m address ≡ some c
      → set_contract m address c other ≡ m other
  unfolding set_contract
  put_back m address other c h = elim (Bool-cases (other == address)) [
    | inl here ↦ let same : other ≡ address = ground arith in rw (here, same) (sym h)
    | inr there ↦ rw there refl
  ]

  pay_out-Pays :
      (w w' : World U) (address to other : Address) (amount : ℕ)
      → pay_out env w address to amount ≡ ok w'
      → Pays env address to amount w w'
        × (w'.pool ≡ w.pool)
        × (w'.contracts other ≡ w.contracts other)
  pay_out-Pays w w' address to other amount h =
      >>=-ok_elim (caught (pay_underlying env w address to amount) underlying_transfer_failed) _ h
        λ (paid, v) e rest.
          >>-ok_elim (fail_if (not paid) underlying_transfer_failed) _ rest λ went rest.
            let world : v ≡ w' = ok_injective _ v w' refl rest in
            let called = caught-eq-ok _ underlying_transfer_failed e in
            let (t, t', _, there, sent, same) =
              pay_underlying_parts env w v address to amount paid called in
            let token : t' ≡ t =
              transfer_underlying_to-state (a_token_env env w address t) env.self to amount paid t
                t' sent in
            let put : v.contracts other ≡ set_contract w.contracts address (a_token t') other =
              ap (λ x. x.contracts other) same in
            let put' : v.contracts other ≡ set_contract w.contracts address (a_token t) other =
              rw token at put in
            (
              subst (λ x. Pays env address to amount w x) world
                  (pay_underlying-Pays env w v address to amount paid called),
              ap (λ x. x.pool) (sym world ∙ same),
              ap (λ x. x.contracts other) (sym world)
                  ∙ put'
                  ∙ put_back w.contracts address other (a_token t) there,
            )

  -- The payment of what is collectible, from the state of the accrual.
  treasury_paid :
      (w w' w1 : World U) (u : ReserveData) (other : Address) (out n : ℕ)
      → Accrued w w1
      → send_to_treasury u n w1 ≡ ok (out, w')
      → (n ≡ out)
        × ((treasury : Address) × (w.pool.treasury ≡ some treasury)
            × Pays env u.a_token_address treasury out w w'
            × (w'.pool ≡ w1.pool)
            × (w'.contracts other ≡ w1.contracts other))
  treasury_paid w w' w1 u other out n (books, tokens, _, where_to) h =
      >>=-ok_elim (ok_or w1.pool.treasury treasury_not_set) _ h λ treasury known rest.
        >>=-ok_elim (pay_out env w1 u.a_token_address treasury n) _ rest λ v paid rest.
          let (same_out, world) = ok-injective_pair n out v w' _ refl rest in
          let ((t, s, there, found, moved), kept, stays) =
            pay_out-Pays w1 v u.a_token_address treasury other n paid in
          let set : w1.pool.treasury ≡ some treasury = ground (arith, known) in
          let there' : w.contracts u.a_token_address ≡ some (a_token t) = rw books at there in
          let after : v.underlying ≡ w'.underlying = ap (λ x. x.underlying) world in
          let moved' : env.transfer s.underlying_asset u.a_token_address treasury (pos out)
                w.underlying
              ≡ some w'.underlying =
            rw (tokens, same_out, after) at moved in
          (
            same_out,
            (
              treasury,
              rw where_to at set,
              (t, s, there', found, moved'),
              ap (λ x. x.pool) (sym world) ∙ kept,
              ap (λ x. x.contracts other) (sym world) ∙ stays,
            ),
          )

  collected :
      (asset other : Address) (out : ℕ) (w w' w1 : World U) (u : ReserveData) (n : ℕ)
      → require_pool_admin env.auth w.pool ≡ ok tt
      → Accrued w w1
      → collectible asset u w1 ≡ ok n
      → (if n == 0 then ok (0, w1) else send_to_treasury u n w1) ≡ ok (out, w')
      → Collects asset other out w w1 w' u
  unfolding get_atoken_underlying_balance
  collected asset other out w w' w1 u n signed same e rest =
      let (held, claims, lent, a, b, c, solvent, eq) = collectible_lem asset u w1 n e in
      let (books, tokens, deficits, _) = same in
      let deficit : w1.pool.reserve_deficit asset ≡ w.pool.reserve_deficit asset =
        ap (λ f. f asset) deficits in
      let a' : get_atoken_underlying_balance env w asset u.a_token_address ≡ ok held =
        rw tokens at a in
      (
        held,
        claims,
        lent,
        signed,
        a',
        rw books at b,
        rw books at c,
        elim (Bool-cases (n == 0)) [
          | inl nothing ↦
              let (zero_out, still) = ok-injective_pair 0 out w1 w' _ refl (rw nothing at rest) in
              inl (sym zero_out, sym still, ground arith)
          | inr something ↦
              let (same_out, (treasury, set, paid, kept, stays)) =
                treasury_paid w w' w1 u other out n same (rw something at rest) in
              inr (treasury, set, paid, kept, stays, ground arith)
        ],
      )

  -- A collection of `out` that succeeds was signed by the pool admin. If `out` is 0, it leaves the
  -- state of the accrual of the asset's reserve, `u` in `w1`; else it leaves the pool and any contract
  -- `other` of that state, and the underlying tokens after a payment of `out` from the reserve's
  -- deposit token to the treasury. What lay in the deposit token, with what is lent out, is then
  -- just the suppliers' claim, the recorded deficit and `out`; if nothing is paid, it is at most the
  -- claim and the deficit. Claim and loans are taken at the indices of `u`.
  pub collect_protocol_reserves_effect :
      (asset other : Address) (out : ℕ) (w w' w1 : World U) (r u : ReserveData)
      → collect_protocol_reserves asset w ≡ ok (out, w')
      → get_reserve_data w.pool.reserves asset ≡ ok r
      → accrue env.now asset r w ≡ ok (u, w1)
      → Collects asset other out w w1 w' u
  unfolding collect_protocol_reserves
  collect_protocol_reserves_effect asset other out w w' w1 r u h found accrued =
      >>-ok_elim (require_pool_admin env.auth w.pool) _ h λ signed rest.
        let given = rw (found, accrued) at rest in
        >>=-ok_elim (collectible asset u w1) _ given λ n e rest.
          collected asset other out w w' w1 u n signed
            (accrue-Accrued env.now asset r u w w1 accrued) e rest
