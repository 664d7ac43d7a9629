-- ===== src/Router/Operations/Parts.antt =====
-- The steps of a successful operation, for proofs about its parts.
use k.Base.{
  ℕ, ◌≡◌, Bool, true, false, refl, ok, arith, ok_or, fail_if, >>=-ok_elim, >>-ok_elim,
  ok-injective_pair, ◌&&◌, ltb, if◌then◌else◌,
}
use k.Shared.Host.{Address, require_auth}
use k.Shared.Errors.{KineticRouterError, invalid_amount, math_overflow}
use k.Shared.Wide.{checked_sub}
use k.Router.Accrual.{ReserveData, get_reserve_data}
use k.Router.State.{Pool, World, Env}
use k.Router.Access.{validate_reserve_whitelist_access}
use k.Router.Validation.{
  validate_supply, validate_withdraw, validate_borrow, validate_repay,
  validate_supply_cap_after_interest, validate_borrow_cap_after_interest,
}
use k.Router.Operations.{
  accrue, settle_rates, in_pool, check_access, check_recipient, unless_caller,
}
use k.Router.Operations.Supply.{supply, take_deposit, enable_collateral, min_first_deposit}
use k.Router.Operations.Withdraw.{
  withdraw, amount_to_withdraw, check_health, return_deposit, disable_if_empty,
}
use k.Router.Operations.Borrow.{borrow, check_borrow, give_loan, mark_borrowing}
use k.Router.Operations.Repay.{
  repay, debt_to_repay, amount_to_repay, take_repayment, clear_if_repaid,
}

module _ {U : Type 0} (env : Env U) (caller asset : Address) (w w' : World U) where
  -- The steps before the tokens are called, which all operations have.
  pub record Begun (r u : ReserveData) (w1 : World U) : Type 0 where
    pub signed : env.auth caller ≡ true
    pub access : check_access w.pool asset caller ≡ ok tt
    pub found : get_reserve_data w.pool.reserves asset ≡ ok r
    pub accrued : accrue env.now asset r w ≡ ok (u, w1)

  signed_by : require_auth {E = KineticRouterError} env.auth caller ≡ ok tt → env.auth caller ≡ true
  signed_by h = ground arith

  passed :
      (test : Bool) → fail_if {E = KineticRouterError} test invalid_amount ≡ ok tt → test ≡ false
  passed true h = absurd (cc)
  passed false h = refl

  pub borrow_parts :
      (amount mode : ℕ) (user : Address)
      → borrow env caller asset amount mode user w ≡ ok (tt, w')
      → (r : ReserveData) × (u : ReserveData) × (w1 : World U) × (w2 : World U) × (w3 : World U)
        × (p : Pool) × Begun r u w1
        × (validate_borrow w.pool amount mode r ≡ ok tt)
        × (check_borrow env user asset amount u w1 ≡ ok w2)
        × (give_loan env user amount u w2 ≡ ok w3)
        × (mark_borrowing user u w3.pool ≡ ok p)
        × (settle_rates asset u (in_pool w3 p) ≡ ok w')
  unfolding borrow
  borrow_parts amount mode user h = >>-ok_elim (require_auth env.auth caller) _ h λ signed h.
      >>-ok_elim (unless_caller caller user (require_auth env.auth user)) _ h λ other h.
        >>-ok_elim (check_access w.pool asset caller) _ h λ access h.
          >>-ok_elim (unless_caller caller user (check_access w.pool asset user)) _ h λ others h.
            >>=-ok_elim (get_reserve_data w.pool.reserves asset) _ h λ r found h.
              >>-ok_elim (validate_borrow w.pool amount mode r) _ h λ valid h.
                >>=-ok_elim (accrue env.now asset r w) _ h λ (u, w1) accrued h.
                  >>-ok_elim (check_recipient u user) _ h λ recipient h.
                    >>-ok_elim
                      (validate_borrow_cap_after_interest w1.contracts w1.pool amount u asset
                        u.variable_borrow_index)
                      _ h
                      λ cap h.
                        >>=-ok_elim (check_borrow env user asset amount u w1) _ h λ w2 checked h.
                          >>=-ok_elim (give_loan env user amount u w2) _ h λ w3 given h.
                            >>=-ok_elim (mark_borrowing user u w3.pool) _ h λ p marked h.
                              >>=-ok_elim (settle_rates asset u (in_pool w3 p)) _ h λ w4 rated h.
                                let begun : Begun r u w1 = record {
                                  signed = signed_by signed;
                                  access = access;
                                  found = found;
                                  accrued = accrued;
                                } in
                                let (_, same) = ok-injective_pair tt tt w4 w' _ refl h in
                                (
                                  r,
                                  u,
                                  w1,
                                  w2,
                                  w3,
                                  p,
                                  begun,
                                  valid,
                                  checked,
                                  given,
                                  marked,
                                  rw same at rated,
                                )

  pub supply_parts :
      (amount : ℕ) (user : Address)
      → supply env caller asset amount user w ≡ ok (tt, w')
      → (r : ReserveData) × (u : ReserveData) × (w1 : World U) × (w2 : World U) × (first : Bool)
        × (p : Pool) × Begun r u w1
        × (validate_supply w.pool amount r ≡ ok tt)
        × (take_deposit env caller asset amount user u w1 ≡ ok (first, w2))
        × (first && ltb amount min_first_deposit ≡ false)
        × ((if first then enable_collateral env w2.pool asset user u else ok w2.pool) ≡ ok p)
        × (settle_rates asset u (in_pool w2 p) ≡ ok w')
  unfolding supply
  supply_parts amount user h = >>-ok_elim (require_auth env.auth caller) _ h λ signed h.
      >>-ok_elim (unless_caller caller user (require_auth env.auth user)) _ h λ other h.
        >>-ok_elim (check_access w.pool asset caller) _ h λ access h.
          >>-ok_elim (unless_caller caller user (check_access w.pool asset user)) _ h λ others h.
            >>=-ok_elim (get_reserve_data w.pool.reserves asset) _ h λ r found h.
              >>-ok_elim (validate_supply w.pool amount r) _ h λ valid h.
                >>=-ok_elim (accrue env.now asset r w) _ h λ (u, w1) accrued h.
                  >>-ok_elim (check_recipient u user) _ h λ recipient h.
                    >>-ok_elim
                      (validate_supply_cap_after_interest w1.contracts amount u u.liquidity_index) _
                      h
                      λ cap h.
                        >>=-ok_elim (take_deposit env caller asset amount user u w1) _ h
                          λ (first, w2) taken h.
                            >>-ok_elim
                              (fail_if (first && ltb amount min_first_deposit) invalid_amount) _ h
                              λ enough h.
                                >>=-ok_elim
                                  (if first
                                    then enable_collateral env w2.pool asset user u
                                    else ok w2.pool)
                                  _ h
                                  λ p marked h.
                                    >>=-ok_elim (settle_rates asset u (in_pool w2 p)) _ h
                                      λ w3 rated h.
                                        let begun : Begun r u w1 = record {
                                          signed = signed_by signed;
                                          access = access;
                                          found = found;
                                          accrued = accrued;
                                        } in
                                        let (_, same) = ok-injective_pair tt tt w3 w' _ refl h in
                                        (
                                          r,
                                          u,
                                          w1,
                                          w2,
                                          first,
                                          p,
                                          begun,
                                          valid,
                                          taken,
                                          passed _ enough,
                                          marked,
                                          rw same at rated,
                                        )

  pub withdraw_parts :
      (amount out : ℕ) (to : Address)
      → withdraw env caller asset amount to w ≡ ok (out, w')
      → (r : ReserveData) × (u : ReserveData) × (w1 : World U) × (w2 : World U) × (w3 : World U)
        × (held : ℕ) × (remaining : ℕ) × (p : Pool) × Begun r u w1
        × (validate_withdraw w.pool amount r ≡ ok tt)
        × (amount_to_withdraw env caller asset amount u w1 ≡ ok (held, out))
        × (check_health env caller asset out u w1 ≡ ok w2)
        × (return_deposit env caller out to u w2 ≡ ok w3)
        × (ok_or (checked_sub held out) math_overflow ≡ ok remaining)
        × (disable_if_empty remaining caller u w3.pool ≡ ok p)
        × (settle_rates asset u (in_pool w3 p) ≡ ok w')
  unfolding withdraw
  withdraw_parts amount out to h = >>-ok_elim (require_auth env.auth caller) _ h λ signed h.
      >>-ok_elim (check_access w.pool asset caller) _ h λ access h.
        >>-ok_elim (unless_caller caller to (check_access w.pool asset to)) _ h λ others h.
          >>=-ok_elim (get_reserve_data w.pool.reserves asset) _ h λ r found h.
            >>-ok_elim (validate_withdraw w.pool amount r) _ h λ valid h.
              >>=-ok_elim (accrue env.now asset r w) _ h λ (u, w1) accrued h.
                >>-ok_elim (check_recipient u to) _ h λ recipient h.
                  >>=-ok_elim (amount_to_withdraw env caller asset amount u w1) _ h
                    λ (held, going) amounts h.
                      >>=-ok_elim (check_health env caller asset going u w1) _ h λ w2 checked h.
                        >>=-ok_elim (return_deposit env caller going to u w2) _ h λ w3 returned h.
                          >>=-ok_elim (ok_or (checked_sub held going) math_overflow) _ h
                            λ remaining left h.
                              >>=-ok_elim (disable_if_empty remaining caller u w3.pool) _ h
                                λ p marked h.
                                  >>=-ok_elim (settle_rates asset u (in_pool w3 p)) _ h
                                    λ w4 rated h.
                                      let begun : Begun r u w1 = record {
                                        signed = signed_by signed;
                                        access = access;
                                        found = found;
                                        accrued = accrued;
                                      } in
                                      let (gone, same) =
                                        ok-injective_pair going out w4 w' _ refl h in
                                      (
                                        r,
                                        u,
                                        w1,
                                        w2,
                                        w3,
                                        held,
                                        remaining,
                                        p,
                                        begun,
                                        valid,
                                        rw gone at amounts,
                                        rw gone at checked,
                                        rw gone at returned,
                                        rw gone at left,
                                        marked,
                                        rw same at rated,
                                      )

  pub repay_parts :
      (amount mode out : ℕ) (user : Address)
      → repay env caller asset amount mode user w ≡ ok (out, w')
      → (r : ReserveData) × (u : ReserveData) × (w1 : World U) × (w2 : World U) × (debt : ℕ)
        × (remaining : ℕ) × (p : Pool) × Begun r u w1
        × (validate_repay w.pool amount mode r ≡ ok tt)
        × (debt_to_repay env user u w1 ≡ ok debt)
        × (amount_to_repay amount debt u ≡ ok out)
        × (take_repayment env caller asset out user u w1 ≡ ok w2)
        × (ok_or (checked_sub debt out) math_overflow ≡ ok remaining)
        × (clear_if_repaid remaining user u w2.pool ≡ ok p)
        × (settle_rates asset u (in_pool w2 p) ≡ ok w')
  unfolding repay
  repay_parts amount mode out user h = >>-ok_elim (require_auth env.auth caller) _ h λ signed h.
      >>-ok_elim (check_access w.pool asset caller) _ h λ access h.
        >>-ok_elim (unless_caller caller user (validate_reserve_whitelist_access w.pool asset user))
          _ h
          λ other h. >>=-ok_elim (get_reserve_data w.pool.reserves asset) _ h λ r found h.
            >>-ok_elim (validate_repay w.pool amount mode r) _ h λ valid h.
              >>=-ok_elim (accrue env.now asset r w) _ h λ (u, w1) accrued h.
                >>=-ok_elim (debt_to_repay env user u w1) _ h λ debt owed h.
                  >>=-ok_elim (amount_to_repay amount debt u) _ h λ repaid amounts h.
                    >>=-ok_elim (take_repayment env caller asset repaid user u w1) _ h λ w2 taken h.
                      >>=-ok_elim (ok_or (checked_sub debt repaid) math_overflow) _ h
                        λ remaining left h.
                          >>=-ok_elim (clear_if_repaid remaining user u w2.pool) _ h λ p marked h.
                            >>=-ok_elim (settle_rates asset u (in_pool w2 p)) _ h λ w3 rated h.
                              let begun : Begun r u w1 = record {
                                signed = signed_by signed;
                                access = access;
                                found = found;
                                accrued = accrued;
                              } in
                              let (gone, same) = ok-injective_pair repaid out w3 w' _ refl h in
                              (
                                r,
                                u,
                                w1,
                                w2,
                                debt,
                                remaining,
                                p,
                                begun,
                                valid,
                                owed,
                                rw gone at amounts,
                                rw gone at taken,
                                rw gone at left,
                                marked,
                                rw same at rated,
                              )
