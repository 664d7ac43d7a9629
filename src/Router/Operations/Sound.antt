-- ===== src/Router/Operations/Sound.antt =====
-- Each of a user's four operations keeps the books of all tokens balanced.
use k.Base.{ℕ, ◌≡◌, Bool, not, ok, ok_or, fail_if, >>=-ok_elim, >>-ok_elim}
use k.Base.Int.{ℤ}
use k.Shared.Errors.{
  a_token_mint_failed, a_token_burn_failed, underlying_transfer_failed, debt_token_mint_failed,
}
use k.Shared.Host.{Address}
use k.Shared.Signed.{safe_u128_to_i128}
use k.AToken.History as AHistory
use k.DebtToken.History as DHistory
use k.Router.Accrual.{ReserveData}
use k.Router.State.{World, Env, a_token, set_contract, caught, caught-eq-ok}
use k.Router.Calls.{mint_deposit, burn_deposit, pay_underlying, mint_debt, burn_debt}
use k.Router.Calls.Effects.{
  Sound, put_a_token-Sound, put_debt_token-Sound, mint_deposit_parts, burn_deposit_parts,
  mint_debt_parts, burn_debt_parts, pay_underlying_parts,
}
use k.Router.Operations.{in_pool}
use k.Router.Operations.Supply.{supply, take_deposit}
use k.Router.Operations.Withdraw.{withdraw, pay_out, return_deposit}
use k.Router.Operations.Borrow.{borrow, give_loan, enough_debt}
use k.Router.Operations.Repay.{repay, take_repayment, or_burn_failed, or_burn_failed-eq-ok}
use k.Router.Operations.Parts.{Begun, supply_parts, withdraw_parts, borrow_parts, repay_parts}
use k.Router.Operations.Frame.{
  Framed, accrue-Framed, settle_rates-Framed, check_borrow-Framed, check_health-Framed,
}

abbrev pub IsSound : {U : Type 0} → World U → Type 0
IsSound w = Sound w.contracts

module _ {U : Type 0} (env : Env U) (w w' : World U) where
  Framed-IsSound : Framed w w' → IsSound w → IsSound w'
  Framed-IsSound f s = rw f.contracts s

  mint_deposit-IsSound :
      (address user : Address) (amount index : ℕ) (out : Bool × ℤ × ℤ)
      → mint_deposit env w address user amount index ≡ ok (out, w')
      → IsSound w
      → IsSound w'
  mint_deposit-IsSound address user amount index out h s =
      let (t, t', there, called, same) =
        mint_deposit_parts env w w' address user amount index out h in
      let i =
        AHistory.mint_scaled-Inv _ env.self user amount index t t' out called
          (s.deposits address t there) in
      rw same (put_a_token-Sound w.contracts address t' i s)

  burn_deposit-IsSound :
      (address user : Address) (amount index : ℕ) (out : Bool × ℤ)
      → burn_deposit env w address user amount index ≡ ok (out, w')
      → IsSound w
      → IsSound w'
  burn_deposit-IsSound address user amount index out h s =
      let (t, t', there, called, same) =
        burn_deposit_parts env w w' address user amount index out h in
      let i =
        AHistory.burn_scaled-Inv _ env.self user amount index t t' out called
          (s.deposits address t there) in
      rw same (put_a_token-Sound w.contracts address t' i s)

  mint_debt-IsSound :
      (address user : Address) (amount index : ℕ) (out : Bool × ℤ × ℤ)
      → mint_debt env w address user amount index ≡ ok (out, w')
      → IsSound w
      → IsSound w'
  mint_debt-IsSound address user amount index out h s =
      let (t, t', there, called, same) = mint_debt_parts env w w' address user amount index out h in
      let i =
        DHistory.mint_scaled-Inv _ env.self user amount index t t' out called
          (s.debts address t there) in
      rw same (put_debt_token-Sound w.contracts address t' i s)

  burn_debt-IsSound :
      (address user : Address) (amount index : ℕ) (out : Bool × ℤ × ℤ)
      → burn_debt env w address user amount index ≡ ok (out, w')
      → IsSound w
      → IsSound w'
  burn_debt-IsSound address user amount index out h s =
      let (t, t', there, called, same) = burn_debt_parts env w w' address user amount index out h in
      let i =
        DHistory.burn_scaled-Inv _ env.self user amount index t t' out called
          (s.debts address t there) in
      rw same (put_debt_token-Sound w.contracts address t' i s)

  pay_out-IsSound :
      (address to : Address) (amount : ℕ)
      → pay_out env w address to amount ≡ ok w'
      → IsSound w
      → IsSound w'
  pay_out-IsSound address to amount h s =
      >>=-ok_elim (caught (pay_underlying env w address to amount) underlying_transfer_failed) _ h
        λ (paid, v) e rest.
          >>-ok_elim (fail_if (not paid) underlying_transfer_failed) _ rest λ really rest.
            let (t, t', u, there, called, same) =
              pay_underlying_parts env w v address to amount paid
                (caught-eq-ok _ underlying_transfer_failed e) in
            let i =
              AHistory.transfer_underlying_to-Inv _ env.self to amount t t' paid called
                (s.deposits address t there) in
            let end : w'.contracts ≡ v.contracts = cc in
            let put : v.contracts ≡ set_contract w.contracts address (a_token t') = cc in
            rw (end, put) (put_a_token-Sound w.contracts address t' i s)

module _ {U : Type 0} (env : Env U) (w : World U) where
  take_deposit-IsSound :
      (caller asset user : Address) (amount : ℕ) (r : ReserveData) (first : Bool) (w' : World U)
      → take_deposit env caller asset amount user r w ≡ ok (first, w')
      → IsSound w
      → IsSound w'
  unfolding take_deposit
  take_deposit-IsSound caller asset user amount r first w' h s =
      >>=-ok_elim (safe_u128_to_i128 amount) _ h λ n e rest.
        >>=-ok_elim
          (ok_or (env.transfer_from asset env.self caller r.a_token_address n w.underlying)
            underlying_transfer_failed)
          _ rest
          λ paid f rest.
            let v : World U = record w { underlying = paid } in
            >>=-ok_elim
              (caught (mint_deposit env v r.a_token_address user amount r.liquidity_index)
                a_token_mint_failed)
              _ rest
              λ (minted, v') g rest.
                let sound =
                  mint_deposit-IsSound env v v' r.a_token_address user amount r.liquidity_index
                    minted (caught-eq-ok _ a_token_mint_failed g) s in
                let end : w' ≡ v' = cc in rw end sound

  return_deposit-IsSound :
      (caller to : Address) (amount : ℕ) (r : ReserveData) (w' : World U)
      → return_deposit env caller amount to r w ≡ ok w'
      → IsSound w
      → IsSound w'
  unfolding return_deposit
  return_deposit-IsSound caller to amount r w' h s =
      >>=-ok_elim
        (caught (burn_deposit env w r.a_token_address caller amount r.liquidity_index)
          a_token_burn_failed)
        _ h
        λ (burned, v) e rest. pay_out-IsSound env v w' r.a_token_address to amount rest (
          burn_deposit-IsSound env w v r.a_token_address caller amount r.liquidity_index burned
            (caught-eq-ok _ a_token_burn_failed e) s)

  give_loan-IsSound :
      (user : Address) (amount : ℕ) (r : ReserveData) (w' : World U)
      → give_loan env user amount r w ≡ ok w'
      → IsSound w
      → IsSound w'
  unfolding give_loan
  give_loan-IsSound user amount r w' h s =
      >>=-ok_elim
        (caught (mint_debt env w r.debt_token_address user amount r.variable_borrow_index)
          debt_token_mint_failed)
        _ h
        λ (minted, v) e rest. >>-ok_elim (enough_debt user r v) _ rest λ enough rest.
          pay_out-IsSound env v w' r.a_token_address user amount rest (
            mint_debt-IsSound env w v r.debt_token_address user amount r.variable_borrow_index
              minted (caught-eq-ok _ debt_token_mint_failed e) s)

  take_repayment-IsSound :
      (caller asset user : Address) (amount : ℕ) (r : ReserveData) (w' : World U)
      → take_repayment env caller asset amount user r w ≡ ok w'
      → IsSound w
      → IsSound w'
  unfolding take_repayment
  take_repayment-IsSound caller asset user amount r w' h s =
      >>=-ok_elim (safe_u128_to_i128 amount) _ h λ n e rest.
        >>=-ok_elim
          (ok_or (env.transfer_from asset env.self caller r.a_token_address n w.underlying)
            underlying_transfer_failed)
          _ rest
          λ paid f rest.
            let v : World U = record w { underlying = paid } in
            >>=-ok_elim
              (or_burn_failed
                (burn_debt env v r.debt_token_address user amount r.variable_borrow_index))
              _ rest
              λ (burned, v') g rest.
                let sound =
                  burn_debt-IsSound env v v' r.debt_token_address user amount
                    r.variable_borrow_index burned (or_burn_failed-eq-ok _ g) s in
                let end : w' ≡ v' = cc in rw end sound

module _ {U : Type 0} (env : Env U) (caller asset : Address) (w w' : World U) where
  Begun-IsSound :
      (r u : ReserveData) (v : World U) → Begun env caller asset w w' r u v → IsSound w → IsSound v
  Begun-IsSound r u v b s = Framed-IsSound env w v (accrue-Framed env.now asset r u w v b.accrued) s

  pub supply-IsSound :
      (amount : ℕ) (user : Address)
      → supply env caller asset amount user w ≡ ok (tt, w')
      → IsSound w
      → IsSound w'
  supply-IsSound amount user h s =
      let (r, u, w1, w2, first, p, begun, _, taken, _, _, rated) =
        supply_parts env caller asset w w' amount user h in
      Framed-IsSound env (in_pool w2 p) w' (settle_rates-Framed asset u (in_pool w2 p) w' rated) (
        take_deposit-IsSound env w1 caller asset user amount u first w2 taken
          (Begun-IsSound r u w1 begun s))

  pub withdraw-IsSound :
      (amount out : ℕ) (to : Address)
      → withdraw env caller asset amount to w ≡ ok (out, w')
      → IsSound w
      → IsSound w'
  withdraw-IsSound amount out to h s =
      let (r, u, w1, w2, w3, _, _, p, begun, _, _, checked, returned, _, _, rated) =
        withdraw_parts env caller asset w w' amount out to h in
      let s2 =
        Framed-IsSound env w1 w2 (check_health-Framed env caller asset out u w1 w2 checked)
          (Begun-IsSound r u w1 begun s) in
      Framed-IsSound env (in_pool w3 p) w' (settle_rates-Framed asset u (in_pool w3 p) w' rated)
        (return_deposit-IsSound env w2 caller to out u w3 returned s2)

  pub borrow-IsSound :
      (amount mode : ℕ) (user : Address)
      → borrow env caller asset amount mode user w ≡ ok (tt, w')
      → IsSound w
      → IsSound w'
  borrow-IsSound amount mode user h s =
      let (r, u, w1, w2, w3, p, begun, _, checked, given, _, rated) =
        borrow_parts env caller asset w w' amount mode user h in
      let s2 =
        Framed-IsSound env w1 w2 (check_borrow-Framed env user asset amount u w1 w2 checked)
          (Begun-IsSound r u w1 begun s) in
      Framed-IsSound env (in_pool w3 p) w' (settle_rates-Framed asset u (in_pool w3 p) w' rated)
        (give_loan-IsSound env w2 user amount u w3 given s2)

  pub repay-IsSound :
      (amount mode out : ℕ) (user : Address)
      → repay env caller asset amount mode user w ≡ ok (out, w')
      → IsSound w
      → IsSound w'
  repay-IsSound amount mode out user h s =
      let (r, u, w1, w2, _, _, p, begun, _, _, _, taken, _, _, rated) =
        repay_parts env caller asset w w' amount mode out user h in
      Framed-IsSound env (in_pool w2 p) w' (settle_rates-Framed asset u (in_pool w2 p) w' rated) (
        take_repayment-IsSound env w1 caller asset user out u w2 taken
          (Begun-IsSound r u w1 begun s))
