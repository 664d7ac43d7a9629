-- ===== src/Router/Operations/Positions.antt =====
-- What borrowing and repaying do to the borrower's flag and to the debt token's books.
use k.Base.{
  ℕ, ◌+◌, ◌<◌, ◌≡◌, sym, ◌∙◌, arith, ◌==◌, true, if◌then◌else◌, not, some, ok, fail_if, >>=-ok_elim,
  >>-ok_elim, inl, inr, Bool-cases,
}
use k.Shared.Errors.{debt_token_mint_failed, underlying_transfer_failed, KineticRouterError}
use k.Shared.Host.{Address}
use k.Shared.Debts.{debt_of, debt_of-put_debt}
use k.Shared.RayMath.{ray_div_up}
use k.Shared.Signed.{safe_reserve_id}
use k.Shared.UserConfig.{UserConfiguration, is_borrowing, set_borrowing}
use k.Shared.UserConfig.Flags.{set_borrowing-reads}
use k.DebtToken.State as DState
use k.DebtToken.Effects.{borrow_effect}
use k.Router.Accrual.{ReserveData}
use k.Router.State.{
  Pool, World, Env, a_token, debt_token, caught, caught-eq-ok, set_contract, set_user_configuration,
  get_user_configuration,
}
use k.Router.Calls.{mint_debt, pay_underlying, debt_token_env}
use k.Router.Calls.Effects.{mint_debt_parts, pay_underlying_parts}
use k.Router.Operations.{in_pool, check_positions}
use k.Router.Operations.Withdraw.{pay_out}
use k.Router.Operations.Borrow.{borrow, give_loan, enough_debt, mark_borrowing}
use k.Router.Operations.Parts.{Begun, borrow_parts}
use k.Router.Operations.Frame.{accrue-Framed, settle_rates-Framed, check_borrow-Framed}

pub reserve_id_lem :
    (id i : ℕ) → safe_reserve_id {E = KineticRouterError} id ≡ ok i → (i ≡ id) × (id < 64)
unfolding safe_reserve_id
reserve_id_lem id i h = (ground arith, ground arith)

mark_borrowing_effect :
    (user : Address) (r : ReserveData) (p p' : Pool)
    → mark_borrowing user r p ≡ ok p'
    → is_borrowing (p'.user_configuration user) r.id ≡ true
unfolding mark_borrowing set_user_configuration
mark_borrowing_effect user r p p' h =
    let c : UserConfiguration = get_user_configuration p user in
    >>=-ok_elim (safe_reserve_id r.id) _ h λ i e rest.
      >>-ok_elim (if is_borrowing c i then ok tt else check_positions c) _ rest λ room rest.
        let (same, small) = reserve_id_lem r.id i e in
        let config : p'.user_configuration user ≡ set_borrowing c i true = ground arith in
        rw (config, same) ((set_borrowing-reads c r.id r.id true small small).0 ∙ itself r.id)
  where
    itself :
        (n : ℕ) → (if n == n then true else is_borrowing (get_user_configuration p user) n) ≡ true
    itself n = ground arith

-- A payment replaces a deposit token, so a debt token stays as it is.
paid_elsewhere :
    {U : Type 0} (env : Env U) (w w' : World U) (address to debt : Address) (amount : ℕ)
    (t : DState.DebtToken)
    → pay_out env w address to amount ≡ ok w'
    → w.contracts debt ≡ some (debt_token t)
    → w'.contracts debt ≡ some (debt_token t)
unfolding set_contract
paid_elsewhere env w w' address to debt amount t h e =
    >>=-ok_elim (caught (pay_underlying env w address to amount) underlying_transfer_failed) _ h
      λ (paid, v) f rest.
        >>-ok_elim (fail_if (not paid) underlying_transfer_failed) _ rest λ really rest.
          let (s, s', u, there, called, same) =
            pay_underlying_parts env w v address to amount paid
              (caught-eq-ok _ underlying_transfer_failed f) in
          let end : w'.contracts ≡ v.contracts = cc in
          let put : v.contracts ≡ set_contract w.contracts address (a_token s') = cc in
          rw (end, put)
            (elim (Bool-cases (debt == address)) [
              | inl at_token ↦
                  let here : debt ≡ address = ground arith in
                  let both : some (debt_token t) ≡ some (a_token s) = sym e ∙ rw here there in
                  absurd (cc)
              | inr elsewhere ↦ rw elsewhere e
            ])

give_loan_effect :
    {U : Type 0} (env : Env U) (user : Address) (amount : ℕ) (r : ReserveData) (w w' : World U)
    → give_loan env user amount r w ≡ ok w'
    → (t : DState.DebtToken) × (t' : DState.DebtToken) × (n : ℕ) × (w.contracts r.debt_token_address
        ≡ some (debt_token t))
      × (w'.contracts r.debt_token_address ≡ some (debt_token t'))
      × (ray_div_up amount r.variable_borrow_index ≡ ok n)
      × (debt_of user t'.debts ≡ debt_of user t.debts + n)
unfolding give_loan set_contract
give_loan_effect env user amount r w w' h =
    >>=-ok_elim
      (caught (mint_debt env w r.debt_token_address user amount r.variable_borrow_index)
        debt_token_mint_failed)
      _ h
      λ (minted, v) e rest. >>-ok_elim (enough_debt user r v) _ rest λ enough rest.
        let (t, t', there, called, same) =
          mint_debt_parts env w v r.debt_token_address user amount r.variable_borrow_index minted
            (caught-eq-ok _ debt_token_mint_failed e) in
        let (s, n, _, _, _, scaled, changed) =
          borrow_effect (debt_token_env env) env.self user amount r.variable_borrow_index t t'
            minted called in
        let put : v.contracts r.debt_token_address ≡ some (debt_token t') =
          rw same (ground arith) in
        (
          t,
          t',
          n,
          there,
          paid_elsewhere env v w' r.a_token_address user r.debt_token_address amount t' rest put,
          scaled,
          rw changed (debt_of-put_debt user user (debt_of user t.debts + n) t.debts ∙ ground arith),
        )

-- A loan of `amount` in the books: the scaled debt and the flag.
abbrev pub RecordsDebt :
    {U : Type 0} → Env U → Address → Address → Address → ℕ → World U → World U → Type 0
RecordsDebt env caller asset user amount w w' =
    (r : ReserveData) × (u : ReserveData) × (w1 : World _) × (t : DState.DebtToken)
    × (t' : DState.DebtToken) × (n : ℕ) × Begun env caller asset w w' r u w1
    × (w.contracts u.debt_token_address ≡ some (debt_token t))
    × (w'.contracts u.debt_token_address ≡ some (debt_token t'))
    × (ray_div_up amount u.variable_borrow_index ≡ ok n)
    × (debt_of user t'.debts ≡ debt_of user t.debts + n)
    × (is_borrowing (w'.pool.user_configuration user) u.id ≡ true)

-- A borrow that succeeds adds to the borrower's scaled debt in the debt token of the reserve,
-- brought up to date, the amount at the reserve's borrow index rounded up, and leaves the
-- borrower's flag for the reserve set.
pub borrow-RecordsDebt :
    {U : Type 0} (env : Env U) (caller asset user : Address) (amount mode : ℕ) (w w' : World U)
    → borrow env caller asset amount mode user w ≡ ok (tt, w')
    → RecordsDebt env caller asset user amount w w'
borrow-RecordsDebt env caller asset user amount mode w w' h =
    let (r, u, w1, w2, w3, p, begun, _, checked, given, marked, rated) =
      borrow_parts env caller asset w w' amount mode user h in
    let (t, t', n, before, after, scaled, grown) = give_loan_effect env user amount u w2 w3 given in
    let f1 = accrue-Framed env.now asset r u w w1 begun.accrued in
    let f2 = check_borrow-Framed env user asset amount u w1 w2 checked in
    let f3 = settle_rates-Framed asset u (in_pool w3 p) w' rated in
    (
      r,
      u,
      w1,
      t,
      t',
      n,
      begun,
      rw (sym f1.contracts, sym f2.contracts) before,
      rw f3.contracts after,
      scaled,
      grown,
      rw f3.flags (mark_borrowing_effect user u w3.pool p marked),
    )
