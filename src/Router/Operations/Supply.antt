-- ===== src/Router/Operations/Supply.antt =====
-- `supply` (src/operations.rs).
use k.Base.{ℕ, ltb, if◌then◌else◌, Bool, true, ◌&&◌, ok, ok_or, fail_if, ◌>>=◌, ◌>>◌}
use k.Shared.Errors.{underlying_transfer_failed, a_token_mint_failed, invalid_amount}
use k.Shared.Host.{Address, require_auth}
use k.Shared.Signed.{safe_u128_to_i128, safe_reserve_id}
use k.Shared.UserConfig.{is_using_as_collateral, set_using_as_collateral}
use k.Router.Accrual.{ReserveData, Outcome, get_reserve_data}
use k.Router.State.{Pool, World, Env, caught, get_user_configuration, set_user_configuration}
use k.Router.Price.{verify_oracle_price_exists_and_nonzero}
use k.Router.Calls.{mint_deposit}
use k.Router.Validation.{validate_supply, validate_supply_cap_after_interest}
use k.Router.Operations.{
  check_access, unless_caller, check_recipient, check_positions, accrue, settle_rates, guarded,
  in_pool,
}

-- `MIN_FIRST_DEPOSIT` of contracts/shared/src/constants.rs
abbrev pub min_first_deposit : ℕ
min_first_deposit = 1000

module _ {U : Type 0} (env : Env U) where
  -- A first deposit becomes collateral, if the user may hold another position and the asset has a
  -- price.
  unfoldable pub enable_collateral : Pool → Address → Address → ReserveData → Outcome Pool
  enable_collateral p asset user r = do
    let c = get_user_configuration p user
    reserve_id ← safe_reserve_id r.id
    if is_using_as_collateral c reserve_id then ok tt else check_positions c
    price ← verify_oracle_price_exists_and_nonzero env p asset
    ok (set_user_configuration p user (set_using_as_collateral c reserve_id true))

  -- The amount goes to the deposit token, which mints: (whether it is the first deposit, the world)
  unfoldable pub take_deposit :
      Address → Address → ℕ → Address → ReserveData → World U → Outcome (Bool × World U)
  take_deposit caller asset amount on_behalf_of r w = do
    amount_i128 ← safe_u128_to_i128 amount
    underlying ←
        ok_or (env.transfer_from asset env.self caller r.a_token_address amount_i128 w.underlying)
          underlying_transfer_failed
    (minted, w') ←
        caught
          (mint_deposit env (record w { underlying = underlying }) r.a_token_address on_behalf_of
            amount r.liquidity_index)
          a_token_mint_failed
    ok (minted.0, w')

  unfoldable pub supply : Address → Address → ℕ → Address → World U → Outcome (Unit {0} × World U)
  supply caller asset amount on_behalf_of w = do
    require_auth env.auth caller
    unless_caller caller on_behalf_of (require_auth env.auth on_behalf_of)
    check_access w.pool asset caller
    unless_caller caller on_behalf_of (check_access w.pool asset on_behalf_of)
    r ← get_reserve_data w.pool.reserves asset
    validate_supply w.pool amount r
    (updated, w1) ← accrue env.now asset r w
    check_recipient updated on_behalf_of
    validate_supply_cap_after_interest w1.contracts amount updated updated.liquidity_index
    (is_first_supply, w2) ← take_deposit caller asset amount on_behalf_of updated w1
    fail_if (is_first_supply && ltb amount min_first_deposit) invalid_amount
    p ← if is_first_supply then enable_collateral w2.pool asset on_behalf_of updated else ok w2.pool
    w3 ← settle_rates asset updated (in_pool w2 p)
    ok (tt, w3)

  -- The entry point of src/router.rs.
  unfoldable pub router_supply :
      Address → Address → ℕ → Address → World U → Outcome (Unit {0} × World U)
  unfolding guarded
  router_supply caller asset amount on_behalf_of = guarded (supply caller asset amount on_behalf_of)
