-- ===== src/Router/Reserves.antt =====
-- The reserves and their configuration (src/reserve.rs, and the reserve list of src/storage.rs).
pub mod Ids
pub mod History
use Prim.Native.Nat.{bit_and, bit_or}
use k.Base.{
  ℕ, zero, suc, ◌+◌, ◌*◌, ◌^◌, ◌==◌, ltb, leb, if◌then◌else◌, Bool, true, false, not, Option, none,
  some, List, [], ◌∷◌, ◌++◌, Result, ok, err, panic, host, fail_if, ◌>>=◌, ◌>>◌,
}
use k.Base.Int.{ℤ}
use k.Shared.Constants.{u128_max, ray, max_reserves}
use k.Shared.Errors.{
  KineticRouterError, TokenError, unauthorized, reserve_already_initialized, invalid_amount,
  math_overflow, token_initialization_failed, token_call_failed,
}
use k.Shared.Host.{Address, Auth, require_auth}
use k.Shared.ReserveConfig.{
  ReserveConfiguration, get_ltv, get_liquidation_threshold, get_liquidation_bonus, get_decimals,
  get_reserve_factor, get_borrow_cap, get_supply_cap, set_supply_cap, set_borrow_cap,
  set_min_remaining_debt, shl,
}
use k.Shared.Signed.{is_zero}
use k.AToken.State as AState
use k.DebtToken.State as DState
use k.Router.Accrual.{ReserveData, Reserves, Outcome, get_reserve_data, set_reserve_data}
use k.Router.State.{
  Pool, World, Env, Contract, a_token, debt_token, rate_strategy, Contracts, caught, panic_if,
  set_contract, a_token_at,
}
use k.Router.Access.{require_pool_admin}
use k.Router.Calls.{a_token_env, debt_token_env}
use k.Router.Liquidation.{pow_ten}
use k.Router.Price.{take}
use k.Router.Rates.{scaled_total_at}
use k.Router.Operations.{in_pool}

pub record InitReserveParams : Type 0 where
  pub decimals : ℕ
  pub ltv : ℕ
  pub liquidation_threshold : ℕ
  pub liquidation_bonus : ℕ
  pub reserve_factor : ℕ
  pub supply_cap : ℕ
  pub borrow_cap : ℕ
  pub borrowing_enabled : Bool
  pub flashloan_enabled : Bool

-- `ReserveManagementError` as the panics carry it.
abbrev pub max_reserves_reached : ℕ
max_reserves_reached = 1

abbrev pub cannot_drop_active_reserve : ℕ
cannot_drop_active_reserve = 2

unfoldable pub validate_pool_configurator : Pool → Address → Outcome (Unit {0})
validate_pool_configurator p caller = elim p.pool_configurator [
  | some pool_configurator ↦ fail_if (not (caller == pool_configurator)) unauthorized
  | none ↦ err unauthorized
]

-- The checks that `init_reserve` and `validate_reserve_configuration` share, in their order.
unfoldable pub check_settings : ℕ → ℕ → ℕ → ℕ → Outcome (Unit {0})
check_settings ltv liquidation_threshold liquidation_bonus reserve_factor = do
  fail_if (ltb 10_000 ltv) invalid_amount
  fail_if (ltb 10_000 liquidation_threshold) invalid_amount
  fail_if (leb liquidation_threshold ltv) invalid_amount
  fail_if (ltb liquidation_threshold (ltv + 50)) invalid_amount
  fail_if (ltb 10_000 reserve_factor) invalid_amount
  fail_if (ltb 10_000 liquidation_bonus) invalid_amount

-- `u64::MAX`
abbrev pub u64_max : ℕ
u64_max = 0xffff_ffff_ffff_ffff

unfoldable pub check_sizes : ℕ → ℕ → ℕ → Outcome (Unit {0})
check_sizes decimals supply_cap borrow_cap = do
  fail_if (ltb 38 decimals) invalid_amount
  decimals_pow ← pow_ten decimals
  fail_if (ltb u64_max supply_cap) invalid_amount
  fail_if (ltb u64_max borrow_cap) invalid_amount

unfoldable pub validate_params : InitReserveParams → Outcome (Unit {0})
unfolding check_settings check_sizes
validate_params s = do
  check_settings s.ltv s.liquidation_threshold s.liquidation_bonus s.reserve_factor
  check_sizes s.decimals s.supply_cap s.borrow_cap

unfoldable pub validate_reserve_configuration : ReserveConfiguration → Outcome (Unit {0})
unfolding check_settings check_sizes
validate_reserve_configuration c = do
  check_settings (get_ltv c) (get_liquidation_threshold c) (get_liquidation_bonus c)
      (get_reserve_factor c)
  check_sizes (get_decimals c) (get_supply_cap c) (get_borrow_cap c)

-- The bits of a fresh configuration, in the order in which they are set.
unfoldable pub init_configuration : InitReserveParams → ReserveConfiguration
init_configuration s =
    let a : ℕ = bit_and s.ltv 0x3fff in
    let b : ℕ = bit_or a (shl (bit_and s.liquidation_threshold 0x3fff) 14) in
    let c : ℕ = bit_or b (shl (bit_and s.liquidation_bonus 0x3fff) 28) in
    let d : ℕ = bit_or c (shl (bit_and s.decimals 0xff) 42) in
    let e : ℕ = bit_or d (shl 1 50) in
    let f : ℕ = if s.borrowing_enabled then bit_or e (shl 1 52) else e in
    let g : ℕ = if s.flashloan_enabled then bit_or f (shl 1 56) else f in
    let high : ℕ = bit_and s.borrow_cap 0xffff_ffff_ffff_ffff in
    record {
      data_low = bit_or g (shl (bit_and s.reserve_factor 0x3fff) 57);
      data_high = bit_or high (shl (bit_and s.supply_cap 0xffff_ffff_ffff_ffff) 64);
    }

abbrev pub with_reserve : Pool → Address → ReserveData → Pool
with_reserve p asset r = record p { reserves = set_reserve_data p.reserves asset r }

-- A reserve under the next id: its data, its place in the list and its entry by id.
unfoldable pub add_reserve : Pool → Address → ReserveData → Pool
unfolding set_reserve_data
add_reserve p asset r = record p {
  next_reserve_id = p.next_reserve_id + 1;
  reserves = set_reserve_data p.reserves asset r;
  reserves_list = p.reserves_list ++ (asset ∷ []);
  reserve_address_by_id =
      λ i. if i == p.next_reserve_id then some asset else p.reserve_address_by_id i;
}

-- One token of `propagate_incentives_to_tokens`.
module _ {U : Type 0} (env : Env U) where
  abbrev pub told : World U → Address → Address → Result TokenError (World U)
  told w token incentives = elim (w.contracts token) [
    | none ↦ panic host
    | some (rate_strategy s) ↦ panic host
    | some (a_token t) ↦ do
      t' ← AState.set_incentives_contract (a_token_env env w token t) env.self incentives t
      ok (record w { contracts = set_contract w.contracts token (a_token t') })
    | some (debt_token t) ↦ do
      t' ← DState.set_incentives_contract (debt_token_env env) env.self incentives t
      ok (record w { contracts = set_contract w.contracts token (debt_token t') })
  ]

  unfoldable pub propagate_incentives_to_tokens :
      Address → Address → Address → World U → Outcome (World U)
  propagate_incentives_to_tokens a_token_address debt_token_address incentives w = do
    w' ← caught (told w a_token_address incentives) token_initialization_failed
    caught (told w' debt_token_address incentives) token_initialization_failed

  abbrev pub not_found : Reserves → Address → Bool
  not_found m asset = elim (m asset) [ none ↦ true | some r ↦ false ]

  unfoldable pub fresh_reserve : Address → Address → Address → InitReserveParams → ℕ → ReserveData
  unfolding init_configuration
  fresh_reserve a_token_impl variable_debt_impl interest_rate_strategy s reserve_id = record {
    liquidity_index = ray;
    variable_borrow_index = ray;
    current_liquidity_rate = 0;
    current_variable_borrow_rate = 0;
    last_update_timestamp = env.now;
    a_token_address = a_token_impl;
    debt_token_address = variable_debt_impl;
    interest_rate_strategy_address = interest_rate_strategy;
    id = reserve_id;
    configuration = init_configuration s;
  }

  unfoldable pub init_reserve :
      Address
      → Address
      → Address
      → Address
      → Address
      → InitReserveParams
      → World U
      → Outcome (World U)
  unfolding validate_pool_configurator validate_params
  init_reserve caller underlying_asset a_token_impl variable_debt_impl strategy s w = do
    validate_pool_configurator w.pool caller
    require_auth env.auth caller
    fail_if (not (not_found w.pool.reserves underlying_asset)) reserve_already_initialized
    panic_if (leb max_reserves w.pool.next_reserve_id) max_reserves_reached
    validate_params s
    let r = fresh_reserve a_token_impl variable_debt_impl strategy s w.pool.next_reserve_id
    let w' = in_pool w (add_reserve w.pool underlying_asset r)
    elim w.pool.incentives_contract [
      | none ↦ ok w'
      | some incentives ↦
          propagate_incentives_to_tokens a_token_impl variable_debt_impl incentives w'
    ]

  unfoldable pub set_reserve_supply_cap : Address → ℕ → Pool → Outcome Pool
  set_reserve_supply_cap asset supply_cap p = do
    require_pool_admin env.auth p
    fail_if (ltb u64_max supply_cap) invalid_amount
    r ← get_reserve_data p.reserves asset
    ok (
        with_reserve p asset
          (record r { configuration = set_supply_cap r.configuration supply_cap }))

  unfoldable pub set_reserve_borrow_cap : Address → ℕ → Pool → Outcome Pool
  set_reserve_borrow_cap asset borrow_cap p = do
    require_pool_admin env.auth p
    fail_if (ltb u64_max borrow_cap) invalid_amount
    r ← get_reserve_data p.reserves asset
    ok (
        with_reserve p asset
          (record r { configuration = set_borrow_cap r.configuration borrow_cap }))

  unfoldable pub set_reserve_debt_ceiling : Address → ℕ → Pool → Outcome Pool
  set_reserve_debt_ceiling asset debt_ceiling p = do
    require_pool_admin env.auth p
    r ← get_reserve_data p.reserves asset
    fail_if (ltb u64_max debt_ceiling) invalid_amount
    ok (record p {
      reserve_debt_ceiling = λ a. if a == asset then debt_ceiling else p.reserve_debt_ceiling a;
    })

  unfoldable pub set_reserve_min_remaining_debt : Address → ℕ → Pool → Outcome Pool
  set_reserve_min_remaining_debt asset min_remaining_debt p = do
    require_pool_admin env.auth p
    r ← get_reserve_data p.reserves asset
    ok (
        with_reserve p asset
          (record r { configuration = set_min_remaining_debt r.configuration min_remaining_debt }))

  unfoldable pub update_reserve_configuration :
      Address → Address → ReserveConfiguration → Pool → Outcome Pool
  unfolding validate_pool_configurator validate_reserve_configuration
  update_reserve_configuration caller asset configuration p = do
    validate_pool_configurator p caller
    require_auth env.auth caller
    validate_reserve_configuration configuration
    r ← get_reserve_data p.reserves asset
    ok (with_reserve p asset (record r { configuration = configuration }))

  unfoldable pub update_reserve_rate_strategy : Address → Address → Address → Pool → Outcome Pool
  unfolding validate_pool_configurator
  update_reserve_rate_strategy caller asset interest_rate_strategy p = do
    validate_pool_configurator p caller
    require_auth env.auth caller
    r ← get_reserve_data p.reserves asset
    ok (with_reserve p asset (record r { interest_rate_strategy_address = interest_rate_strategy }))

abbrev without : Address → List Address → List Address
without asset [] = []
without asset (a ∷ l) = let rest = without asset l in if a == asset then rest else a ∷ rest

-- `remove_reserve_from_list`: what stands after the 64th entry is lost.
unfoldable pub remove_reserve_from_list : Address → List Address → List Address
unfolding take
remove_reserve_from_list asset l = without asset (take max_reserves l)

-- The entries of a dropped reserve. The id is not given out again; the flags that say whether the
-- access lists have members stay.
unfoldable pub forget_reserve : Pool → Address → ℕ → Pool
unfolding remove_reserve_from_list
forget_reserve p asset reserve_id = record p {
  reserves = λ a. if a == asset then none else p.reserves a;
  reserves_list = remove_reserve_from_list asset p.reserves_list;
  reserve_address_by_id = λ i. if i == reserve_id then none else p.reserve_address_by_id i;
  reserve_whitelist = λ a.
      if a == asset then record (p.reserve_whitelist a) { members = [] } else p.reserve_whitelist a;
  reserve_blacklist = λ a.
      if a == asset then record (p.reserve_blacklist a) { members = [] } else p.reserve_blacklist a;
  reserve_deficit = λ a. if a == asset then 0 else p.reserve_deficit a;
}

-- Neither deposits nor debts may be left.
unfoldable pub drop_reserve : Auth → Contracts → Address → Address → Pool → Outcome Pool
unfolding validate_pool_configurator forget_reserve
drop_reserve auth m caller asset p = do
  validate_pool_configurator p caller
  require_auth auth caller
  r ← get_reserve_data p.reserves asset
  a_token_scaled_supply ← caught (scaled_total_at m r.a_token_address) token_call_failed
  panic_if (not (is_zero a_token_scaled_supply)) cannot_drop_active_reserve
  debt_token_scaled_supply ← caught (scaled_total_at m r.debt_token_address) token_call_failed
  panic_if (not (is_zero debt_token_scaled_supply)) cannot_drop_active_reserve
  ok (forget_reserve p asset r.id)
