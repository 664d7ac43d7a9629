-- ===== src/Router/Accrual.antt =====
-- How a reserve's indices follow the clock (src/calculation.rs, `update_state` to
-- `get_current_variable_borrow_index`). Storage is a function of the asset; `now` is the ledger's
-- timestamp.
pub mod Growth
use k.Base.{
  ℕ, ltb, leb, ◌==◌, if◌then◌else◌, Bool, Option, none, some, Result, ok, err, ok_or, fail_if,
  ◌>>=◌, ◌>>◌,
}
use k.Shared.Errors.{KineticRouterError, math_overflow, reserve_not_found}
use k.Shared.Host.{Address}
use k.Shared.Interest.{calculate_compound_interest, calculate_linear_interest}
use k.Shared.RayMath.{ray_mul}
use k.Shared.ReserveConfig.{ReserveConfiguration}

pub record ReserveData : Type 0 where
  pub liquidity_index : ℕ
  pub variable_borrow_index : ℕ
  pub current_liquidity_rate : ℕ
  pub current_variable_borrow_rate : ℕ
  pub last_update_timestamp : ℕ
  pub a_token_address : Address
  pub debt_token_address : Address
  pub interest_rate_strategy_address : Address
  pub id : ℕ
  pub configuration : ReserveConfiguration

abbrev pub Reserves : Type 0
Reserves = Address → Option ReserveData

abbrev pub Outcome : Type 0 → Type 0
Outcome A = Result KineticRouterError A

unfoldable pub get_reserve_data : Reserves → Address → Outcome ReserveData
get_reserve_data m asset = ok_or (m asset) reserve_not_found

unfoldable pub set_reserve_data : Reserves → Address → ReserveData → Reserves
set_reserve_data m asset r = λ a. if a == asset then some r else m a

-- What both `update_state` and `update_state_without_store` compute once time has passed.
unfoldable pub accrued : ℕ → ReserveData → Outcome ReserveData
accrued now r = do
  liquidity_interest ←
      calculate_linear_interest r.current_liquidity_rate r.last_update_timestamp now
  borrow_interest ←
      calculate_compound_interest r.current_variable_borrow_rate r.last_update_timestamp now
  liquidity ← ray_mul r.liquidity_index liquidity_interest
  variable_borrow ← ray_mul r.variable_borrow_index borrow_interest
  ok (record r {
    liquidity_index = liquidity;
    variable_borrow_index = variable_borrow;
    last_update_timestamp = now;
  })

abbrev store_accrued : ℕ → Address → ReserveData → Reserves → Outcome (ReserveData × Reserves)
store_accrued now asset r m = do
  updated ← accrued now r
  ok (updated, set_reserve_data m asset updated)

unfoldable pub update_state :
    ℕ → Address → ReserveData → Reserves → Outcome (ReserveData × Reserves)
unfolding accrued set_reserve_data
update_state now asset r m = do
  fail_if (ltb now r.last_update_timestamp) math_overflow
  if now == r.last_update_timestamp then ok (r, m) else store_accrued now asset r m

unfoldable pub update_state_without_store : ℕ → ReserveData → Outcome ReserveData
unfolding accrued
update_state_without_store now r = if leb now r.last_update_timestamp then ok r else accrued now r

unfoldable pub update_reserve_state : ℕ → Address → Reserves → Outcome (ReserveData × Reserves)
unfolding get_reserve_data update_state
update_reserve_state now asset m = do r ← get_reserve_data m asset; update_state now asset r m

unfoldable pub get_current_reserve_data : ℕ → Address → Reserves → Outcome (ReserveData × Reserves)
unfolding get_reserve_data update_state
get_current_reserve_data now asset m = do
  r ← get_reserve_data m asset
  fail_if (ltb now r.last_update_timestamp) math_overflow
  if now == r.last_update_timestamp then ok (r, m) else update_state now asset r m

abbrev pub liquidity_index_at : ℕ → ReserveData → Outcome ℕ
liquidity_index_at now r = do
  interest ← calculate_linear_interest r.current_liquidity_rate r.last_update_timestamp now
  ray_mul r.liquidity_index interest

unfoldable pub get_current_liquidity_index : ℕ → Address → Reserves → Outcome ℕ
unfolding get_reserve_data
get_current_liquidity_index now asset m = do
  r ← get_reserve_data m asset
  fail_if (ltb now r.last_update_timestamp) math_overflow
  if now == r.last_update_timestamp then ok r.liquidity_index else liquidity_index_at now r

abbrev pub borrow_index_at : ℕ → ReserveData → Outcome ℕ
borrow_index_at now r = do
  interest ← calculate_compound_interest r.current_variable_borrow_rate r.last_update_timestamp now
  ray_mul r.variable_borrow_index interest

unfoldable pub get_current_variable_borrow_index_with_data : ℕ → ReserveData → Outcome ℕ
get_current_variable_borrow_index_with_data now r = do
  fail_if (ltb now r.last_update_timestamp) math_overflow
  if now == r.last_update_timestamp then ok r.variable_borrow_index else borrow_index_at now r

unfoldable pub get_current_variable_borrow_index : ℕ → Address → Reserves → Outcome ℕ
unfolding get_reserve_data get_current_variable_borrow_index_with_data
get_current_variable_borrow_index now asset m = do
  r ← get_reserve_data m asset
  get_current_variable_borrow_index_with_data now r
