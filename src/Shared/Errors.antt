-- ===== src/Shared/Errors.antt =====
-- The error enumerations of contracts/shared/src/errors.rs that the modelled code returns, with
-- the codes that a panic carries.
use k.Base.{ℕ}

pub data KineticRouterError : Type 0 where
  invalid_amount asset_not_active asset_frozen asset_paused : KineticRouterError
  borrowing_not_enabled insufficient_collateral health_factor_too_low : KineticRouterError
  price_oracle_not_found invalid_liquidation liquidation_amount_too_high : KineticRouterError
  no_debt_of_requested_type invalid_flash_loan_params : KineticRouterError
  flash_loan_not_authorized isolation_mode_violation : KineticRouterError
  price_oracle_invocation_failed price_oracle_error supply_cap_exceeded : KineticRouterError
  borrow_cap_exceeded debt_ceiling_exceeded user_in_isolation_mode : KineticRouterError
  reserve_not_found user_not_found unauthorized already_initialized : KineticRouterError
  not_initialized reserve_already_initialized flash_loan_execution_failed : KineticRouterError
  flash_loan_not_repaid insufficient_flash_loan_liquidity a_token_mint_failed : KineticRouterError
  debt_token_mint_failed underlying_transfer_failed : KineticRouterError
  flash_loan_transfer_failed math_overflow expired insufficient_swap_out : KineticRouterError
  min_profit_not_met treasury_not_set insufficient_liquidity amm_required : KineticRouterError
  unauthorized_amm adapter_not_initialized a_token_burn_failed : KineticRouterError
  wasm_hash_not_set token_deployment_failed token_initialization_failed : KineticRouterError
  address_not_whitelisted no_pending_admin invalid_pending_admin : KineticRouterError
  token_call_failed : KineticRouterError

pub data TokenError : Type 0 where
  insufficient_balance transfer_failed mint_failed burn_failed invalid_recipient : TokenError
  token_not_found unauthorized invalid_amount insufficient_allowance invalid_index : TokenError
  unsupported_operation already_initialized : TokenError

pub data ConfigurationError : Type 0 where
  invalid_ltv invalid_liquidation_threshold invalid_liquidation_bonus : ConfigurationError

-- `UpgradeError` of contracts/shared/src/upgradeable.rs
pub data UpgradeError : Type 0 where
  unauthorized invalid_wasm_hash no_pending_admin invalid_pending_admin : UpgradeError

-- `KineticRouterError::MathOverflow as u32`
abbrev pub math_overflow_code : ℕ
math_overflow_code = 37
