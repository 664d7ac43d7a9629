-- ===== src/Router.antt =====
-- contracts/kinetic-router: the lending pool. Its storage and access lists, its interest accrual,
-- its values in the base currency, its operations, and what a liquidation may take.
pub mod State
pub mod Access
pub mod Price
pub mod Calls
pub mod Accrual
pub mod Value
pub mod Rates
pub mod Account
pub mod Validation
pub mod Operations
pub mod History
pub mod Admin
pub mod Reserves
pub mod Treasury
pub mod Liquidation
