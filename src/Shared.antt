-- ===== src/Shared.antt =====
-- contracts/shared: what every contract of the protocol links.
pub mod Errors
pub mod Constants
pub mod Wide
pub mod Host
pub mod Signed
pub mod Balances
pub mod RayMath
pub mod Interest
pub mod ReserveConfig
pub mod UserConfig
pub mod Debts
