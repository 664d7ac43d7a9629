-- ===== src/RateStrategy.antt =====
-- contracts/interest-rate-strategy: the variable rate curve and its administration.
pub mod Curve
pub mod Bounds
pub mod Admin
pub mod Governance
