-- ===== src/AToken.antt =====
-- contracts/a-token: the interest-bearing deposit token. Balances are kept scaled; the pool gives
-- the index that turns them into amounts.
pub mod State
pub mod Supply
pub mod Transfer
pub mod Balance
pub mod Effects
pub mod Conservation
pub mod Payout
pub mod History
