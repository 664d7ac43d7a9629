-- ===== src/DebtToken.antt =====
-- contracts/debt-token: the token that records what each account has borrowed. Debts are kept
-- scaled; the pool gives the borrow index that turns them into amounts.
pub mod State
pub mod Supply
pub mod Balance
pub mod Effects
pub mod History
pub mod Repay
