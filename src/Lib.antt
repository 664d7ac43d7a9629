-- ===== src/Lib.antt =====
-- The lending pool's contracts (contracts/): the arithmetic and configuration that all of them
-- share, the interest rate strategy, the two tokens of a reserve, and the pool: its storage,
-- accrual, accounts, operations, reserves, roles and parameters.
--
-- How the parts interact: the pool (contracts/kinetic-router) keeps a reserve's indices, which
-- grow with time at the rates that contracts/interest-rate-strategy computes. Deposits are units
-- of contracts/a-token and debts units of contracts/debt-token, both kept scaled: an amount is
-- the units times an index. The pool calls the tokens with its index, the tokens call the pool
-- for an index and for the check of a transfer, and the incentives contract after a change. An
-- operation of the pool checks its caller and the lists, brings the reserve up to date, asks the
-- tokens and the oracle for the user's account, moves the underlying token, mints or burns
-- scaled units, sets the user's flags and stores the new rates.
--
-- Files, by what they model:
-- - Base: booleans, outcomes of calls, integers over the native numbers, and the bits of a
--   number.
-- - Shared/Constants, Errors, Wide, Signed, Host: contracts/shared/src/constants.rs and
--   errors.rs; checked u128 and i128 arithmetic, U256, and what the host gives.
-- - Shared/RayMath: `wad_mul` to `percent_div` of contracts/shared/src/utils.rs; RayMath/Closed,
--   Rounding, Scaled and Unit: what they compute.
-- - Shared/Interest: `calculate_compound_interest` and `calculate_linear_interest`;
--   Interest/Growth: how they grow.
-- - Shared/ReserveConfig and Shared/UserConfig: the bit-packed configurations;
--   ReserveConfig/View, Fields, Update: the settings that the words stand for; UserConfig/Flags
--   and Scan: the flags and the loops over them.
-- - Shared/Balances and Shared/Debts: the ledgers of the tokens, as association lists.
-- - RateStrategy/Curve and Admin: contracts/interest-rate-strategy/src/contract.rs,
--   validation.rs and storage.rs; RateStrategy/Bounds and Governance: the curve and the
--   histories of calls.
-- - AToken/State, Supply, Transfer, Balance: contracts/a-token/src/storage.rs, contract.rs and
--   balance.rs; AToken/Effects, Conservation, Payout and History: what the operations do.
-- - DebtToken/State, Supply, Balance: contracts/debt-token/src/storage.rs, contract.rs and
--   balance.rs; DebtToken/Effects, Repay and History: what the operations do.
-- - Router/State: contracts/kinetic-router/src/storage.rs as one record, the contracts by
--   address, and what an invocation sees; Router/Access: the lists and their checks in
--   access_control.rs, validation.rs and storage.rs, and Access/Lookup: what a check reads.
-- - Router/Price: price.rs. Router/Calls: the pool's calls of the two tokens, and Calls/Effects:
--   what they change.
-- - Router/Accrual, Value, Rates, Account, Liquidation: calculation.rs and liquidation.rs, as
--   far as they are modelled; Router/Accrual/Growth: what accrual does.
-- - Router/Validation: validation.rs; Validation/Health: the checks of the account;
--   Health/Solvent and Limits: what the checks say.
-- - Router/Operations: the common parts of operations.rs and the guard of router.rs;
--   Operations/Supply, Withdraw, Borrow, Repay: one operation each; Parts, Frame, Sound: what a
--   success consists of, what is left alone, and that the books stay balanced; Positions,
--   Settlement, Deposits, Redemption: what borrowing, repaying and withdrawing do.
--   Operations/Transfer: `validate_and_finalize_transfer` of router.rs, which a deposit token
--   calls; Operations/Collateral: `set_user_use_reserve_as_coll`. Router/History: histories of
--   them.
-- - Router/Admin: the roles in router.rs and emergency.rs; Admin/Params: params.rs;
--   Admin/Upgrade: contracts/shared/src/upgradeable.rs and upgrade.rs; Admin/Governance with
--   Setters and Roles: the calls of `Call`, which are the set-up, pausing, the hand-over of the
--   two roles and the setters of params.rs and access_control.rs, and histories of them.
-- - Router/Reserves: reserve.rs; Reserves/Ids and History: the ids of the reserves over any
--   history. Router/Treasury: treasury.rs and the deficit of storage.rs.
-- - Tests: each result at concrete inputs.
--
-- How the code is read: functions keep the names of the source; a long function is cut into
-- helpers where a branch or a shared part ends. An operation takes the storage and gives an
-- outcome: `ok` with the new storage, `err` with the contract's error, or `panic`, a trap of the
-- host or a coded panic. A call that does not end in `ok` is rolled back by the host, so a
-- history goes on from the storage before it. Addresses are numbers, since they are only
-- compared. Storage keys are fields of a record or functions of an address. U256 operations trap
-- where the exact result needs more than 256 bits, u128 and i128 operations are the checked ones
-- of Rust. The signatures of an invocation, the ledger's time and sequence, and the answers of
-- contracts outside the repository or outside the model (the underlying tokens, the oracle, and
-- for a token called on its own the pool's index and lists) are arguments. A call of a contract
-- that is modelled runs its model; the host forbids a call back into the pool. The loops over
-- the user's bitmap run 64 rounds, and the loop over the reserve ids as many rounds as ids were
-- given out, 64 at most, which is what the source's bounds give; the lists are searched through
-- their first 64 entries, as in the source; nothing else needs a bound.
--
-- Not modelled: events, times to live of storage entries, names and symbols of tokens, and what
-- `upgrade` puts in place of the code; the pool's liquidation call, flash loans, swaps, views,
-- `set_incentives_contract` and the deployment of tokens; the incentives, oracle, treasury, pool
-- configurator, liquidation engine, plain token and exchange adapters.
-- contracts/kinetic-router/src/admin.rs is no module of its crate. Fuzz targets and tests are
-- not part of the program.
pub mod Base
pub mod Shared
pub mod RateStrategy
pub mod AToken
pub mod DebtToken
pub mod Router
pub mod Tests
