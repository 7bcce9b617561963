-- ===== src/Ledger.antt =====
-- The durable hedge ledger: `src/zq_arb/persistence/hedge_ledger.py` with the batch state of
-- `src/zq_arb/persistence/repository.py`.
-- The tables are lists in the order of their row ids. A session commits when its block ends and
-- rolls back when it raises, so an operation gives the new tables with its result, or the error
-- alone and the old tables stand. Keys that are only compared are numbers. Share quantities are
-- counts of 10^-8, prices of 10^-10, as their columns have it.
pub mod Types
pub mod Queries
pub mod Refresh
pub mod Intents
pub mod Verification
pub mod Executions
pub mod Receipts
pub mod Safety
mod Examples
