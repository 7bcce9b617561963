-- ===== src/Repository.antt =====
-- `src/zq_arb/persistence/repository.py`: the ZQ side of the ledger, from the intent of an entry
-- order to its executions, its statuses, and the positions that they add up to.
pub mod Sizing
pub mod Entry
pub mod Fills
pub mod Status
pub mod Positions
pub mod Backing
pub mod History
pub mod Finality
mod Examples
