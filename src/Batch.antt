-- ===== src/Batch.antt =====
-- `src/zq_arb/execution/state_machine.py`: the machine of one batch. A method takes the machine
-- and gives its result with the machine that it leaves; an exception keeps what was written.
-- Execution ids are only compared, so they are numbers. The key of an obligation is its execution
-- and its token, the parts of the source's `batch:execution:token` that differ within a batch.
-- The time stamps of the history and of the obligations are left out.
pub mod Types
pub mod Machine
pub mod Graph
pub mod Hedges
pub mod Executions
pub mod History
pub mod Runs
mod Examples
