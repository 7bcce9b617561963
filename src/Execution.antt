-- ===== src/Execution.antt =====
-- `ExecutionCoordinator` of `src/zq_arb/execution/coordinator.py`.
pub mod Types
pub mod Differences
pub mod Safety
pub mod Callbacks
pub mod Restart
pub mod Comparison
pub mod Reconcile
pub mod Agreement
pub mod Frame
pub mod Clean
pub mod Verdict
pub mod Reconciled
pub mod Deadlines
pub mod Grace
pub mod FaultKeys
pub mod Faults
pub mod Account
pub mod Reports
pub mod Fills
pub mod Events
pub mod Reads
pub mod Keeping
pub mod Watching
pub mod Opened
pub mod Guarded
pub mod Confirming
pub mod History
pub mod Posting
pub mod Routing
pub mod Placing
pub mod Sending
pub mod Justified
pub mod Routed
mod Samples
mod Examples
mod Trials
