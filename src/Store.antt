-- ===== src/Store.antt =====
-- The alerts of `StateStore` in `src/zq_arb/services/state.py`.
pub mod Alerts
pub mod Held
mod Examples
