-- ===== src/Risk.antt =====
-- The entry gates: `src/zq_arb/risk/engine.py` with `src/zq_arb/domain/eligibility.py`.
-- A check keeps its code, status and details; its texts for display (category, label, actual and
-- required value, operator, unit) are left out. A detail is named by what it says.
pub mod Types
pub mod Checks
pub mod Engine
mod Gates
mod Tradeable
mod Examples
