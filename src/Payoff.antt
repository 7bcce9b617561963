-- ===== src/Payoff.antt =====
-- `build_three_state_opportunity` of `src/zq_arb/analytics/payoff.py`: what a long ZQ position with
-- its two hedges earns in each approved scenario.
pub mod Types
pub mod Scenarios
pub mod Build
pub mod Guarantee
pub mod Built
pub mod Least
mod Examples
