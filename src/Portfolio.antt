-- ===== src/Portfolio.antt =====
-- The valuation of the strategy's positions: `src/zq_arb/analytics/portfolio.py`.
-- Prices are signed counts of 10^-10, quantities of 10^-8, a multiplier is a whole number, and
-- money comes out exact in 10^-18. Instruments and labels are numbers; a mapping is a list of
-- entries whose keys differ.
pub mod Valuation
pub mod Totals
mod Examples
