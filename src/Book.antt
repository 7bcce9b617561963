-- ===== src/Book.antt =====
-- The ladders of a Polymarket book, and walking them: `BookLevel` and `OrderBook` of
-- `src/zq_arb/domain/models.py`, `walk_asks` and `plan_hedge_entry` of
-- `src/zq_arb/analytics/payoff.py`.
-- The adapter drops a level whose price or size is not positive, so both are counts; prices are
-- counts of `Units.one`, sizes of `Units.one_share`, and a cost is exact in units of 10^-18.
pub mod Types
pub mod Walk
pub mod Greedy
pub mod Sorted
pub mod Tally
pub mod Cheapest
pub mod Depth
pub mod Plan
mod Examples
