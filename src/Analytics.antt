-- ===== src/Analytics.antt =====
-- The pricing of `src/zq_arb/analytics`, in fixed-point numbers.
pub mod Units
pub mod Settlement
pub mod Sizing
mod Examples
