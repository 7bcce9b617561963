-- ===== src/Maintenance.antt =====
-- The daily maintenance hold: `src/zq_arb/execution/maintenance.py`. Times are seconds from a
-- fixed moment. What the time zone and the settings make of a moment is a parameter: the close,
-- restart and reopening of its local day, its weekday and whether its local time is past the
-- closing or before the reopening time of day.
pub mod Hold
pub mod Laws
mod Examples
