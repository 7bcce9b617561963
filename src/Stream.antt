-- ===== src/Stream.antt =====
-- `update_books_from_stream_event` of `src/zq_arb/adapters/polymarket.py`: the order books kept
-- current by the market stream.
pub mod Types
pub mod Snapshots
pub mod Update
pub mod Ladders
mod Examples
