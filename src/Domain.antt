-- ===== src/Domain.antt =====
-- The shared vocabulary: `domain/enums.py` and `domain/calendar.py`.
pub mod Enums
pub mod Calendar
mod Examples
