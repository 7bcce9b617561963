-- ===== src/Api.antt =====
-- The API's own state: the login limiter of `src/zq_arb/api/security.py`.
pub mod Limiter
pub mod Windows
pub mod Answers
mod Examples
