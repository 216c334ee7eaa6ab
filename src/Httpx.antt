-- ===== src/Httpx.antt =====
-- The crate crates/httpx.
pub mod Health
pub mod Server
pub mod Metrics
pub mod Logging
pub mod Router
pub mod Problem
pub mod Config
mod Tests
