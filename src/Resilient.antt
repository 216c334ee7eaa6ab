-- ===== src/Resilient.antt =====
-- The crate crates/resilient-client.
pub mod Float
pub mod Breaker
pub mod Backoff
pub mod Config
pub mod Platform
pub mod Request
pub mod Client
pub mod Shutdown
pub mod Metrics
pub mod Samples
mod Tests
