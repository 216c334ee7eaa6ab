-- ===== src/Tasks.antt =====
-- The crate crates/tasks.
pub mod Config
pub mod Domain
pub mod Store
pub mod Handlers
pub mod Api
pub mod Service
pub mod Sample
mod Tests
