-- ===== src/Secrets.antt =====
-- The crate crates/secrets.
pub mod Compare
pub mod Seal
pub mod Cache
mod Tests
