-- ===== src/Mrs.antt =====
-- crates/easysub-core/src/mrs.rs: Mihomo's binary rule sets.
pub mod Ranges
pub mod Coverage
mod Tests
