-- ===== src/Rules.antt =====
-- crates/easysub-core/src/rules.rs: rule sets of Clash, Surge and QuanX, parsed and normalised.
pub mod Line
pub mod Common
pub mod Normalize
pub mod Limits
pub mod Shape
pub mod Kinds
mod Tests
