-- ===== src/Export.antt =====
-- crates/easysub-core/src/export: what the exporters for Clash and sing-box share and do.
pub mod Names
pub mod Clash
mod Tests
