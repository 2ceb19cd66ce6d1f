-- ===== src/Structured.antt =====
-- crates/easysub-core/src/structured.rs: subscriptions in Surge, Clash and sing-box form.
pub mod Fields
pub mod Netch
pub mod Surge
pub mod Details
pub mod Object
pub mod Document
pub mod Endpoints
pub mod Nodes
pub mod Places
pub mod Whole
pub mod Csv
mod Tests
