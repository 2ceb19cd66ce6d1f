-- ===== src/Export/Clash.antt =====
-- crates/easysub-core/src/export/clash.rs: the rules and rule providers of a Clash profile.
pub mod Adjacent
pub mod Merge
pub mod Provider
pub mod Ruleset
pub mod Rules
pub mod Bound
pub mod Limit
pub mod Total
pub mod Fields
pub mod Proxies
pub mod Keeps
pub mod Reading
pub mod Entries
pub mod Readers
pub mod RoundTrip
mod Tests
mod ProxyTests
