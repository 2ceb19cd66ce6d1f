-- ===== src/Parser.antt =====
-- crates/easysub-core/src/parser.rs: proxy links and subscriptions made of them.
pub mod Formats
pub mod Fields
pub mod Links
pub mod Vmess
pub mod Payload
pub mod UrlProxy
pub mod Node
pub mod Complete
pub mod Outcomes
pub mod Errors
pub mod Recognised
pub mod Kept
pub mod Grouped
mod Tests
