-- ===== src/Subscription.antt =====
-- crates/easysub-core/src/subscription.rs: from a request to the nodes and rule sets of a profile.
pub mod Request
pub mod Guard
pub mod Load
pub mod Nodes
pub mod Trust
pub mod Parsed
pub mod Rulesets
pub mod Collect
pub mod Apart
pub mod Order
pub mod Progress
pub mod InOrder
mod Tests
mod ParsedTests
