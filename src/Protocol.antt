-- ===== src/Protocol.antt =====
-- The two ends of the wire together: crates/risk-server-tokio/src/main.rs and crates/risk-bench3.
pub mod Replies
pub mod Requests
pub mod Batches
pub mod Scored
pub mod Records
pub mod AnySize
pub mod Header
