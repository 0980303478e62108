-- ===== src/Server.antt =====
-- crates/risk-server-tokio/src/main.rs: the binary protocols of the HTTP server.
pub mod Reply
pub mod Dense
pub mod Batch
pub mod Acks
