-- ===== src/Bench.antt =====
-- crates/risk-bench3: the benchmark client.
pub mod Encode
pub mod Decode
pub mod Throughput
pub mod Accounting
pub mod Quota
