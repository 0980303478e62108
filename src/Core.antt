-- ===== src/Core.antt =====
-- crates/risk-core: the schema, the decision logic and the scoring engine.
pub mod Schema
pub mod Decisions
pub mod Policy
pub mod Engine
pub mod Pipeline
pub mod Counters
