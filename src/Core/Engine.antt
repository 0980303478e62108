-- ===== src/Core/Engine.antt =====
-- crates/risk-core/src/quickscorer/engine.rs: the two-stage scorer over its reused buffers.
pub mod Scratch
pub mod Predict
pub mod Batch
pub mod Buffers
pub mod Rows
pub mod Outcome
pub mod Stages
pub mod Counting
pub mod BatchSingle
pub mod Survivors
pub mod Partition
pub mod FirstStage
