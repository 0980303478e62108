-- ===== src/Forest.antt =====
-- crates/risk-quickscorer/src/qs_exact.rs: the bit-vector traversal of a forest of trees.
pub mod Words
pub mod Pack
pub mod Quantize
pub mod Trees
pub mod Cuts
pub mod EarlyExit
pub mod NoMissing
pub mod Headers
pub mod File
pub mod Save
pub mod Fields
pub mod FileRows
pub mod FileRoundTrip
pub mod FileLoaded
pub mod Converted
