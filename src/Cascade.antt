-- ===== src/Cascade.antt =====
-- The second stage of crates/risk-quickscorer: the files and tables of its runtime (prefix.rs).
pub mod HotFiles
pub mod Tables
pub mod CertifyFile
pub mod CertifyRoundTrip
pub mod Compiled
pub mod HotPrefix
pub mod HotFill
pub mod HotLoops
pub mod HotNoMissing
pub mod HotWalk
pub mod HotAlike
