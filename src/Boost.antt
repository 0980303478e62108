-- ===== src/Boost.antt =====
-- The first stage's boosted trees and their traversals (crates/risk-quickscorer/src/l1.rs, with the
-- structs of lib.rs and prefix.rs).
pub mod Model
pub mod Exits
pub mod Walk
pub mod Caches
pub mod Ranks
pub mod Traverse
pub mod Simulation
pub mod NoMissing
pub mod Totality
pub mod Ends
pub mod Stamps
pub mod RankFloat
pub mod Compact
pub mod Hot
pub mod Mirror
pub mod Online
pub mod Policies
pub mod Dense
pub mod Reader
pub mod Written
pub mod Got
pub mod Load
pub mod Sizes
pub mod Plans
pub mod Total
pub mod Prefix
pub mod PrefixNodes
