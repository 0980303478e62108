-- ===== src/Examples.antt =====
-- Concrete floats, policies, engines and messages, and runs of the code on them.
mod Data
mod Scoring
mod Thresholds
mod Messages
mod Batches
mod Control
mod Trees
mod Clients
mod Boosted
mod Packs
mod Files
mod Prefix
mod Converted
mod Cascade
mod HotRow
