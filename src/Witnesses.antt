-- ===== src/Witnesses.antt =====
-- The theorems at concrete inputs.
pub mod Epochs
pub mod Voting
pub mod Engines
mod Liveness
pub mod Runs
pub mod Nodes
pub mod Paths
pub mod Caches
pub mod Cleanups
pub mod Deliveries
pub mod Slots
