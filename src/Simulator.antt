-- ===== src/Simulator.antt =====
-- crates/analyzer/src/simulator.rs.
pub mod Inspector
pub mod Frames
pub mod Dedup
pub mod Batch
