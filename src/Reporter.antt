-- ===== src/Reporter.antt =====
-- crates/analyzer/src/reporter.rs: `Report`, the summary of a conflict graph, and its text.
pub mod Build
pub mod Totals
pub mod Groups
pub mod Bounds
pub mod Render
