-- ===== src/Sink.antt =====
-- crates/analyzer/src/sink: the rows of the reports, and where they are written.
pub mod Rows
pub mod Clock
pub mod Contention
pub mod JsonStream
pub mod StarRocks
