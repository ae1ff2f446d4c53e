-- ===== src/Buffered.antt =====
-- crates/inel/src/io/buffered: the readers and the writers that keep a buffer in front of a source.
pub mod Reader
pub mod Writer
pub mod Adapters
pub mod Grouped
pub mod Stream
pub mod GroupedWriter
pub mod Fix
mod Tests
