-- ===== src/Place.antt =====
-- src/source.rs: spans, and src/operations.rs: the places of the ownership analysis and the test
-- whether two places may overlap.
mod Defs
pub mod Storage
pub mod Overlap
pub mod Examples
unfoldable pub use Defs.*
