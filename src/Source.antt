-- ===== src/Source.antt =====
-- src/source.rs: the lines of a source file.
mod Lines
pub mod Columns
pub mod Positions
pub mod Examples
unfoldable pub use Lines.*
