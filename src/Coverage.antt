-- ===== src/Coverage.antt =====
-- src/check/coverage.rs and the match statement of src/check/patterns.rs: what the arms of a
-- match cover, whether they cover everything, and which arms are reported as unreachable.
mod Defs
mod Match
mod Meaning
pub mod Sound
pub mod Exhaustive
pub mod Report
pub mod Examples
unfoldable pub use Defs.*
unfoldable pub use Match.*
unfoldable pub use Meaning.*
