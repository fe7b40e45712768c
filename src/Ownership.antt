-- ===== src/Ownership.antt =====
-- src/types/ownership.rs: the structural query for the ownership facts of a type.
mod Defs
mod Arms
mod Query
pub mod Coherence
pub mod Examples
unfoldable pub use Defs.*
unfoldable pub use Arms.*
unfoldable pub use Query.*
