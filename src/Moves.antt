-- ===== src/Moves.antt =====
-- src/check/moves.rs: transitions, the trees of projections, the states, writes and joins.
mod Defs
mod States
pub mod Lookup
pub mod Join
pub mod Merge
pub mod Sequence
pub mod Examples
unfoldable pub use Defs.*
unfoldable pub use States.*
