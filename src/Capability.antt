-- ===== src/Capability.antt =====
-- src/operations.rs and src/types/ownership.rs: the states of an ownership capability, the six
-- facts of a type, and the folds that combine the facts of a type's parts.
mod Defs
pub mod Lattice
pub mod Examples
unfoldable pub use Defs.*
