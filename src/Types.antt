-- ===== src/Types.antt =====
-- src/types/context.rs: canonical types, their arena, the inference bindings and integer literals.
mod Defs
mod Equality
mod Literals
mod Arena
mod Search
mod Compare
mod Equal
mod Expected
pub mod Resolve
pub mod Canonical
pub mod Fresh
pub mod Initial
pub mod Reach
pub mod Contains
pub mod Ranked
pub mod Acyclic
pub mod Unify
pub mod Ranges
pub mod Examples
pub mod ArenaExamples
unfoldable pub use Defs.*
unfoldable pub use Equality.*
unfoldable pub use Literals.*
unfoldable pub use Arena.*
unfoldable pub use Search.*
unfoldable pub use Compare.*
unfoldable pub use Equal.*
unfoldable pub use Expected.*
