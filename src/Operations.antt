-- ===== src/Operations.antt =====
-- Operations of the language that the compiler knows: calls into the standard library, and the named
-- numeric alternatives.
mod Defs
mod Rewrite
pub mod Carried
pub mod Numeric
pub mod Examples
unfoldable pub use Defs.*
unfoldable pub use Rewrite.*
