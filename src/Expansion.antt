-- ===== src/Expansion.antt =====
-- src/expansion/scheduler.rs: the scheduler of compile-time expansion, the meter of one execution, and
-- the active-chain cycle test.
mod Meter
mod Chain
mod Ready
mod Defs
mod Queue
mod Run
mod Engine
pub mod Limits
pub mod Traces
pub mod Cycles
pub mod Schedule
pub mod Examples
unfoldable pub use Meter.*
unfoldable pub use Chain.*
unfoldable pub use Ready.*
unfoldable pub use Defs.*
unfoldable pub use Queue.*
unfoldable pub use Run.*
unfoldable pub use Engine.*
