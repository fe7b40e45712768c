-- ===== src/Ownership/Coherence.antt =====
-- The query of src/types/ownership.rs: its end, its visit set, and the coherence of its facts.
pub mod Combine
pub mod Step
pub mod Kinds
pub mod Visit
pub mod Total
pub use Combine.{Coherent}
pub use Kinds.{IsClosed}
pub use Total.{ownership_facts-Coherent}
