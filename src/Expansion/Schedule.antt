-- ===== src/Expansion/Schedule.antt =====
-- src/expansion/scheduler.rs: what the scheduler keeps while it runs.
mod Work
mod Keys
mod Keyed
mod Sound
mod Change
mod Count
mod Mark
mod Refresh
mod Push
mod Grown
mod Enqueue
mod Select
mod Finish
mod Fixpoint
mod Settled
pub mod Runs
pub mod Invocations
pub mod Examples
