-- ===== src/Types/Unify.antt =====
-- src/types/context.rs:363-403: what a call of `unify` does.
mod Bound
mod Same
mod Inverse
mod Outcome
mod Step
pub mod Total
mod Decides
pub mod Equality
pub mod Expanded
pub mod Strings
pub mod Numbers
pub mod Examples
