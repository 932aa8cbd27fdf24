-- ===== src/Undo.antt =====
-- crates/doover-core/src/undo.rs, by part.
pub mod Types
pub mod Select
pub mod Check
pub mod Restore
pub mod Engine
pub mod DryRun
pub mod Inversion
pub mod Clear
pub mod Failure
pub mod Picked
mod Newest
pub mod Recorded
mod Tests
