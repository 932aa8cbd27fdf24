-- ===== src/Inspect.antt =====
-- crates/doover-core/src/inspect.rs: the comparison of a recorded manifest with the live file system.
pub mod Live
pub mod Diff
mod Agreement
mod Impostor
mod Tests
