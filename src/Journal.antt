-- ===== src/Journal.antt =====
-- crates/doover-core/src/journal.rs, by part.
pub mod Records
pub mod Reads
pub mod Tables
pub mod Writes
pub mod Undoing
pub mod Retention
pub mod Keys
pub mod Links
pub mod Invariant
pub mod Preserve
pub mod UndoValid
pub mod PruneValid
pub mod Runs
pub mod Redo
pub mod RedoRound
pub mod Open
pub mod OneOpen
pub mod OneOpenRuns
pub mod Kept
pub mod Tests
pub mod Settled
pub mod Awaited
