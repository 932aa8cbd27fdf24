-- ===== src/Snapshot.antt =====
-- crates/doover-core/src/snapshot.rs, by part.
pub mod Manifest
pub mod Errors
pub mod Same
