-- ===== src/Hooks.antt =====
-- crates/doover-core/src/hooks.rs: what the harness's events do to the journal and the store.
pub mod Events
pub mod Io
pub mod Pre
pub mod AutoGc
pub mod Post
mod Along
mod PostAlong
mod Protected
mod Guarded
mod Correlated
mod Recorded
mod Tests
