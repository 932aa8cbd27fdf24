-- ===== src/Registry.antt =====
-- crates/doover-core/src/registry.rs, by part; the proofs are in `Best`, `Floor`, `Ids` and `Shadow`.
pub mod Rules
pub mod Lookup
pub mod Overlay
pub mod Ids
pub mod Best
pub mod Floor
pub mod Overlaid
pub mod Loading
pub mod Shadow
mod Tests
