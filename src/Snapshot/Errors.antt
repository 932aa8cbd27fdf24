-- ===== src/Snapshot/Errors.antt =====
-- crates/doover-core/src/snapshot.rs: what its operations report, and the store as the undo engine
-- uses it.
use doover.Base.{ℕ, String, Bool, List, ◌≡◌, refl, ◌⊎◌, inl, inr}
use doover.Paths.{FilePath}
use doover.Snapshot.Manifest.{Manifest}

-- The source of an IO error is its text.
pub data SnapshotError : Type 0 where
  io : String → String → SnapshotError
  corrupt_object : String → SnapshotError
  missing_object : String → SnapshotError
  unsafe_manifest_path : FilePath → SnapshotError
  budget : String → SnapshotError
  restore_target_disturbed : FilePath → String → SnapshotError
  restore_staging_preserved : FilePath → String → List FilePath → SnapshotError
  restore_would_delete_home : FilePath → SnapshotError
  restore_in_progress : SnapshotError

pub data Answer {ℓ} (A : Type ℓ) : Type ℓ where
  good : A → Answer A
  bad : SnapshotError → Answer A

pub Answer-cases {ℓ} :
    {A : Type ℓ} (c : Answer A) → ((a : A) × (c ≡ good a)) ⊎ ((e : SnapshotError) × (c ≡ bad e))
Answer-cases (good a) = inl (a, refl)
Answer-cases (bad e) = inr (e, refl)

pub record RestoreReport : Type 0 where
  pub files_restored : ℕ
  pub warnings : List String

-- The methods of `Store` that the undo engine calls. The world is the file system, with the store's
-- objects in it; what fails may have changed it.
pub record Store (World : Type 0) : Type 0 where
  pub lock_restores : World → Answer (Unit {0}) × World
  pub unlock : World → World
  pub state_matches : Manifest → World → Answer Bool
  pub state_matches_mode : Manifest → World → Answer Bool
  pub snapshot_rollback : FilePath → World → Answer Manifest × World
  pub restore : Manifest → World → Answer RestoreReport × World
