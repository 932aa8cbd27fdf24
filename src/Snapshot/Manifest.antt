-- ===== src/Snapshot/Manifest.antt =====
-- crates/doover-core/src/snapshot.rs: manifests, the recorded state of one path.
use doover.Base.{ℕ, String, Bool, List}
use doover.Paths.{FilePath}

pub data Root : Type 0 where
  present absent : Root

-- A modification time is its number of nanoseconds.
pub data EntryKind : Type 0 where
  file : String → ℕ → ℕ → ℕ → List (String × List ℕ) → EntryKind
  dir : ℕ → EntryKind
  symlink : FilePath → EntryKind
  fifo : ℕ → EntryKind

pub record Entry : Type 0 where
  pub rel : FilePath
  pub kind : EntryKind

pub record Manifest : Type 0 where
  pub schema : ℕ
  pub path : FilePath
  pub root : Root
  pub entries : List Entry
  pub truncated : Bool
  pub skipped : ℕ
  pub warnings : List String
  pub skipped_dirs : List FilePath

abbrev pub manifest_schema : ℕ
manifest_schema = 1
