-- ===== src/Inspect/Live.antt =====
-- What inspection reads of the file system, and `hash_file` of crates/doover-core/src/snapshot.rs.
use doover.Base.{ℕ, String, List, leb, if◌then◌else◌, Option}
use doover.Paths.{FilePath}
use doover.Snapshot.Errors.{Answer, good, bad}

pub data FileType : Type 0 where
  regular directory link pipe other : FileType

-- The answer of `symlink_metadata`, as far as it is looked at.
pub data Stat : Type 0 where
  found : FileType → Stat
  not_found stat_failed : Stat

-- The file system as it is now, and the digest of a content.
pub record Live : Type 0 where
  pub lstat : FilePath → Stat
  pub len : FilePath → Answer ℕ
  pub mmap : FilePath → Answer (List ℕ)
  pub read : FilePath → Answer (List ℕ)
  pub read_link : FilePath → Option FilePath
  pub blake3 : List ℕ → String

abbrev pub mmap_threshold : ℕ
mmap_threshold = 1048576

unfoldable pub digest : Live → Answer (List ℕ) → Answer String
digest live (good bytes) = good (live.blake3 bytes)
digest live (bad e) = bad e

unfoldable pub hash_file : Live → FilePath → Answer String
unfolding digest
hash_file live path = elim (live.len path) [
  | good len ↦
      if leb mmap_threshold len then digest live (live.mmap path) else digest live (live.read path)
  | bad e ↦ bad e
]
