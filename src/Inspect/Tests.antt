-- ===== src/Inspect/Tests.antt =====
-- Reports on a concrete manifest.
use doover.Base.{false, none, [], ◌∷◌, ◌≡◌, ◌≢◌, ◌↔◌, refl, inr, map, All}
use doover.Paths.{root_dir, normal, FilePath}
use doover.Snapshot.Manifest.{dir, file, present, Manifest}
use doover.Snapshot.Errors.{good}
use doover.Inspect.Live.{regular, directory, link, Stat, found, not_found, stat_failed, Live}
use doover.Inspect.Diff.{
  PathStatus, unchanged, DiffReport, abs_of, kind_in, one_line, diff_manifest,
}
use doover.Inspect.Agreement.{IsUnchanged, Matches, diff_manifest-Matches}
use doover.Inspect.Impostor.{fits, IsLost, diff_manifest-confined, diff_manifest-paths}

abbrev pub work : FilePath
work = root_dir ∷ normal "work" ∷ []

abbrev pub shot : Manifest
shot = record {
  schema = 1;
  path = work;
  root = present;
  entries =
      record { rel = []; kind = dir 493 }
      ∷ record { rel = normal "a" ∷ []; kind = file "h" 1 420 0 [] }
      ∷ [];
  truncated = false;
  skipped = 0;
  warnings = [];
  skipped_dirs = [];
}

-- The directory with its one file, whose content hashes to the text given.
abbrev below : FilePath → Stat
below [] = found directory
below (c ∷ p) = found regular

abbrev stat_at : FilePath → Stat
stat_at (c ∷ d ∷ p) = below p
stat_at p = not_found

abbrev disk : Live
disk = record {
  lstat = stat_at;
  len = λ p. good 1;
  mmap = λ p. good [];
  read = λ p. good (120 ∷ []);
  read_link = λ p. none;
  blake3 = λ bytes. "h";
}

-- The same with a link in place of the directory, and with nothing behind it.
abbrev swapped : Live
swapped = record disk { lstat = λ p. found link }

abbrev dangling : Live
dangling = record disk { lstat = below_link }
  where
    below_link : FilePath → Stat
    below_link (c ∷ d ∷ []) = found link
    below_link p = stat_failed

diff_manifest-Matches_example :
    (r : DiffReport) × (diff_manifest disk shot ≡ good r)
    × (All IsUnchanged r.lines ↔ Matches disk shot)
diff_manifest-Matches_example = diff_manifest-Matches disk shot

diff_manifest-confined_example :
    (diff_manifest dangling shot ≡ diff_manifest swapped shot)
    × ((s : PathStatus) × (s ≢ unchanged)
        × (diff_manifest swapped shot ≡ good (one_line shot.path s shot.truncated)))
unfolding kind_in IsLost fits
diff_manifest-confined_example =
    diff_manifest-confined shot (dir 493) refl refl swapped dangling (inr (link, refl, refl)) refl

diff_manifest-paths_example :
    (r : DiffReport) × (diff_manifest disk shot ≡ good r)
    × (map (λ l. l.path) r.lines ≡ map (λ e. abs_of shot.path e.rel) shot.entries)
    × (r.partial ≡ shot.truncated)
unfolding kind_in fits
diff_manifest-paths_example =
    diff_manifest-paths disk shot (dir 493) refl refl (inr (directory, refl, refl))

disk-unchanged :
    diff_manifest disk shot
    ≡ good (record {
      lines =
          record { path = work; status = unchanged }
          ∷ record { path = root_dir ∷ normal "work" ∷ normal "a" ∷ []; status = unchanged }
          ∷ [];
      partial = false;
    })
unfolding diff_manifest
disk-unchanged = refl
