-- ===== src/Inspect/Diff.antt =====
-- crates/doover-core/src/inspect.rs: statuses, the report and `diff_manifest`.
use doover.Base.{
  String, str_eq, Bool, true, false, Option, none, some, List, [], ◌∷◌, find, if◌then◌else◌,
}
use doover.Paths.{FilePath}
use doover.Snapshot.Manifest.{absent, EntryKind, file, dir, symlink, fifo, Entry, Manifest}
use doover.Snapshot.Errors.{Answer, good, bad}
use doover.Snapshot.Same.{path_eq, root_eq}
use doover.Resolver.Lexical.{join_path}
use doover.Inspect.Live.{
  FileType, regular, directory, link, pipe, found, not_found, stat_failed, Live, hash_file,
}

pub data PathStatus : Type 0 where
  unchanged modified missing type_changed created unreadable : PathStatus

unfoldable pub as_str : PathStatus → String
as_str unchanged = "unchanged"
as_str modified = "modified"
as_str missing = "missing"
as_str type_changed = "type-changed"
as_str created = "created"
as_str unreadable = "unreadable"

pub record DiffLine : Type 0 where
  pub path : FilePath
  pub status : PathStatus

pub record DiffReport : Type 0 where
  pub lines : List DiffLine
  pub partial : Bool

unfoldable pub compared : Bool → PathStatus
compared true = unchanged
compared false = modified

-- The status of what is there.
unfoldable pub status_of_found : Live → FilePath → FileType → EntryKind → PathStatus
unfolding hash_file compared path_eq
status_of_found live abs regular (file hash len mode mtime xattrs) = elim (hash_file live abs) [
  | good h ↦ compared (str_eq h hash)
  | bad e ↦ unreadable
]
status_of_found live abs directory (dir mode) = unchanged
status_of_found live abs link (symlink target) = elim (live.read_link abs) [
  | some t ↦ compared (path_eq t target)
  | none ↦ unreadable
]
status_of_found live abs pipe (fifo mode) = unchanged
status_of_found live abs _ _ = type_changed

unfoldable pub status_of_entry : Live → FilePath → EntryKind → Answer PathStatus
unfolding status_of_found
status_of_entry live abs kind = elim (live.lstat abs) [
  | not_found ↦ good missing
  | stat_failed ↦ good unreadable
  | found ft ↦ good (status_of_found live abs ft kind)
]

unfoldable pub status_of_absent : Live → FilePath → PathStatus
status_of_absent live path = elim (live.lstat path) [
  | found ft ↦ created
  | not_found ↦ unchanged
  | stat_failed ↦ unchanged
]

abbrev pub is_root : FilePath → Bool
is_root [] = true
is_root (c ∷ p) = false

unfoldable pub abs_of : FilePath → FilePath → FilePath
unfolding join_path
abs_of path rel = if is_root rel then path else join_path path rel

unfoldable pub kind_in : List Entry → Option EntryKind
kind_in entries = elim (find (λ e. is_root e.rel) entries) [ some e ↦ some e.kind | none ↦ none ]

unfoldable pub is_identity_lost : PathStatus → Bool
is_identity_lost type_changed = true
is_identity_lost missing = true
is_identity_lost _ = false

unfoldable pub diff_entries : Live → FilePath → List Entry → Answer (List DiffLine)
unfolding status_of_entry abs_of
diff_entries live path [] = good []
diff_entries live path (e ∷ es) =
    let rest = diff_entries live path es in
    elim (status_of_entry live (abs_of path e.rel) e.kind) [
      | bad error ↦ bad error
      | good status ↦ elim rest [
        | bad error ↦ bad error
        | good lines ↦ good (record { path = abs_of path e.rel; status = status } ∷ lines)
      ]
    ]

unfoldable pub one_line : FilePath → PathStatus → Bool → DiffReport
one_line path status partial = record {
  lines = record { path = path; status = status } ∷ [];
  partial = partial;
}

-- The report on all entries.
unfoldable pub diff_all : Live → Manifest → Answer DiffReport
unfolding diff_entries
diff_all live m = elim (diff_entries live m.path m.entries) [
  | good lines ↦ good (record { lines = lines; partial = m.truncated })
  | bad e ↦ bad e
]

unfoldable pub diff_manifest : Live → Manifest → Answer DiffReport
unfolding root_eq status_of_absent kind_in status_of_entry is_identity_lost one_line diff_all
diff_manifest live m =
    if root_eq m.root absent
    then good (one_line m.path (status_of_absent live m.path) m.truncated)
    else elim (kind_in m.entries) [
      | none ↦ diff_all live m
      | some kind ↦ elim (status_of_entry live m.path kind) [
        | bad e ↦ bad e
        | good status ↦
            if is_identity_lost status
            then good (one_line m.path status m.truncated)
            else diff_all live m
      ]
    ]
