-- ===== src/Inspect/Impostor.antt =====
-- What a report is about: the root alone where it is no longer what it was, else every entry.
use doover.Base.{
  Bool, true, false, some, List, [], ◌∷◌, ◌≡◌, ◌≢◌, ◌⊎◌, inl, inr, refl, ◌∙◌, sym, ap, map, subst,
  Option-cases, str_eq,
}
use doover.Paths.{FilePath}
use doover.Snapshot.Manifest.{present, EntryKind, file, dir, symlink, fifo, Entry, Manifest}
use doover.Snapshot.Errors.{good, Answer-cases}
use doover.Snapshot.Same.{path_eq}
use doover.Inspect.Live.{
  FileType, regular, directory, link, pipe, Stat, found, not_found, stat_failed, Live, hash_file,
}
use doover.Inspect.Diff.{
  PathStatus, unchanged, missing, type_changed, DiffLine, DiffReport, compared, status_of_found,
  status_of_entry, abs_of, kind_in, is_identity_lost, diff_entries, one_line, diff_all,
  diff_manifest,
}
use doover.Inspect.Agreement.{status_of_entry_iff}

unfoldable pub fits : FileType → EntryKind → Bool
fits regular (file hash len mode mtime xattrs) = true
fits directory (dir mode) = true
fits link (symlink target) = true
fits pipe (fifo mode) = true
fits _ _ = false

compared-kept : (b : Bool) → is_identity_lost (compared b) ≡ false
unfolding is_identity_lost compared
compared-kept true = refl
compared-kept false = refl

status_of_found-cases :
    (live : Live) (p : FilePath) (ft : FileType) (kind : EntryKind)
    → ((fits ft kind ≡ false) × (status_of_found live p ft kind ≡ type_changed))
      ⊎ ((fits ft kind ≡ true) × (is_identity_lost (status_of_found live p ft kind) ≡ false))
unfolding fits status_of_found is_identity_lost
status_of_found-cases live p regular (file hash len mode mtime xattrs) =
    elim (Answer-cases (hash_file live p)) [
      | inl (h, read) ↦ inr (refl, rw (read, status_of_found) (compared-kept (str_eq h hash)))
      | inr (e, failed) ↦ inr (refl, rw (failed, status_of_found) refl)
    ]
status_of_found-cases live p directory (dir mode) = inr (refl, refl)
status_of_found-cases live p link (symlink target) = elim (Option-cases (live.read_link p)) [
  | inl failed ↦ inr (refl, rw (failed, status_of_found) refl)
  | inr (t, read) ↦ inr (refl, rw (read, status_of_found) (compared-kept (path_eq t target)))
]
status_of_found-cases live p pipe (fifo mode) = inr (refl, refl)
status_of_found-cases live p _ _ = inl (refl, refl)

lost_status : Stat → PathStatus
lost_status not_found = missing
lost_status _ = type_changed

lost_status-loud : (s : Stat) → lost_status s ≢ unchanged
unfolding lost_status
lost_status-loud (found ft) h = cc
lost_status-loud not_found h = cc
lost_status-loud stat_failed h = cc

-- The root is gone, or something of another kind stands in its place.
unfoldable pub IsLost : Stat → EntryKind → Type 0
IsLost s kind = (s ≡ not_found) ⊎ ((ft : FileType) × (s ≡ found ft) × (fits ft kind ≡ false))

module _ (m : Manifest) (kind : EntryKind) (there : m.root ≡ present)
    (at : kind_in m.entries ≡ some kind) where
  diff_manifest-lost :
      (live : Live)
      → IsLost (live.lstat m.path) kind
      → diff_manifest live m ≡ good (one_line m.path (lost_status (live.lstat m.path)) m.truncated)
  unfolding diff_manifest IsLost lost_status is_identity_lost
  diff_manifest-lost live (inl gone) =
      rw (there, at, diff_manifest) (rw (gone, status_of_entry) refl)
  diff_manifest-lost live (inr (ft, e, odd)) = elim (status_of_found-cases live m.path ft kind) [
    | inl (k, s) ↦ rw (there, at, diff_manifest) (rw (e, status_of_entry) (rw s refl))
    | inr (k, s) ↦ cc
  ]

  -- Where a manifest with an entry for its root finds the root gone, or of another kind, the report is
  -- one line on the root that does not say that nothing changed; and any file system that has the same
  -- at that path gives the same report, so nothing behind the path is looked at.
  pub diff_manifest-confined :
      (live later : Live)
      → IsLost (live.lstat m.path) kind
      → later.lstat m.path ≡ live.lstat m.path
      → (diff_manifest later m ≡ diff_manifest live m)
        × ((s : PathStatus) × (s ≢ unchanged)
            × (diff_manifest live m ≡ good (one_line m.path s m.truncated)))
  diff_manifest-confined live later lost same = (
    diff_manifest-lost later (subst (λ s. IsLost s kind) (sym same) lost)
        ∙ ap (λ s. good (one_line m.path (lost_status s) m.truncated)) same
        ∙ sym (diff_manifest-lost live lost),
    (
      lost_status (live.lstat m.path),
      lost_status-loud (live.lstat m.path),
      diff_manifest-lost live lost,
    ),
  )

diff_entries-paths :
    (live : Live) (path : FilePath) (es : List Entry)
    → (lines : List DiffLine) × (diff_entries live path es ≡ good lines)
      × (map (λ l. l.path) lines ≡ map (λ e. abs_of path e.rel) es)
unfolding diff_entries
diff_entries-paths live path [] = ([], refl, refl)
diff_entries-paths live path (e ∷ es) =
    let (s, judged, agrees) = status_of_entry_iff live (abs_of path e.rel) e.kind in
    let (lines, read, same) = diff_entries-paths live path es in
    (
      record { path = abs_of path e.rel; status = s } ∷ lines,
      rw (judged, read, diff_entries) refl,
      ap (λ t. abs_of path e.rel ∷ t) same,
    )

-- Where a manifest with an entry for its root finds the root of the recorded kind, or cannot look at
-- it, the report has one line for each entry, on its path and in the order of the manifest, whatever
-- cannot be read; and it is partial exactly if the manifest was truncated.
pub diff_manifest-paths :
    (live : Live) (m : Manifest) (kind : EntryKind)
    → m.root ≡ present
    → kind_in m.entries ≡ some kind
    → (live.lstat m.path ≡ stat_failed)
      ⊎ ((ft : FileType) × (live.lstat m.path ≡ found ft) × (fits ft kind ≡ true))
    → (r : DiffReport) × (diff_manifest live m ≡ good r)
      × (map (λ l. l.path) r.lines ≡ map (λ e. abs_of m.path e.rel) m.entries)
      × (r.partial ≡ m.truncated)
unfolding diff_manifest is_identity_lost diff_all
diff_manifest-paths live m kind there at (inl hidden) =
    let (lines, read, same) = diff_entries-paths live m.path m.entries in
    (
      record { lines = lines; partial = m.truncated },
      rw (there, at, diff_manifest) (rw (hidden, status_of_entry) (rw (read, diff_all) refl)),
      same,
      refl,
    )
diff_manifest-paths live m kind there at (inr (ft, e, fit)) =
    let (lines, read, same) = diff_entries-paths live m.path m.entries in
    elim (status_of_found-cases live m.path ft kind) [
      | inl (k, s) ↦ cc
      | inr (k, kept) ↦ (
        record { lines = lines; partial = m.truncated },
        rw (there, at, diff_manifest)
            (rw (e, status_of_entry) (rw kept (rw (read, diff_all) refl))),
        same,
        refl,
      )
    ]
