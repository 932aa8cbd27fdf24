-- ===== src/Inspect/Agreement.antt =====
-- When a report finds nothing changed.
use doover.Base.{
  Bool, true, false, none, some, List, [], ◌∷◌, ◌≡◌, ◌≢◌, ◌↔◌, ◌⊎◌, inl, inr, refl, All, str_eq,
  eq_iff, Bool-cases, ap, sym, ◌∙◌, Option-cases, String,
}
use mathlib.Core.Option.{some-injective}
use doover.Paths.{FilePath}
use doover.Snapshot.Manifest.{
  Root, present, absent, EntryKind, file, dir, symlink, fifo, Entry, Manifest,
}
use doover.Snapshot.Errors.{good, bad, Answer-cases}
use doover.Snapshot.Same.{path_eq}
use doover.Inspect.Live.{
  FileType, regular, directory, link, pipe, other, Stat, found, not_found, stat_failed, Live,
  hash_file,
}
use doover.Inspect.Diff.{
  PathStatus, unchanged, missing, unreadable, DiffLine, DiffReport, compared, status_of_found,
  status_of_entry, status_of_absent, is_root, abs_of, kind_in, is_identity_lost, diff_entries,
  one_line, diff_all, diff_manifest,
}

-- The path is of the recorded kind, with the recorded content or target.
pub Agrees : Live → FilePath → EntryKind → Type 0
Agrees live p (file hash len mode mtime xattrs) =
    (live.lstat p ≡ found regular) × (hash_file live p ≡ good hash)
Agrees live p (dir mode) = live.lstat p ≡ found directory
Agrees live p (symlink target) =
    (live.lstat p ≡ found link)
    × ((t : FilePath) × (live.read_link p ≡ some t) × (path_eq t target ≡ true))
Agrees live p (fifo mode) = live.lstat p ≡ found pipe

-- What was absent still is; or each recorded path agrees.
pub Matches : Live → Manifest → Type 0
Matches live m =
    ((m.root ≡ absent) × ((ft : FileType) → live.lstat m.path ≢ found ft))
    ⊎ ((m.root ≡ present) × All (λ e. Agrees live (abs_of m.path e.rel) e.kind) m.entries)

pub IsUnchanged : DiffLine → Type 0
IsUnchanged l = l.status ≡ unchanged

compared_iff : (b : Bool) → (compared b ≡ unchanged) ↔ (b ≡ true)
unfolding compared
compared_iff true = (λ h. refl, λ h. refl)
compared_iff false = (λ h. cc, λ h. cc)

good-injective {ℓ} : {A : Type ℓ} (x y : A) → good x ≡ good y → x ≡ y
good-injective x y h = cc

present-absent : present ≢ absent
present-absent h = cc

pub Root-cases : (r : Root) → (r ≡ absent) ⊎ (r ≡ present)
Root-cases absent = inl refl
Root-cases present = inr refl

pub Stat-cases :
    (s : Stat) → ((ft : FileType) × (s ≡ found ft)) ⊎ ((s ≡ not_found) ⊎ (s ≡ stat_failed))
Stat-cases (found ft) = inl (ft, refl)
Stat-cases not_found = inr (inl refl)
Stat-cases stat_failed = inr (inr refl)

module _ (live : Live) (p : FilePath) where
  file_iff :
      (hash : String)
      → live.lstat p ≡ found regular
      → (elim (hash_file live p) [ good h ↦ compared (str_eq h hash) | bad e ↦ unreadable ]
          ≡ unchanged)
        ↔ ((live.lstat p ≡ found regular) × (hash_file live p ≡ good hash))
  file_iff hash e = elim (Answer-cases (hash_file live p)) [
    | inl (h, read) ↦ rw read (
      λ same. (e, ap good ((eq_iff h hash).0 ((compared_iff (str_eq h hash)).0 same))),
      λ (k, same).
          (compared_iff (str_eq h hash)).1 ((eq_iff h hash).1 (good-injective h hash same)),
    )
    | inr (error, failed) ↦ rw failed (λ h. cc, λ h. cc)
  ]

  link_iff :
      (target : FilePath)
      → live.lstat p ≡ found link
      → (elim (live.read_link p) [ some t ↦ compared (path_eq t target) | none ↦ unreadable ]
          ≡ unchanged)
        ↔ ((live.lstat p ≡ found link)
            × ((t : FilePath) × (live.read_link p ≡ some t) × (path_eq t target ≡ true)))
  link_iff target e = elim (Option-cases (live.read_link p)) [
    | inl failed ↦ rw failed (λ h. cc, λ h. cc)
    | inr (t, read) ↦ rw read (
      λ same. (e, (t, refl, (compared_iff (path_eq t target)).0 same)),
      λ (k, (u, e', same)). (compared_iff (path_eq t target)).1 (rw (some-injective t u e') same),
    )
  ]

  status_of_found_iff :
      (ft : FileType) (kind : EntryKind)
      → live.lstat p ≡ found ft
      → (status_of_found live p ft kind ≡ unchanged) ↔ Agrees live p kind
  unfolding status_of_found Agrees
  status_of_found_iff regular (file hash len mode mtime xattrs) e = file_iff hash e
  status_of_found_iff regular (dir mode) e = (λ h. cc, λ h. cc)
  status_of_found_iff regular (symlink target) e = (λ h. cc, λ h. cc)
  status_of_found_iff regular (fifo mode) e = (λ h. cc, λ h. cc)
  status_of_found_iff directory (file hash len mode mtime xattrs) e = (λ h. cc, λ h. cc)
  status_of_found_iff directory (dir mode) e = (λ h. e, λ h. refl)
  status_of_found_iff directory (symlink target) e = (λ h. cc, λ h. cc)
  status_of_found_iff directory (fifo mode) e = (λ h. cc, λ h. cc)
  status_of_found_iff link (file hash len mode mtime xattrs) e = (λ h. cc, λ h. cc)
  status_of_found_iff link (dir mode) e = (λ h. cc, λ h. cc)
  status_of_found_iff link (symlink target) e = link_iff target e
  status_of_found_iff link (fifo mode) e = (λ h. cc, λ h. cc)
  status_of_found_iff pipe (file hash len mode mtime xattrs) e = (λ h. cc, λ h. cc)
  status_of_found_iff pipe (dir mode) e = (λ h. cc, λ h. cc)
  status_of_found_iff pipe (symlink target) e = (λ h. cc, λ h. cc)
  status_of_found_iff pipe (fifo mode) e = (λ h. e, λ h. refl)
  status_of_found_iff other (file hash len mode mtime xattrs) e = (λ h. cc, λ h. cc)
  status_of_found_iff other (dir mode) e = (λ h. cc, λ h. cc)
  status_of_found_iff other (symlink target) e = (λ h. cc, λ h. cc)
  status_of_found_iff other (fifo mode) e = (λ h. cc, λ h. cc)

  -- A path agrees exactly if its status is that nothing changed, and it has a status.
  pub status_of_entry_iff :
      (kind : EntryKind)
      → (s : PathStatus) × (status_of_entry live p kind ≡ good s)
        × ((s ≡ unchanged) ↔ Agrees live p kind)
  unfolding status_of_entry Agrees
  status_of_entry_iff kind = elim (Stat-cases (live.lstat p)) [
    | inl (ft, e) ↦ (
      status_of_found live p ft kind,
      rw (e, status_of_entry) refl,
      status_of_found_iff ft kind e,
    )
    | inr (inl e) ↦ (
      missing,
      rw (e, status_of_entry) refl,
      (λ h. cc, λ a. absurd (gone kind not_found e (λ ft h. cc) a)),
    )
    | inr (inr e) ↦ (
      unreadable,
      rw (e, status_of_entry) refl,
      (λ h. cc, λ a. absurd (gone kind stat_failed e (λ ft h. cc) a)),
    )
  ]
    where
      gone :
          (kind : EntryKind) (s : Stat)
          → live.lstat p ≡ s
          → ((ft : FileType) → s ≢ found ft)
          → ¬ (Agrees live p kind)
      gone (file hash len mode mtime xattrs) s e n (a, b) = n regular (sym e ∙ a)
      gone (dir mode) s e n a = n directory (sym e ∙ a)
      gone (symlink target) s e n (a, b) = n link (sym e ∙ a)
      gone (fifo mode) s e n a = n pipe (sym e ∙ a)

  status_of_absent_iff :
      (status_of_absent live p ≡ unchanged) ↔ ((ft : FileType) → live.lstat p ≢ found ft)
  unfolding status_of_absent
  status_of_absent_iff = elim (Stat-cases (live.lstat p)) [
    | inl (ft, e) ↦ rw (e, status_of_absent) (λ h. cc, λ n. absurd (n ft refl))
    | inr (inl e) ↦ rw (e, status_of_absent) (λ h ft k. cc, λ n. refl)
    | inr (inr e) ↦ rw (e, status_of_absent) (λ h ft k. cc, λ n. refl)
  ]

pub kind_in-some :
    (live : Live) (path : FilePath) (es : List Entry) (kind : EntryKind)
    → kind_in es ≡ some kind
    → All (λ e. Agrees live (abs_of path e.rel) e.kind) es
    → Agrees live path kind
unfolding kind_in abs_of
kind_in-some live path [] kind h a = cc
kind_in-some live path (e ∷ es) kind h (a, rest) = elim (Bool-cases (is_root e.rel)) [
  | inl at ↦ rw (some-injective e.kind kind (rw (at, kind_in) at h)) at (rw (at, abs_of) at a)
  | inr below ↦ kind_in-some live path es kind (rw (below, kind_in) at h) rest
]

diff_entries_iff :
    (live : Live) (path : FilePath) (es : List Entry)
    → (lines : List DiffLine) × (diff_entries live path es ≡ good lines)
      × (All IsUnchanged lines ↔ All (λ e. Agrees live (abs_of path e.rel) e.kind) es)
unfolding diff_entries IsUnchanged
diff_entries_iff live path [] = ([], refl, (λ h. h, λ h. h))
diff_entries_iff live path (e ∷ es) =
    let (s, judged, this) = status_of_entry_iff live (abs_of path e.rel) e.kind in
    let (lines, read, later) = diff_entries_iff live path es in
    (
      record { path = abs_of path e.rel; status = s } ∷ lines,
      rw (judged, read, diff_entries) refl,
      (λ (h, hs). (this.0 h, later.0 hs), λ (a, rest). (this.1 a, later.1 rest)),
    )

module _ (live : Live) (m : Manifest) where
  diff_all_iff :
      (m.root ≡ present)
      → (r : DiffReport) × (diff_all live m ≡ good r) × (All IsUnchanged r.lines ↔ Matches live m)
  unfolding diff_all Matches
  diff_all_iff there =
      let (lines, read, same) = diff_entries_iff live m.path m.entries in
      (
        record { lines = lines; partial = m.truncated },
        rw (read, diff_all) refl,
        (
          λ h. inr (there, same.0 h),
          λ c. elim c [
            | inl (gone, k) ↦ absurd (present-absent (sym there ∙ gone))
            | inr (k, a) ↦ same.1 a
          ],
        ),
      )

  -- A report always results. All its lines say that nothing changed exactly if the recorded path was
  -- absent and still is, as far as one can see, or was present and each recorded entry is of the
  -- recorded kind, with the recorded content or target; what appeared beside them does not count.
  pub diff_manifest-Matches :
      (r : DiffReport) × (diff_manifest live m ≡ good r)
      × (All IsUnchanged r.lines ↔ Matches live m)
  unfolding diff_manifest Matches one_line IsUnchanged is_identity_lost
  diff_manifest-Matches = elim (Root-cases m.root) [
    | inl gone ↦ (
      one_line m.path (status_of_absent live m.path) m.truncated,
      rw (gone, diff_manifest) refl,
      (
        λ (h, u). inl (gone, (status_of_absent_iff live m.path).0 h),
        λ c. elim c [
          | inl (k, n) ↦ ((status_of_absent_iff live m.path).1 n, tt)
          | inr (k, a) ↦ absurd (present-absent (sym k ∙ gone))
        ],
      ),
    )
    | inr there ↦ elim (Option-cases (kind_in m.entries)) [
      | inl bare ↦
          let (r, read, same) = diff_all_iff there in
          (r, rw (there, bare, diff_manifest) read, same)
      | inr (kind, at) ↦
          let (s, judged, agrees) = status_of_entry_iff live m.path kind in
          elim (Bool-cases (is_identity_lost s)) [
            | inl lost ↦ (
              one_line m.path s m.truncated,
              rw (there, at, diff_manifest) (rw (judged, lost) refl),
              (
                λ (h, u). cc (rw (h, is_identity_lost) at lost),
                λ c. elim c [
                  | inl (k, n) ↦ absurd (present-absent (sym there ∙ k))
                  | inr (k, a) ↦ (agrees.1 (kind_in-some live m.path m.entries kind at a), tt)
                ],
              ),
            )
            | inr kept ↦
                let (r, read, same) = diff_all_iff there in
                (r, rw (there, at, diff_manifest) (rw (judged, kept) read), same)
          ]
    ]
  ]
