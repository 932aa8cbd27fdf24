-- ===== src/Hooks/Protected.antt =====
-- An event without gaps has a complete capture of each of its targets.
use doover.Base.{
  ℕ, suc, ◌+◌, Bool, true, false, not, Option, List, [], ◌∷◌, ◌++◌, ◌≡◌, ◌≢◌, refl, sym, ap, ◌∙◌,
  inl, inr, length, arith, All, Bool-cases, any,
}
use doover.Paths.{FilePath}
use doover.Snapshot.Manifest.{Manifest}
use doover.Snapshot.Errors.{good, Answer-cases}
use doover.Journal.Records.{pre, Db, ok, Result-cases, ok-injective, ManifestRow}
use doover.Journal.Tables.{has_id}
use doover.Journal.Writes.{add_note, attach_manifest}
use doover.Hooks.Events.{HookConfig, slice_limits}
use doover.Hooks.Io.{
  Gap, HookIo, attempt, attempt-ok, note_call, attach_call, truncated_at_limits, partial_capture,
  not_journaled, capture_failed,
}
use doover.Hooks.Pre.{
  Capture, is_empty, note_gap, note_gap_if, attach_pre, keep_capture, capture_target, capture_all,
}

snoc-nonempty {ℓ} : {A : Type ℓ} (xs : List A) (x : A) → xs ++ (x ∷ []) ≢ []
snoc-nonempty [] x h = cc
snoc-nonempty (y ∷ xs) x h = cc

empty-nil {ℓ} : {A : Type ℓ} (xs : List A) → not (is_empty xs) ≡ false → xs ≡ []
empty-nil [] h = refl
empty-nil (x ∷ xs) h = cc

pub append_nil {ℓ} : {A : Type ℓ} (xs : List A) → xs ++ [] ≡ xs
append_nil [] = refl
append_nil (x ∷ xs) = ap (λ ys. x ∷ ys) (append_nil xs)

append_assoc {ℓ} : {A : Type ℓ} (xs ys zs : List A) → (xs ++ ys) ++ zs ≡ xs ++ (ys ++ zs)
append_assoc [] ys zs = refl
append_assoc (x ∷ xs) ys zs = ap (λ us. x ∷ us) (append_assoc xs ys zs)

attach_manifest-row :
    (action : ℕ) (m : Manifest) (db db' : Db)
    → attach_manifest action m pre db ≡ ok db'
    → (row : ManifestRow) × (row.action_id ≡ action)
      × (row.role ≡ pre)
      × (row.manifest ≡ m)
      × (db'.manifests ≡ db.manifests ++ (row ∷ []))
unfolding attach_manifest
attach_manifest-row action m db db' h = elim (Bool-cases (any db.actions (has_id action))) [
  | inl known ↦
      let same = ok-injective _ db' (rw known at h) in
      (_, refl, refl, refl, sym (ap (λ (d : Db). d.manifests) same))
  | inr missing ↦ cc (rw missing at h)
]

-- The rows of whole captures without a warning, recorded as an action's state before.
unfoldable pub ArePre : ℕ → List ManifestRow → Type 0
ArePre action = All (λ (m : ManifestRow).
    (m.action_id ≡ action)
    × (m.role ≡ pre)
    × (m.manifest.truncated ≡ false)
    × (m.manifest.warnings ≡ []))

module _ {World : Type 0} (io : HookIo World) where
  pub note_gap-loud :
      (action : ℕ) (gap : Gap) (s : Capture World) → (note_gap io action gap s).gaps ≢ []
  unfolding note_gap
  note_gap-loud action gap s =
      elim (Result-cases (attempt io note_call s.world (add_note action (io.gap_text gap) s.db))) [
        | inl (db, e) ↦ rw (e, note_gap) (snoc-nonempty s.gaps gap)
        | inr (failure, e) ↦ rw (e, note_gap) (snoc-nonempty s.gaps gap)
      ]

  note_gap_if-quiet :
      (b : Bool) (action : ℕ) (gap : Gap) (s : Capture World)
      → (note_gap_if io b action gap s).gaps ≡ []
      → (b ≡ false) × (note_gap_if io b action gap s ≡ s)
  unfolding note_gap_if
  note_gap_if-quiet true action gap s h = absurd (note_gap-loud action gap s h)
  note_gap_if-quiet false action gap s h = (refl, refl)

  attach_pre-quiet :
      (action : ℕ) (path : FilePath) (m : Manifest) (s : Capture World)
      → (attach_pre io action path m s).gaps ≡ []
      → (db : Db) × (attach_manifest action m pre s.db ≡ ok db)
        × (attach_pre io action path m s ≡ record s { db = db; attached = suc s.attached })
  unfolding attach_pre
  attach_pre-quiet action path m s h =
      elim (Result-cases (attempt io attach_call s.world (attach_manifest action m pre s.db))) [
        | inl (db, e) ↦ (db, attempt-ok io attach_call s.world _ e, rw (e, attach_pre) refl)
        | inr (failure, e) ↦
            absurd (note_gap-loud action (not_journaled path failure) s (rw (e, attach_pre) at h))
      ]

  keep_capture-quiet :
      (action : ℕ) (path : FilePath) (m : Manifest) (s : Capture World)
      → (keep_capture io action path m s).gaps ≡ []
      → (m.truncated ≡ false)
        × (m.warnings ≡ [])
        × (s.gaps ≡ [])
        × (db : Db) × (attach_manifest action m pre s.db ≡ ok db)
        × (keep_capture io action path m s ≡ record s { db = db; attached = suc s.attached })
  unfolding keep_capture
  keep_capture-quiet action path m s h =
      let cut = note_gap_if io m.truncated action (truncated_at_limits path m.skipped) s in
      let warned =
        note_gap_if io (not (is_empty m.warnings)) action (partial_capture path m.warnings) cut in
      let (db, e, eq) = attach_pre-quiet action path m warned h in
      let still : warned.gaps ≡ [] = sym (ap (λ (c : Capture World). c.gaps) eq) ∙ h in
      let (unwarned, e2) =
        note_gap_if-quiet (not (is_empty m.warnings)) action (partial_capture path m.warnings) cut
          still in
      let before : cut.gaps ≡ [] = sym (ap (λ (c : Capture World). c.gaps) e2) ∙ still in
      let (whole, e1) =
        note_gap_if-quiet m.truncated action (truncated_at_limits path m.skipped) s before in
      let same : warned ≡ s = e2 ∙ e1 in
      (
        whole,
        empty-nil m.warnings unwarned,
        sym (ap (λ (c : Capture World). c.gaps) e1) ∙ before,
        db,
        ap (λ (c : Capture World). attach_manifest action m pre c.db) (sym same) ∙ e,
        eq ∙ ap (λ (c : Capture World). record c { db = db; attached = suc c.attached }) same,
      )

  -- A target whose capture is whole and attached to the action, and what it leaves.
  pub record IsCaptured (cfg : HookConfig) (deadline : Option ℕ) (action : ℕ) (path : FilePath)
      (s s' : Capture World) : Type 0 where
    pub manifest : Manifest
    pub taken :
        (io.snapshot_scoped path (slice_limits cfg.limits deadline (io.clock s.world)) s.world).0
        ≡ good manifest
    pub whole : manifest.truncated ≡ false
    pub unwarned : manifest.warnings ≡ []
    pub recorded : attach_manifest action manifest pre s.db ≡ ok s'.db
    pub counted : s'.attached ≡ suc s.attached
    pub quiet : s.gaps ≡ []

  capture_target-IsCaptured :
      (cfg : HookConfig) (deadline : Option ℕ) (action : ℕ) (path : FilePath) (s : Capture World)
      → (capture_target io cfg deadline action path s).gaps ≡ []
      → IsCaptured cfg deadline action path s (capture_target io cfg deadline action path s)
  unfolding capture_target
  capture_target-IsCaptured cfg deadline action path s h =
      let shot =
        io.snapshot_scoped path (slice_limits cfg.limits deadline (io.clock s.world)) s.world in
      elim (Answer-cases shot.0) [
        | inr (failure, e) ↦ absurd (
            note_gap-loud action (capture_failed path failure) (record s { world = shot.1 })
              (rw (e, capture_target) at h))
        | inl (m, e) ↦
            let (whole, unwarned, quiet, db, recorded, eq) =
              keep_capture-quiet action path m (record s { world = shot.1 })
                (rw (e, capture_target) at h) in
            let after : capture_target io cfg deadline action path s
                ≡ record s { world = shot.1; db = db; attached = suc s.attached } =
              rw (e, capture_target) eq in
            record {
              manifest = m;
              taken = e;
              whole = whole;
              unwarned = unwarned;
              recorded = recorded ∙ ap (λ (c : Capture World). ok c.db) (sym after);
              counted = ap (λ (c : Capture World). c.attached) after;
              quiet = quiet;
            }
      ]

  -- The targets are captured one after the other.
  unfoldable pub AreCaptured : HookConfig → Option ℕ → ℕ → List FilePath → Capture World → Type 0
  AreCaptured cfg deadline action [] s = Unit
  AreCaptured cfg deadline action (p ∷ ps) s =
      IsCaptured cfg deadline action p s (capture_target io cfg deadline action p s)
      × AreCaptured cfg deadline action ps (capture_target io cfg deadline action p s)

  pub capture_all-AreCaptured :
      (cfg : HookConfig) (deadline : Option ℕ) (action : ℕ) (ps : List FilePath) (s : Capture World)
      → (capture_all io cfg deadline action ps s).gaps ≡ []
      → (s.gaps ≡ [])
        × ((capture_all io cfg deadline action ps s).attached ≡ s.attached + length ps)
        × AreCaptured cfg deadline action ps s
  unfolding capture_all AreCaptured
  capture_all-AreCaptured cfg deadline action [] s h = (h, omega arith, tt)
  capture_all-AreCaptured cfg deadline action (p ∷ ps) s h =
      let (before, sum, later) =
        capture_all-AreCaptured cfg deadline action ps (capture_target io cfg deadline action p s)
          h in
      let here = capture_target-IsCaptured cfg deadline action p s before in
      let one = here.counted in (here.quiet, omega (arith, sum, one), (here, later))

  -- Captures that leave no gap add one such row for each target, and no other.
  pub AreCaptured-rows :
      (cfg : HookConfig) (deadline : Option ℕ) (action : ℕ) (ps : List FilePath) (s : Capture World)
      → AreCaptured cfg deadline action ps s
      → (rows : List ManifestRow) × (length rows ≡ length ps)
        × ArePre action rows
        × ((capture_all io cfg deadline action ps s).db.manifests ≡ s.db.manifests ++ rows)
  unfolding capture_all AreCaptured ArePre
  AreCaptured-rows cfg deadline action [] s h = ([], refl, tt, sym (append_nil s.db.manifests))
  AreCaptured-rows cfg deadline action (p ∷ ps) s (here, later) =
      let next = capture_target io cfg deadline action p s in
      let (rows, sum, pres, eq) = AreCaptured-rows cfg deadline action ps next later in
      let (row, named, role, kept, added) =
        attach_manifest-row action here.manifest s.db next.db here.recorded in
      (
        row ∷ rows,
        ap suc sum,
        (
          (
            named,
            role,
            ap (λ (m : Manifest). m.truncated) kept ∙ here.whole,
            ap (λ (m : Manifest). m.warnings) kept ∙ here.unwarned,
          ),
          pres,
        ),
        eq
            ∙ ap (λ (ms : List ManifestRow). ms ++ rows) added
            ∙ append_assoc s.db.manifests (row ∷ []) rows,
      )
