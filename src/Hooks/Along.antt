-- ===== src/Hooks/Along.antt =====
-- What notes and attached manifests keep of a journal, the captures of a pre event keep.
use doover.Base.{
  ℕ, String, ◌≡◌, Bool, true, false, not, Option, List, [], ◌∷◌, inl, inr, Option-cases,
}
use doover.Paths.{FilePath}
use doover.Snapshot.Manifest.{Manifest}
use doover.Snapshot.Errors.{Answer-cases}
use doover.Journal.Records.{ManifestRole, Db, ok, pre, Result-cases}
use doover.Journal.Writes.{add_note, attach_manifest}
use doover.Hooks.Events.{HookConfig, slice_limits, hook_deadline}
use doover.Hooks.Io.{
  Gap, HookIo, attempt, attempt-ok, note_call, attach_call, store_closed, truncated_at_limits,
  partial_capture, not_journaled, capture_failed,
}
use doover.Hooks.Pre.{
  Capture, is_empty, note_gap, note_gap_if, attach_pre, keep_capture, capture_target, capture_all,
  capture_targets,
}

module _ {World : Type 0} (io : HookIo World) (P : Db → Type 0)
    (noted : (action : ℕ) (text : String) (db db' : Db)
      → P db
      → add_note action text db ≡ ok db'
      → P db')
    (attached : (action : ℕ) (m : Manifest) (role : ManifestRole) (db db' : Db)
      → P db
      → attach_manifest action m role db ≡ ok db'
      → P db') where
  note_gap-P :
      (action : ℕ) (gap : Gap) (s : Capture World) → P s.db → P (note_gap io action gap s).db
  unfolding note_gap
  note_gap-P action gap s v =
      elim (Result-cases (attempt io note_call s.world (add_note action (io.gap_text gap) s.db))) [
        | inl (db, e) ↦
            rw (e, note_gap)
              (noted action (io.gap_text gap) s.db db v (attempt-ok io note_call s.world _ e))
        | inr (failure, e) ↦ rw (e, note_gap) v
      ]

  note_gap_if-P :
      (b : Bool) (action : ℕ) (gap : Gap) (s : Capture World)
      → P s.db
      → P (note_gap_if io b action gap s).db
  unfolding note_gap_if
  note_gap_if-P true action gap s v = note_gap-P action gap s v
  note_gap_if-P false action gap s v = v

  attach_pre-P :
      (action : ℕ) (path : FilePath) (m : Manifest) (s : Capture World)
      → P s.db
      → P (attach_pre io action path m s).db
  unfolding attach_pre
  attach_pre-P action path m s v =
      elim (Result-cases (attempt io attach_call s.world (attach_manifest action m pre s.db))) [
        | inl (db, e) ↦
            rw (e, attach_pre)
              (attached action m pre s.db db v (attempt-ok io attach_call s.world _ e))
        | inr (failure, e) ↦ rw (e, attach_pre) (note_gap-P action (not_journaled path failure) s v)
      ]

  keep_capture-P :
      (action : ℕ) (path : FilePath) (m : Manifest) (s : Capture World)
      → P s.db
      → P (keep_capture io action path m s).db
  unfolding keep_capture
  keep_capture-P action path m s v =
      let cut = note_gap_if io m.truncated action (truncated_at_limits path m.skipped) s in
      let warned =
        note_gap_if io (not (is_empty m.warnings)) action (partial_capture path m.warnings) cut in
      attach_pre-P action path m warned (
        note_gap_if-P (not (is_empty m.warnings)) action (partial_capture path m.warnings) cut
          (note_gap_if-P m.truncated action (truncated_at_limits path m.skipped) s v))

  capture_target-P :
      (cfg : HookConfig) (deadline : Option ℕ) (action : ℕ) (path : FilePath) (s : Capture World)
      → P s.db
      → P (capture_target io cfg deadline action path s).db
  unfolding capture_target
  capture_target-P cfg deadline action path s v =
      let shot =
        io.snapshot_scoped path (slice_limits cfg.limits deadline (io.clock s.world)) s.world in
      elim (Answer-cases shot.0) [
        | inl (m, e) ↦
            rw (e, capture_target) (keep_capture-P action path m (record s { world = shot.1 }) v)
        | inr (failure, e) ↦
            rw (e, capture_target)
              (note_gap-P action (capture_failed path failure) (record s { world = shot.1 }) v)
      ]

  capture_all-P :
      (cfg : HookConfig) (deadline : Option ℕ) (action : ℕ) (ps : List FilePath) (s : Capture World)
      → P s.db
      → P (capture_all io cfg deadline action ps s).db
  unfolding capture_all
  capture_all-P cfg deadline action [] s v = v
  capture_all-P cfg deadline action (p ∷ ps) s v =
      capture_all-P cfg deadline action ps (capture_target io cfg deadline action p s)
        (capture_target-P cfg deadline action p s v)

  pub capture_targets-P :
      (cfg : HookConfig) (action : ℕ) (ps : List FilePath) (s : Capture World)
      → P s.db
      → P (capture_targets io cfg action ps s).db
  unfolding capture_targets
  capture_targets-P cfg action [] s v = v
  capture_targets-P cfg action (p ∷ ps) s v =
      let opened = io.open_store s.world in
      elim (Option-cases opened.0) [
        | inl ready ↦
            rw (ready, capture_targets)
              (capture_all-P cfg (hook_deadline cfg.limits (io.clock opened.1)) action (p ∷ ps)
                (record s { world = opened.1 }) v)
        | inr (failure, e) ↦
            rw (e, capture_targets)
              (note_gap-P action (store_closed failure) (record s { world = opened.1 }) v)
      ]
