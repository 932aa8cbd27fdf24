-- ===== src/Undo/Restore.antt =====
-- crates/doover-core/src/undo.rs: `execute` from the rollback points on.
use Prim.Native.String.{◌++◌ as ◌<>◌}
use doover.Base.{ℕ, suc, String, List, [], ◌∷◌, ◌++◌, length, map, take, if◌then◌else◌}
use doover.Paths.{FilePath}
use doover.Snapshot.Manifest.{Manifest}
use doover.Snapshot.Errors.{
  SnapshotError, io, corrupt_object, missing_object, unsafe_manifest_path, budget,
  restore_target_disturbed, restore_staging_preserved, restore_would_delete_home,
  restore_in_progress, good, bad, Store,
}
use doover.Journal.Records.{pre, ActionRecord, undone, Db, ok, err, status_eq}
use doover.Journal.Writes.{add_note, attach_manifest}
use doover.Journal.Undoing.{decimal, record_undo}
use doover.Journal.Runs.{after}
use doover.Undo.Types.{
  Message, of_store, Attempt, done, failed, UndoError, journal, snapshot, not_undoable, to_restore,
  no_rollback_point, partial_rolled_back, partial_inconsistent, Machine,
}

-- The texts of a path and of an error.
pub record Texts : Type 0 where
  pub display : FilePath → String
  pub show : SnapshotError → String

abbrev pub Failure : Type 0
Failure = FilePath × SnapshotError

-- `let _ = self.journal.add_note(..)`
unfoldable pub noted : ℕ → String → Db → Db
noted id text db = after db (add_note id text db)

unfoldable pub partial_error : FilePath → SnapshotError → List Failure → UndoError
partial_error path e [] = partial_rolled_back path e
partial_error path e (f ∷ fs) = partial_inconsistent path e (f ∷ fs)

module _ (texts : Texts) where
  unfoldable pub staging_note : String → FilePath → List FilePath → String
  unfolding decimal
  staging_note what staging remaining =
      what
      <> " FAILURE left live data in "
      <> texts.display staging
      <> " ("
      <> decimal (suc (length remaining)) (length remaining)
      <> " stranded entrie(s)); move it back manually — do not delete"

  unfoldable pub failure_note : Failure → String
  failure_note (path, e) =
      "rollback failure during failed undo: " <> texts.display path <> ": " <> texts.show e

  unfoldable pub note_failures : ℕ → List Failure → Db → Db
  note_failures id [] db = db
  note_failures id (f ∷ fs) db = note_failures id fs (noted id (failure_note f) db)

  -- A note for what an error left in its staging directory, if it did.
  unfoldable pub note_staging : String → ℕ → SnapshotError → Db → Db
  note_staging what id (restore_staging_preserved staging cause remaining) db =
      noted id (staging_note what staging remaining) db
  note_staging what id (io path source) db = db
  note_staging what id (corrupt_object hash) db = db
  note_staging what id (missing_object hash) db = db
  note_staging what id (unsafe_manifest_path rel) db = db
  note_staging what id (budget path) db = db
  note_staging what id (restore_target_disturbed path cause) db = db
  note_staging what id (restore_would_delete_home path) db = db
  note_staging what id restore_in_progress db = db

  -- What a failed restore is reported as, with its notes.
  unfoldable pub report_failure : ℕ → FilePath → List Failure → SnapshotError → Db → UndoError × Db
  report_failure id path failures e db =
      let partial = partial_error path e failures in
      elim e [
        | restore_staging_preserved staging cause remaining ↦ (
          snapshot (restore_staging_preserved staging cause remaining),
          note_failures id failures (noted id (staging_note "RESTORE" staging remaining) db),
        )
        | restore_target_disturbed where_at cause ↦
            (snapshot (restore_target_disturbed where_at cause), note_failures id failures db)
        | io where_at source ↦ (partial, db)
        | corrupt_object hash ↦ (partial, db)
        | missing_object hash ↦ (partial, db)
        | unsafe_manifest_path rel ↦ (partial, db)
        | budget where_at ↦ (partial, db)
        | restore_would_delete_home where_at ↦ (partial, db)
        | restore_in_progress ↦ (partial, db)
      ]

  module _ {World : Type 0} (store : Store World) (target : ActionRecord) where
    -- The current state of each path, complete or refused.
    unfoldable pub capture : List Manifest → World → Attempt (List Manifest) × World
    capture [] w = (done [], w)
    capture (m ∷ ms) w =
        let (answer, w1) = store.snapshot_rollback m.path w in
        let (rest, w2) = capture ms w1 in
        elim answer [
          | bad e ↦ (failed (snapshot e), w1)
          | good current ↦
              if current.truncated
              then (
                failed
                    (not_undoable target.id to_restore (no_rollback_point m.path current.warnings)),
                w1,
              )
              else (elim rest [ failed e ↦ failed e | done more ↦ done (current ∷ more) ], w2)
        ]

    -- The restores that undo what was restored so far.
    unfoldable pub roll_back : List Manifest → Machine World → List Failure × Machine World
    roll_back [] s = ([], s)
    roll_back (m ∷ ms) s =
        let (answer, w) = store.restore m s.world in
        elim answer [
          | good report ↦ roll_back ms (record s { world = w })
          | bad e ↦
              let (more, s') =
                roll_back ms
                  (record { db = note_staging "ROLLBACK" target.id e s.db; world = w }) in
              ((m.path, e) ∷ more, s')
        ]

    -- The restore loop, at an index into the rollback points.
    unfoldable pub restore_all :
        List Manifest → ℕ → List Manifest → Machine World → Attempt (List Message) × Machine World
    restore_all rollback i [] s = (done [], s)
    restore_all rollback i (m ∷ ms) s =
        let (answer, w) = store.restore m s.world in
        elim answer [
          | good report ↦
              let (rest, s') = restore_all rollback (suc i) ms (record s { world = w }) in
              (
                elim rest [
                  | failed e ↦ failed e
                  | done more ↦ done (map of_store report.warnings ++ more)
                ],
                s',
              )
          | bad e ↦
              let (failures, s') = roll_back (take i rollback) (record s { world = w }) in
              let (error, db) = report_failure target.id m.path failures e s'.db in
              (failed error, record s' { db = db })
        ]

-- The rollback points, stored with the new row.
unfoldable pub attach_all : ℕ → List Manifest → Db → Db
attach_all id [] db = db
attach_all id (m ∷ ms) db = attach_all id ms (after db (attach_manifest id m pre db))

-- The record of an undo that restored every path.
unfoldable pub record_done : ActionRecord → List Manifest → ℕ → Db → Attempt ℕ × Db
unfolding attach_all
record_done target rollback now db =
    elim (record_undo target.session_id target.id (status_eq target.status undone) now db) [
      | err e ↦ (failed (journal e), db)
      | ok (u, db') ↦ (done u, attach_all u rollback db')
    ]
