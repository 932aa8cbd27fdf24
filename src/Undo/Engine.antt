-- ===== src/Undo/Engine.antt =====
-- crates/doover-core/src/undo.rs: `execute`, `undo` and `redo`.
use doover.Base.{
  ℕ, Bool, true, false, not, none, some, List, [], ◌++◌, ◌&&◌, length, map, if◌then◌else◌,
}
use doover.Snapshot.Manifest.{Manifest}
use doover.Snapshot.Errors.{good, bad, Store}
use doover.Journal.Records.{
  pre, post, ActionRecord, undo, completed, undone, Db, status_eq, kind_eq,
}
use doover.Journal.Tables.{find_action}
use doover.Journal.Reads.{manifests_by_role, latest_redoable}
use doover.Undo.Types.{
  Selector, latest, action, Message, UndoReport, no_undoable_action, nothing_to_restore,
  not_undoable, conflicts, snapshot, to_redo, snapshots_nothing, no_post_state, background_command,
  not_an_undo, no_target, has_status, Attempt, done, failed, of_journal, Machine,
}
use doover.Undo.Select.{is_empty, world_matches, select_undo_target}
use doover.Undo.Check.{conflict_check, plan_line, scope_warnings}
use doover.Undo.Restore.{Texts, capture, restore_all, record_done}

-- A step that changes nothing, and then one that may.
abbrev pub then_do {ℓ κ} :
    {World : Type 0} {A : Type ℓ} {B : Type κ}
    → Attempt A
    → Machine World
    → (A → Attempt B × Machine World)
    → Attempt B × Machine World
then_do (done a) s f = f a
then_do (failed e) s f = (failed e, s)

unfoldable pub dry_report : ActionRecord → List Manifest → Bool → List Message → UndoReport
dry_report target ms forced warnings = record {
  target_action = target.id;
  recorded_as = none;
  paths_restored = 0;
  forced = forced;
  dry_run = true;
  already_satisfied = false;
  plan = map plan_line ms;
  warnings = warnings;
  restored_paths = [];
}

unfoldable pub done_report : ActionRecord → List Manifest → Bool → List Message → ℕ → UndoReport
done_report target ms forced warnings recorded = record {
  target_action = target.id;
  recorded_as = some recorded;
  paths_restored = length ms;
  forced = forced;
  dry_run = false;
  already_satisfied = false;
  plan = map plan_line ms;
  warnings = warnings;
  restored_paths = map (λ m. m.path) ms;
}

unfoldable pub satisfied_report : ActionRecord → Bool → UndoReport
satisfied_report target dry_run = record {
  target_action = target.id;
  recorded_as = none;
  paths_restored = 0;
  forced = false;
  dry_run = dry_run;
  already_satisfied = true;
  plan = [];
  warnings = [];
  restored_paths = [];
}

-- The undo that a redo reverts.
unfoldable pub select_redo_target : Selector → Db → Attempt ActionRecord
select_redo_target latest db = elim (latest_redoable db) [
  | none ↦ failed no_undoable_action
  | some r ↦ done r
]
select_redo_target (action id) db = of_journal (find_action db.actions id)

unfoldable pub check_redo : ActionRecord → Attempt ℕ
check_redo r =
    if not (kind_eq r.kind undo)
    then failed (not_undoable r.id to_redo not_an_undo)
    else if not (status_eq r.status completed)
    then failed (not_undoable r.id to_redo (has_status r.status))
    else elim r.target_action_id [
      | none ↦ failed (not_undoable r.id to_redo no_target)
      | some original ↦ done original
    ]

module _ {World : Type 0} (texts : Texts) (store : Store World) (now : ℕ) where
  -- From the rollback points to the record.
  unfoldable pub mutate :
      ActionRecord
      → List Manifest
      → Bool
      → List Message
      → Machine World
      → Attempt UndoReport × Machine World
  mutate target ms forced warnings s =
      let (captured, w) = capture texts store target ms s.world in
      then_do captured (record s { world = w })
        (λ rollback.
          let (restored, s1) =
            restore_all texts store target rollback 0 ms (record s { world = w }) in
          then_do restored s1 (λ more.
            let (recorded, db) = record_done target rollback now s1.db in
            then_do recorded (record s1 { db = db })
              (λ u.
                (done (done_report target ms forced (warnings ++ more) u), record s1 { db = db }))))

  -- What `execute` does once it has the lock, or needs none.
  unfoldable pub execute_locked :
      ActionRecord
      → List Manifest
      → List Manifest
      → Bool
      → Bool
      → Machine World
      → Attempt UndoReport × Machine World
  execute_locked target ms oracle force dry_run s =
      then_do (conflict_check store s.world force target.background oracle ms) s (λ notes.
        let clashes = not (is_empty notes.1) in
        let warnings = notes.0 ++ scope_warnings force target ms in
        if clashes && not force
        then (failed (conflicts notes.1), s)
        else if dry_run
        then (done (dry_report target ms clashes warnings), s)
        else mutate target ms clashes warnings s)

  -- The lock is held until `execute` returns, in whichever way.
  unfoldable pub execute :
      ActionRecord
      → List Manifest
      → List Manifest
      → Bool
      → Bool
      → Machine World
      → Attempt UndoReport × Machine World
  execute target ms oracle force true s = execute_locked target ms oracle force true s
  execute target ms oracle force false s =
      let (locked, w) = store.lock_restores s.world in
      elim locked [
        | bad e ↦ (failed (snapshot e), record s { world = w })
        | good _ ↦
            let (result, s') =
              execute_locked target ms oracle force false (record s { world = w }) in
            (result, record s' { world = store.unlock s'.world })
      ]

  unfoldable pub undo_action :
      Selector → Bool → Bool → Machine World → Attempt UndoReport × Machine World
  undo_action sel force dry_run s = then_do (select_undo_target store s.world sel s.db) s (λ target.
      then_do (of_journal (manifests_by_role target.id pre s.db)) s (λ before.
        if is_empty before
        then (failed (nothing_to_restore target.id (snapshots_nothing target.effect)), s)
        else if status_eq target.status undone && world_matches store s.world before
        then (done (satisfied_report target dry_run), s)
        else then_do (of_journal (manifests_by_role target.id post s.db)) s
            (λ after. execute target before after force dry_run s)))

  unfoldable pub redo_action :
      Selector → Bool → Bool → Machine World → Attempt UndoReport × Machine World
  redo_action sel force dry_run s = then_do (select_redo_target sel s.db) s (λ undo_row.
      then_do (check_redo undo_row) s (λ original_id.
        then_do (of_journal (manifests_by_role original_id post s.db)) s (λ after.
          if is_empty after
          then then_do (of_journal (find_action s.db.actions original_id)) s (λ original. (
            failed (
                nothing_to_restore original_id
                  (if original.background then background_command else no_post_state)),
            s,
          ))
          else then_do (of_journal (manifests_by_role original_id pre s.db)) s
              (λ before. execute undo_row after before force dry_run s))))
