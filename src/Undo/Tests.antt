-- ===== src/Undo/Tests.antt =====
-- The undo engine over a store that keeps one recorded state for each path.
use doover.Base.{ℕ, ◌≡◌, refl, ◌↔◌, true, false, none, some, List, [], ◌∷◌, ◌++◌, All}
use doover.Paths.{FilePath}
use doover.Snapshot.Manifest.{Manifest, absent, manifest_schema}
use doover.Snapshot.Errors.{good, Store}
use doover.Snapshot.Same.{
  find_path, component_eq, list_eq, entry_kind_eq, xattr_eq, same_state, path_eq, entry_eq, root_eq,
  describes_same_state, same_skipped, sort_by, insert_by, zip_all, path_leb,
}
use doover.Journal.Records.{ActionRecord, Db, pre, post}
use doover.Journal.Tables.{find_action, has_session, max_id, max_seq}
use doover.Journal.Undoing.{record_undo, is_blocked, check_depth, insert_undo}
use doover.Journal.Reads.{
  manifests_by_role, read_manifests, newest_first, may_be_undone, undo_candidates,
}
use doover.Journal.Tests.{removed, before, gone, journal, remove}
use doover.Journal.Runs.{Op, begin, start, attach, complete}
use doover.Undo.Types.{latest, action, restore_path, UndoReport, done, Machine}
use doover.Undo.Select.{
  is_skeleton, world_matches, pick_latest_undoable, is_target_of_scan, scan, is_in_force, is_file,
  restorability, restorability_from,
}
use doover.Undo.Restore.{Texts, capture, restore_all, record_done, attach_all}
use doover.Undo.Check.{conflict_check, oracle_notes, truncation_notes, scope_warnings, plan_line}
use doover.Undo.Engine.{execute, execute_locked, mutate, done_report, undo_action, redo_action}
use doover.Undo.DryRun.{Untouched, undo_action-dry_run}
use doover.Undo.Clear.{IsClear, execute-IsClear}
use doover.Undo.Failure.{KeepsJournal, undo_action-failure}
use doover.Undo.Picked.{IsRestored, world_matches-IsRestored}

abbrev texts : Texts
texts = record { display = λ path. "a path"; show = λ e. "an error" }

-- The last state that was written for a path.
abbrev state_of : FilePath → List Manifest → Manifest
state_of path world = elim (find_path path world) [
  | some m ↦ m
  | none ↦ record {
    schema = manifest_schema;
    path = path;
    root = absent;
    entries = [];
    truncated = false;
    skipped = 0;
    warnings = [];
    skipped_dirs = [];
  }
]

abbrev disk : Store (List Manifest)
disk = record {
  lock_restores = λ w. (good tt, w);
  unlock = λ w. w;
  state_matches = λ m w. good (describes_same_state m (state_of m.path w));
  state_matches_mode = λ m w. good (describes_same_state m (state_of m.path w));
  snapshot_rollback = λ path w. (good (state_of path w), w);
  restore = λ m w. (good (record { files_restored = 1; warnings = [] }), m ∷ w);
}

abbrev machine : Machine (List Manifest)
machine = record { db = journal; world = gone ∷ [] }

abbrev report : UndoReport
report = record {
  target_action = 1;
  recorded_as = some 2;
  paths_restored = 1;
  forced = false;
  dry_run = false;
  already_satisfied = false;
  plan = restore_path before.path 1 ∷ [];
  warnings = [];
  restored_paths = before.path ∷ [];
}

abbrev undone_machine : Machine (List Manifest)
undone_machine = (execute texts disk 20 removed (before ∷ []) (gone ∷ []) false false machine).1

matches_runs : world_matches disk (before ∷ gone ∷ []) (before ∷ []) ≡ true
unfolding world_matches restorability describes_same_state same_skipped sort_by insert_by zip_all
    path_leb path_eq component_eq list_eq entry_eq entry_kind_eq xattr_eq root_eq find_path
    restorability_from
matches_runs = refl

execute_runs :
    execute texts disk 20 removed (before ∷ []) (gone ∷ []) false false machine
    ≡ (done report, undone_machine)
unfolding execute execute_locked mutate conflict_check oracle_notes truncation_notes scope_warnings
    plan_line capture restore_all record_done attach_all done_report find_path path_eq component_eq
    list_eq describes_same_state same_skipped root_eq zip_all sort_by insert_by path_leb entry_eq
    entry_kind_eq xattr_eq record_undo find_action is_blocked check_depth insert_undo has_session
    max_id max_seq
execute_runs = refl

undo_action-dry_run_example :
    Untouched machine (undo_action texts disk 20 latest false true machine)
    × Untouched machine (redo_action texts disk 20 latest false true machine)
undo_action-dry_run_example = undo_action-dry_run texts disk 20 latest false machine

execute-IsClear_example :
    (w : List Manifest) × (disk.lock_restores machine.world ≡ (good tt, w))
    × All (IsClear disk w (gone ∷ [])) (before ∷ [])
execute-IsClear_example =
    execute-IsClear texts disk 20 removed (before ∷ []) (gone ∷ []) machine undone_machine report
      execute_runs

undo_action-failure_example :
    KeepsJournal machine (undo_action texts disk 20 (action 7) false false machine)
    × KeepsJournal machine (redo_action texts disk 20 (action 7) false false machine)
undo_action-failure_example = undo_action-failure machine texts disk 20 (action 7) false false

world_matches-IsRestored_example :
    (world_matches disk (before ∷ gone ∷ []) (before ∷ []) ≡ true)
    ↔ All (IsRestored disk (before ∷ gone ∷ [])) (before ∷ [])
world_matches-IsRestored_example = world_matches-IsRestored disk (before ∷ gone ∷ []) (before ∷ [])

pick_runs : pick_latest_undoable disk (gone ∷ []) journal ≡ done removed
unfolding pick_latest_undoable scan is_target_of_scan is_in_force restorability restorability_from
    undo_candidates newest_first may_be_undone manifests_by_role read_manifests is_skeleton is_file
    same_state describes_same_state same_skipped sort_by insert_by zip_all path_leb path_eq
    component_eq list_eq entry_eq entry_kind_eq xattr_eq root_eq find_path
pick_runs = refl

-- A second command, whose capture from before it is the world as it is.
abbrev more_commands : List (ℕ × Op)
more_commands =
    (10, begin "s" "claude" "/w")
    ∷ (11, start remove)
    ∷ (11, attach 1 before pre)
    ∷ (12, complete "s" "t1" 5)
    ∷ (12, attach 1 gone post)
    ∷ (13, start (record remove { tool_use_id = some "t2" }))
    ∷ (13, attach 2 gone pre)
    ∷ (14, complete "s" "t2" 5)
    ∷ []

abbrev vain : ActionRecord
vain = record removed { id = 2; seq = 2; tool_use_id = some "t2"; started_at_ms = 13 }

abbrev busy : Db
busy = record journal {
  actions = removed ∷ vain ∷ [];
  manifests =
      journal.manifests
      ++ (record { action_id = 2; manifest = gone; hashes = []; role = pre } ∷ []);
}
