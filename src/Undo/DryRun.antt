-- ===== src/Undo/DryRun.antt =====
-- A dry run of an undo or a redo.
use doover.Base.{ℕ, ◌≡◌, refl, Bool, true, false, not, none, List, if◌then◌else◌, ◌&&◌}
use doover.Snapshot.Manifest.{Manifest}
use doover.Snapshot.Errors.{Store}
use doover.Journal.Records.{ActionRecord, post, pre, undone, status_eq}
use doover.Journal.Tables.{find_action}
use doover.Journal.Reads.{manifests_by_role}
use doover.Undo.Types.{Selector, UndoReport, Attempt, done, failed, of_journal, Machine}
use doover.Undo.Select.{is_empty, world_matches, select_undo_target}
use doover.Undo.Check.{conflict_check}
use doover.Undo.Restore.{Texts}
use doover.Undo.Engine.{
  then_do, dry_report, satisfied_report, execute_locked, execute, undo_action, redo_action,
  select_redo_target, check_redo,
}

-- A result that leaves the machine alone, and records nothing.
abbrev pub Untouched :
    {World : Type 0} → Machine World → Attempt UndoReport × Machine World → Type 0
Untouched s (done report, s') = (s' ≡ s) × (report.recorded_as ≡ none)
Untouched s (failed e, s') = s' ≡ s

module _ {World : Type 0} (s : Machine World) where
  then_do-Untouched {ℓ} :
      {A : Type ℓ} (a : Attempt A) (f : A → Attempt UndoReport × Machine World)
      → ((x : A) → Untouched s (f x))
      → Untouched s (then_do a s f)
  then_do-Untouched (done x) f h = h x
  then_do-Untouched (failed e) f h = refl

  if-Untouched :
      (b : Bool) (x y : Attempt UndoReport × Machine World)
      → Untouched s x
      → Untouched s y
      → Untouched s (if b then x else y)
  if-Untouched true x y hx hy = hx
  if-Untouched false x y hx hy = hy

  module _ (texts : Texts) (store : Store World) (now : ℕ) where
    execute-Untouched :
        (target : ActionRecord) (ms oracle : List Manifest) (force : Bool)
        → Untouched s (execute texts store now target ms oracle force true s)
    unfolding execute execute_locked dry_report
    execute-Untouched target ms oracle force =
        then_do-Untouched (conflict_check store s.world force target.background oracle ms) _
          (λ notes. if-Untouched (not (is_empty notes.1) && not force) _ _ refl (refl, refl))

    undo-Untouched :
        (sel : Selector) (force : Bool) → Untouched s (undo_action texts store now sel force true s)
    unfolding undo_action satisfied_report
    undo-Untouched sel force =
        then_do-Untouched (select_undo_target store s.world sel s.db) _ (λ target.
          then_do-Untouched (of_journal (manifests_by_role target.id pre s.db)) _ (λ before.
            if-Untouched (is_empty before) _ _ refl (
              if-Untouched (status_eq target.status undone && world_matches store s.world before) _
                _ (refl, refl)
                (then_do-Untouched (of_journal (manifests_by_role target.id post s.db)) _
                  (λ after. execute-Untouched target before after force)))))

    redo-Untouched :
        (sel : Selector) (force : Bool) → Untouched s (redo_action texts store now sel force true s)
    unfolding redo_action
    redo-Untouched sel force = then_do-Untouched (select_redo_target sel s.db) _ (λ undo_row.
        then_do-Untouched (check_redo undo_row) _ (λ original_id.
          then_do-Untouched (of_journal (manifests_by_role original_id post s.db)) _ (λ after.
            if-Untouched (is_empty after) _ _
              (then_do-Untouched (of_journal (find_action s.db.actions original_id)) _
                (λ original. refl))
              (then_do-Untouched (of_journal (manifests_by_role original_id pre s.db)) _
                (λ before. execute-Untouched undo_row after before force)))))

-- A dry run, of an undo or a redo, whether it reports a plan or an error, leaves the journal and the
-- world as they are, and reports no new row.
pub undo_action-dry_run :
    {World : Type 0} (texts : Texts) (store : Store World) (now : ℕ) (sel : Selector) (force : Bool)
    (s : Machine World)
    → Untouched s (undo_action texts store now sel force true s)
      × Untouched s (redo_action texts store now sel force true s)
undo_action-dry_run texts store now sel force s =
    (undo-Untouched s texts store now sel force, redo-Untouched s texts store now sel force)
