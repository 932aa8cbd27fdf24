-- ===== src/Undo/Types.antt =====
-- crates/doover-core/src/undo.rs: selectors, reports, errors. Each text with its parts is a
-- constructor.
use doover.Base.{ℕ, String, Bool, Option, List}
use doover.Paths.{FilePath}
use doover.Journal.Records.{ActionStatus, JournalError, Result, Db, ok, err}
use doover.Snapshot.Errors.{SnapshotError, Answer, good, bad}

pub data Restorability : Type 0 where
  in_force already_done indeterminate : Restorability

pub data Selector : Type 0 where
  latest : Selector
  action : ℕ → Selector

-- Warnings, conflicts and the lines of a plan.
pub data Message : Type 0 where
  truncated_capture : FilePath → Message
  partial_check : FilePath → Message
  changed : FilePath → Message
  unverified_background : FilePath → Message
  unverified : FilePath → Message
  one_way : Message
  whole_directory : FilePath → ℕ → Message
  of_store : String → Message
  delete_path : FilePath → Message
  restore_path : FilePath → ℕ → Message

pub data Reason : Type 0 where
  snapshots_nothing : String → Reason
  no_post_state : Reason
  background_command : Reason
  not_an_undo : Reason
  no_target : Reason
  has_status : ActionStatus → Reason
  own_record : ℕ → Reason
  is_an_undo : Reason
  no_rollback_point : FilePath → List String → Reason

pub data Verb : Type 0 where
  to_undo to_redo to_restore : Verb

pub data UndoError : Type 0 where
  no_undoable_action : UndoError
  nothing_to_restore : ℕ → Reason → UndoError
  not_undoable : ℕ → Verb → Reason → UndoError
  conflicts : List Message → UndoError
  journal : JournalError → UndoError
  snapshot : SnapshotError → UndoError
  partial_rolled_back : FilePath → SnapshotError → UndoError
  partial_inconsistent : FilePath → SnapshotError → List (FilePath × SnapshotError) → UndoError

pub record UndoReport : Type 0 where
  pub target_action : ℕ
  pub recorded_as : Option ℕ
  pub paths_restored : ℕ
  pub forced : Bool
  pub dry_run : Bool
  pub already_satisfied : Bool
  pub plan : List Message
  pub warnings : List Message
  pub restored_paths : List FilePath

pub data Attempt {ℓ} (A : Type ℓ) : Type ℓ where
  done : A → Attempt A
  failed : UndoError → Attempt A

infixl 5 ◌>>=◌
abbrev pub ◌>>=◌ {ℓ κ} : {A : Type ℓ} {B : Type κ} → Attempt A → (A → Attempt B) → Attempt B
done a >>= f = f a
failed e >>= f = failed e

-- `?` on an error of the journal or the store.
abbrev pub of_journal {ℓ} : {A : Type ℓ} → Result A → Attempt A
of_journal (ok a) = done a
of_journal (err e) = failed (journal e)

abbrev pub of_store_answer {ℓ} : {A : Type ℓ} → Answer A → Attempt A
of_store_answer (good a) = done a
of_store_answer (bad e) = failed (snapshot e)

-- What the engine changes: the journal and the world.
pub record Machine (World : Type 0) : Type 0 where
  pub db : Db
  pub world : World
