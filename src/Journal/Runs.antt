-- ===== src/Journal/Runs.antt =====
-- The journal as it is used: any sequence of its operations, each at its own time.
use doover.Base.{ℕ, String, ◌≡◌, Bool, List, [], ◌∷◌, refl}
use doover.Snapshot.Manifest.{Manifest}
use doover.Journal.Records.{ManifestRole, NewAction, Db, Result, ok, err}
use doover.Journal.Writes.{
  begin_session, start_action, complete_by_tool_use, end_session, attach_manifest, add_note,
  set_pinned,
}
use doover.Journal.Undoing.{record_undo}
use doover.Journal.Retention.{prune_before}
use doover.Journal.Keys.{keys}
use doover.Journal.Invariant.{IsValid}
use doover.Journal.Preserve.{
  start_action-IsValid, complete_by_tool_use-IsValid, begin_session-IsValid, end_session-IsValid,
  add_note-IsValid, set_pinned-IsValid, attach_manifest-IsValid,
}
use doover.Journal.UndoValid.{record_undo-IsValid}
use doover.Journal.PruneValid.{prune_before-IsValid}

-- The methods that write, with their arguments.
pub data Op : Type 0 where
  begin : String → String → String → Op
  start : NewAction → Op
  complete : String → String → ℕ → Op
  finish : String → Op
  attach : ℕ → Manifest → ManifestRole → Op
  undo : String → ℕ → Bool → Op
  note : ℕ → String → Op
  pin : ℕ → Bool → Op
  prune : ℕ → Bool → Op

-- The database after an operation that may fail.
unfoldable pub after : Db → Result Db → Db
after db (ok db') = db'
after db (err e) = db

unfoldable pub after_value {ℓ} : {A : Type ℓ} → Db → Result (A × Db) → Db
after_value db (ok (a, db')) = db'
after_value db (err e) = db

unfoldable pub perform : ℕ → Op → Db → Db
perform now (begin id harness cwd) db = begin_session id harness cwd now db
perform now (start new) db = after_value db (start_action new now db)
perform now (complete session tool_use duration) db =
    after_value db (complete_by_tool_use session tool_use duration db)
perform now (finish id) db = end_session id now db
perform now (attach action manifest role) db = after db (attach_manifest action manifest role db)
perform now (undo session target again) db =
    after_value db (record_undo session target again now db)
perform now (note action text) db = after db (add_note action text db)
perform now (pin action pinned) db = after db (set_pinned action pinned db)
perform now (prune cutoff dry_run) db = (prune_before cutoff dry_run db).1

unfoldable pub run : List (ℕ × Op) → Db → Db
unfolding perform
run [] db = db
run ((now, op) ∷ ops) db = run ops (perform now op db)

abbrev pub empty : Db
empty = record { sessions = []; actions = []; manifests = [] }

pub empty-IsValid : IsValid empty
unfolding keys
empty-IsValid = record { ordered = tt; links = tt; sessions = tt; attached = tt }

module _ (db : Db) (v : IsValid db) where
  after-IsValid : (r : Result Db) → ((db' : Db) → r ≡ ok db' → IsValid db') → IsValid (after db r)
  unfolding after
  after-IsValid (ok db') h = h db' refl
  after-IsValid (err e) h = v

  after_value-IsValid {ℓ} :
      {A : Type ℓ} (r : Result (A × Db))
      → ((a : A) (db' : Db) → r ≡ ok (a, db') → IsValid db')
      → IsValid (after_value db r)
  unfolding after_value
  after_value-IsValid (ok (a, db')) h = h a db' refl
  after_value-IsValid (err e) h = v

pub perform-IsValid : (now : ℕ) (op : Op) (db : Db) → IsValid db → IsValid (perform now op db)
unfolding perform
perform-IsValid now (begin id harness cwd) db v = begin_session-IsValid id harness cwd now db v
perform-IsValid now (start new) db v =
    after_value-IsValid db v _ (λ id db' h. start_action-IsValid new now db v h)
perform-IsValid now (complete session tool_use duration) db v =
    after_value-IsValid db v _
      (λ id db' h. complete_by_tool_use-IsValid session tool_use duration db v h)
perform-IsValid now (finish id) db v = end_session-IsValid id now db v
perform-IsValid now (attach action manifest role) db v =
    after-IsValid db v _ (λ db' h. attach_manifest-IsValid action manifest role db v h)
perform-IsValid now (undo session target again) db v =
    after_value-IsValid db v _ (λ id db' h. record_undo-IsValid session target again now db v h)
perform-IsValid now (note action text) db v =
    after-IsValid db v _ (λ db' h. add_note-IsValid action text db v h)
perform-IsValid now (pin action pinned) db v =
    after-IsValid db v _ (λ db' h. set_pinned-IsValid action pinned db v h)
perform-IsValid now (prune cutoff dry_run) db v = prune_before-IsValid cutoff dry_run db v

pub run-IsValid_from : (ops : List (ℕ × Op)) (db : Db) → IsValid db → IsValid (run ops db)
unfolding run
run-IsValid_from [] db v = v
run-IsValid_from ((now, op) ∷ ops) db v =
    run-IsValid_from ops (perform now op db) (perform-IsValid now op db v)

-- After any sequence of operations on an empty journal, failed ones included, the journal is
-- well-formed: ids grow with the table and sequence numbers within each session; each undo refers to
-- an earlier row, a command or an undo of a command, whose settled status it has recorded; and each
-- action has its session and each manifest its action.
pub run-IsValid : (ops : List (ℕ × Op)) → IsValid (run ops empty)
run-IsValid ops = run-IsValid_from ops empty empty-IsValid
