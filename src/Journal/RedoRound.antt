-- ===== src/Journal/RedoRound.antt =====
-- crates/doover-core/src/journal.rs: an undo, its redo, and what is refused after them.
use doover.Base.{ℕ, suc, String, ◌≡◌, true, [], ◌∷◌, ◌++◌}
use doover.Journal.Records.{ActionRecord, completed, undone, command, Db, ok}
use doover.Journal.Tables.{has_session, find_action, max_id, max_seq}
use doover.Journal.Undoing.{undo_row, set_status}

-- What follows the undo of a command.
module _ (session : String) (t : ActionRecord) (now later last : ℕ) (db : Db)
    (plain : t.kind ≡ command) (found : find_action db.actions t.id ≡ ok t)
    (in_session : has_session db.sessions session ≡ true) where
  abbrev row : ActionRecord
  row =
      undo_row session t.id t.status (suc (max_id db.actions)) (suc (max_seq session db.actions))
        now

  abbrev undone_db : Db
  undone_db = record db { actions = set_status t.id undone (db.actions ++ (row ∷ [])) }

  abbrev row2 : ActionRecord
  row2 =
      undo_row session row.id completed (suc (max_id undone_db.actions))
        (suc (max_seq session undone_db.actions)) later

  abbrev redone_db : Db
  redone_db = record db {
    actions =
        set_status t.id t.status (set_status row.id undone (undone_db.actions ++ (row2 ∷ [])));
  }
