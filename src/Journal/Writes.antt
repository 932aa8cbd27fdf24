-- ===== src/Journal/Writes.antt =====
-- crates/doover-core/src/journal.rs: the operations that write, but for undo and pruning.
-- `now` is the clock's reading, `now_ms()`.
use Prim.Native.String.{◌++◌ as ◌<>◌}
use doover.Base.{
  ℕ, suc, String, Bool, false, Option, none, some, List, [], ◌∷◌, ◌++◌, ◌&&◌, ◌||◌, any, map, ltb,
  if◌then◌else◌, str_eq,
}
use doover.Snapshot.Manifest.{Manifest, Entry, file, dir, symlink, fifo}
use doover.Journal.Records.{
  ManifestRole, ActionRecord, pending, completed, abandoned, command, NewAction, Session, Db,
  Result, ok, err, constraint, no_pending_for_tool_use, action_not_found, status_eq,
}
use doover.Journal.Tables.{update_where, has_id, max_seq, max_id, coalesce, has_session, is_open}

-- `INSERT INTO sessions ... ON CONFLICT(id) DO UPDATE SET cwd`
unfoldable pub upsert_session : String → String → String → ℕ → List Session → List Session
upsert_session id harness cwd now [] =
    record { id = id; harness = harness; cwd = cwd; started_at_ms = now; ended_at_ms = none } ∷ []
upsert_session id harness cwd now (s ∷ rest) =
    if str_eq s.id id
    then record s { cwd = cwd } ∷ rest
    else s ∷ upsert_session id harness cwd now rest

unfoldable pub begin_session : String → String → String → ℕ → Db → Db
unfolding upsert_session
begin_session id harness cwd now db = record db {
  sessions = upsert_session id harness cwd now db.sessions;
}

-- The `UPDATE ... SET status = 'abandoned'` of `start_action` and `end_session`.
unfoldable pub abandon_open : String → String → List ActionRecord → List ActionRecord
unfolding update_where
abandon_open session reason =
    update_where (is_open session)
      (λ r. record r { status = abandoned; note = some (coalesce r.note reason) })

-- The row that `start_action` inserts.
unfoldable pub new_row : NewAction → ℕ → ℕ → ℕ → ActionRecord
new_row new id seq now = record {
  id = id;
  session_id = new.session_id;
  seq = seq;
  kind = command;
  tool_use_id = new.tool_use_id;
  raw_command = new.raw_command;
  effect = new.effect;
  rule_id = new.rule_id;
  has_unknown = new.has_unknown;
  status = pending;
  target_action_id = none;
  target_prior_status = none;
  pinned = false;
  started_at_ms = now;
  duration_ms = none;
  note = none;
  background = new.background;
}

-- The new row goes in with the next sequence number of its session and the next id.
unfoldable pub start_action : NewAction → ℕ → Db → Result (ℕ × Db)
unfolding abandon_open new_row
start_action new now db =
    let rows = abandon_open new.session_id "no post event received" db.actions in
    let seq = suc (max_seq new.session_id rows) in
    let id = suc (max_id rows) in
    if has_session db.sessions new.session_id
    then ok (id, record db { actions = rows ++ (new_row new id seq now ∷ []) })
    else err constraint

-- The rows that a post event may complete.
unfoldable pub completable : String → String → ActionRecord → Bool
completable session tool_use r =
    str_eq r.session_id session
    && elim r.tool_use_id [ none ↦ false | some t ↦ str_eq t tool_use ]
    && (status_eq r.status pending || status_eq r.status abandoned)

-- `ORDER BY seq DESC LIMIT 1`
unfoldable pub newest_by_seq : (ActionRecord → Bool) → List ActionRecord → Option ActionRecord
newest_by_seq p [] = none
newest_by_seq p (r ∷ rows) =
    let rest = newest_by_seq p rows in
    if p r
    then elim rest [
      | none ↦ some r
      | some newer ↦ if ltb newer.seq r.seq then some r else some newer
    ]
    else rest

unfoldable pub complete_by_tool_use : String → String → ℕ → Db → Result (ℕ × Db)
unfolding completable newest_by_seq update_where
complete_by_tool_use session tool_use duration db =
    elim (newest_by_seq (completable session tool_use) db.actions) [
      | none ↦ err (no_pending_for_tool_use session tool_use)
      | some r ↦ ok (
        r.id,
        record db {
          actions =
              update_where (has_id r.id)
                (λ a. record a { status = completed; duration_ms = some duration }) db.actions;
        },
      )
    ]

unfoldable pub end_session : String → ℕ → Db → Db
unfolding abandon_open
end_session id now db = record db {
  actions = abandon_open id "session ended without post event" db.actions;
  sessions =
      map (λ s. if str_eq s.id id then record s { ended_at_ms = some now } else s) db.sessions;
}

unfoldable pub file_hashes : List Entry → List String
file_hashes [] = []
file_hashes (e ∷ entries) =
    let rest = file_hashes entries in
    elim e.kind [
      | file hash len mode mtime xattrs ↦ hash ∷ rest
      | dir mode ↦ rest
      | symlink target ↦ rest
      | fifo mode ↦ rest
    ]

-- `action_id REFERENCES actions(id)`
unfoldable pub attach_manifest : ℕ → Manifest → ManifestRole → Db → Result Db
unfolding file_hashes
attach_manifest action manifest role db =
    if any db.actions (has_id action)
    then ok (record db {
      manifests =
          db.manifests
          ++ (record {
            action_id = action;
            manifest = manifest;
            hashes = file_hashes manifest.entries;
            role = role;
          }
              ∷ []);
    })
    else err constraint

-- An `UPDATE ... WHERE id = ?1` that must meet a row.
unfoldable pub update_action : ℕ → (ActionRecord → ActionRecord) → Db → Result Db
unfolding update_where
update_action action f db =
    if any db.actions (has_id action)
    then ok (record db { actions = update_where (has_id action) f db.actions })
    else err (action_not_found action)

unfoldable pub appended_note : Option String → String → String
appended_note none text = text
appended_note (some old) text = old <> "\n" <> text

unfoldable pub add_note : ℕ → String → Db → Result Db
add_note action text =
    update_action action (λ r. record r { note = some (appended_note r.note text) })

unfoldable pub set_pinned : ℕ → Bool → Db → Result Db
set_pinned action pinned = update_action action (λ r. record r { pinned = pinned })
