-- ===== src/Journal/Preserve.antt =====
-- The journal's well-formedness under the operations of crates/doover-core/src/journal.rs that write.
use doover.Base.{
  ℕ, String, ◌≡◌, refl, subst, inl, inr, Bool, true, some, List, [], ◌∷◌, arith, any, if◌then◌else◌,
  Bool-cases, Option-cases, str_eq, map,
}
use doover.Snapshot.Manifest.{Manifest}
use doover.Journal.Records.{ManifestRole, ActionRecord, NewAction, Session, Db, ok, ok-injective}
use doover.Journal.Tables.{has_id, has_session}
use doover.Journal.Writes.{
  upsert_session, begin_session, abandon_open, start_action, completable, newest_by_seq,
  complete_by_tool_use, end_session, attach_manifest, update_action, add_note, set_pinned,
  appended_note,
}
use doover.Journal.Keys.{key, keys, keys-update_where}
use doover.Journal.Invariant.{
  IsValid, IsValid-update, IsValid-insert, IsValid-sessions, attached_push,
}

keys-abandon_open :
    (session reason : String) (rows : List ActionRecord)
    → keys (abandon_open session reason rows) ≡ keys rows
unfolding abandon_open
keys-abandon_open session reason rows = keys-update_where _ _ (λ r. refl) rows

pub start_action-IsValid :
    (new : NewAction) (now : ℕ) (db : Db) {id : ℕ} {db' : Db}
    → IsValid db
    → start_action new now db ≡ ok (id, db')
    → IsValid db'
unfolding start_action
start_action-IsValid new now db {id} {db'} v h =
    elim (Bool-cases (has_session db.sessions new.session_id)) [
      | inl open_session ↦
          subst (λ (p : ℕ × Db). IsValid p.1) (ok-injective _ (id, db') (rw open_session at h))
            (IsValid-insert
              (record db {
                actions = abandon_open new.session_id "no post event received" db.actions;
              })
              _
              (IsValid-update db _
                (keys-abandon_open new.session_id "no post event received" db.actions) v)
              open_session refl refl refl)
      | inr closed ↦ cc (rw closed at h)
    ]

pub complete_by_tool_use-IsValid :
    (session tool_use : String) (duration : ℕ) (db : Db) {id : ℕ} {db' : Db}
    → IsValid db
    → complete_by_tool_use session tool_use duration db ≡ ok (id, db')
    → IsValid db'
unfolding complete_by_tool_use
complete_by_tool_use-IsValid session tool_use duration db {id} {db'} v h =
    elim (Option-cases (newest_by_seq (completable session tool_use) db.actions)) [
      | inl nothing ↦ cc (rw (nothing, complete_by_tool_use) at h)
      | inr (r, found) ↦
          subst (λ (p : ℕ × Db). IsValid p.1)
            (ok-injective _ (id, db') (rw (found, complete_by_tool_use) at h))
            (IsValid-update db _ (keys-update_where _ _ (λ a. refl) db.actions) v)
    ]

has_session-upsert :
    (id harness cwd : String) (now : ℕ) (sessions : List Session) (other : String)
    → has_session sessions other ≡ true
    → has_session (upsert_session id harness cwd now sessions) other ≡ true
unfolding upsert_session has_session
has_session-upsert id harness cwd now [] other h = cc
has_session-upsert id harness cwd now (s ∷ sessions) other h =
    ground (arith, has_session-upsert id harness cwd now sessions other)

pub begin_session-IsValid :
    (id harness cwd : String) (now : ℕ) (db : Db)
    → IsValid db
    → IsValid (begin_session id harness cwd now db)
unfolding begin_session
begin_session-IsValid id harness cwd now db v =
    IsValid-sessions db _ (has_session-upsert id harness cwd now db.sessions) v

has_session-ended :
    (id : String) (now : ℕ) (sessions : List Session) (other : String)
    → has_session sessions other ≡ true
    → has_session
        (map (λ s. if str_eq s.id id then record s { ended_at_ms = some now } else s) sessions)
        other
      ≡ true
unfolding has_session
has_session-ended id now [] other h = cc
has_session-ended id now (s ∷ sessions) other h =
    ground (arith, has_session-ended id now sessions other)

pub end_session-IsValid :
    (id : String) (now : ℕ) (db : Db) → IsValid db → IsValid (end_session id now db)
unfolding end_session
end_session-IsValid id now db v =
    IsValid-sessions
      (record db { actions = abandon_open id "session ended without post event" db.actions }) _
      (has_session-ended id now db.sessions)
      (IsValid-update db _ (keys-abandon_open id "session ended without post event" db.actions) v)

pub update_action-IsValid :
    (action : ℕ) (f : ActionRecord → ActionRecord) (db : Db) {db' : Db}
    → ((r : ActionRecord) → key (f r) ≡ key r)
    → IsValid db
    → update_action action f db ≡ ok db'
    → IsValid db'
unfolding update_action
update_action-IsValid action f db {db'} same v h =
    elim (Bool-cases (any db.actions (has_id action))) [
      | inl there ↦
          subst IsValid (ok-injective _ db' (rw there at h))
            (IsValid-update db _ (keys-update_where _ _ same db.actions) v)
      | inr missing ↦ cc (rw missing at h)
    ]

pub add_note-IsValid :
    (action : ℕ) (text : String) (db : Db) {db' : Db}
    → IsValid db
    → add_note action text db ≡ ok db'
    → IsValid db'
unfolding add_note
add_note-IsValid action text db v h =
    update_action-IsValid action (λ r. record r { note = some (appended_note r.note text) }) db
      (λ r. refl) v h

pub set_pinned-IsValid :
    (action : ℕ) (pinned : Bool) (db : Db) {db' : Db}
    → IsValid db
    → set_pinned action pinned db ≡ ok db'
    → IsValid db'
unfolding set_pinned
set_pinned-IsValid action pinned db v h =
    update_action-IsValid action (λ r. record r { pinned = pinned }) db (λ r. refl) v h

pub attach_manifest-IsValid :
    (action : ℕ) (manifest : Manifest) (role : ManifestRole) (db : Db) {db' : Db}
    → IsValid db
    → attach_manifest action manifest role db ≡ ok db'
    → IsValid db'
unfolding attach_manifest
attach_manifest-IsValid action manifest role db {db'} v h =
    elim (Bool-cases (any db.actions (has_id action))) [
      | inl there ↦ subst IsValid (ok-injective _ db' (rw there at h)) (record {
        ordered = v.ordered;
        links = v.links;
        sessions = v.sessions;
        attached = attached_push db.actions db.manifests _ v.attached there;
      })
      | inr missing ↦ cc (rw missing at h)
    ]
