-- ===== src/Undo/Failure.antt =====
-- What the journal says after an undo that failed.
use doover.Base.{
  ℕ, suc, String, ◌≡◌, ◌∙◌, refl, Bool, true, false, not, none, List, [], ◌∷◌, map, take, any,
  if◌then◌else◌, ◌&&◌, inl, inr, Bool-cases,
}
use doover.Snapshot.Manifest.{Manifest}
use doover.Snapshot.Errors.{
  SnapshotError, io, corrupt_object, missing_object, unsafe_manifest_path, budget,
  restore_target_disturbed, restore_staging_preserved, restore_would_delete_home,
  restore_in_progress, Store, Answer-cases,
}
use doover.Journal.Records.{ActionRecord, Db, Result-cases, pre, post, undone, status_eq}
use doover.Journal.Tables.{update_where, has_id, find_action}
use doover.Journal.Writes.{update_action, add_note}
use doover.Journal.Undoing.{record_undo}
use doover.Journal.Runs.{after}
use doover.Journal.Reads.{manifests_by_role}
use doover.Undo.Types.{
  Selector, Message, UndoReport, UndoError, Attempt, done, failed, of_journal, Machine,
}
use doover.Undo.Select.{is_empty, world_matches, select_undo_target}
use doover.Undo.Check.{conflict_check}
use doover.Undo.Restore.{
  Texts, Failure, noted, note_failures, failure_note, note_staging, staging_note, report_failure,
  capture, roll_back, restore_all, record_done,
}
use doover.Undo.Engine.{
  then_do, mutate, execute_locked, execute, undo_action, redo_action, select_redo_target,
  check_redo,
}

abbrev pub without_notes : List ActionRecord → List ActionRecord
without_notes = map (λ (r : ActionRecord). record r { note = none })

-- The same journal but for the notes of its actions.
abbrev pub DiffersInNotes : Db → Db → Type 0
DiffersInNotes db db' =
    (without_notes db'.actions ≡ without_notes db.actions)
    × (db'.manifests ≡ db.manifests)
    × (db'.sessions ≡ db.sessions)

trans_notes : (a b c : Db) → DiffersInNotes a b → DiffersInNotes b c → DiffersInNotes a c
trans_notes a b c h k = (k.0 ∙ h.0, k.1 ∙ h.1, k.2 ∙ h.2)

bare-update :
    (p : ActionRecord → Bool) (f : ActionRecord → ActionRecord)
    → ((r : ActionRecord) → record (f r) { note = none } ≡ record r { note = none })
    → (rows : List ActionRecord) → without_notes (update_where p f rows) ≡ without_notes rows
unfolding update_where
bare-update p f same [] = refl
bare-update p f same (r ∷ rows) = elim (Bool-cases (p r)) [
  | inl hit ↦ rw (hit, same r, bare-update p f same rows) refl
  | inr miss ↦ rw (miss, bare-update p f same rows) refl
]

noted-notes : (id : ℕ) (text : String) (db : Db) → DiffersInNotes db (noted id text db)
unfolding noted add_note update_action after
noted-notes id text db = elim (Bool-cases (any db.actions (has_id id))) [
  | inl here ↦ rw here (bare-update _ _ (λ r. refl) db.actions, refl, refl)
  | inr gone ↦ rw gone (refl, refl, refl)
]

module _ (texts : Texts) where
  failures-notes :
      (id : ℕ) (fs : List Failure) (db : Db) → DiffersInNotes db (note_failures texts id fs db)
  unfolding note_failures
  failures-notes id [] db = (refl, refl, refl)
  failures-notes id (f ∷ fs) db =
      let next = noted id (failure_note texts f) db in
      trans_notes db next _ (noted-notes id _ db) (failures-notes id fs next)

  staging-notes :
      (what : String) (id : ℕ) (e : SnapshotError) (db : Db)
      → DiffersInNotes db (note_staging texts what id e db)
  unfolding note_staging
  staging-notes what id (restore_staging_preserved staging cause remaining) db = noted-notes id _ db
  staging-notes what id (io path source) db = (refl, refl, refl)
  staging-notes what id (corrupt_object hash) db = (refl, refl, refl)
  staging-notes what id (missing_object hash) db = (refl, refl, refl)
  staging-notes what id (unsafe_manifest_path rel) db = (refl, refl, refl)
  staging-notes what id (budget path) db = (refl, refl, refl)
  staging-notes what id (restore_target_disturbed path cause) db = (refl, refl, refl)
  staging-notes what id (restore_would_delete_home path) db = (refl, refl, refl)
  staging-notes what id restore_in_progress db = (refl, refl, refl)

  report-notes :
      (id : ℕ) (path : _) (fs : List Failure) (e : SnapshotError) (db : Db)
      → DiffersInNotes db (report_failure texts id path fs e db).1
  unfolding report_failure
  report-notes id path fs (restore_staging_preserved staging cause remaining) db =
      let next = noted id (staging_note texts "RESTORE" staging remaining) db in
      trans_notes db next _ (noted-notes id _ db) (failures-notes id fs next)
  report-notes id path fs (restore_target_disturbed where_at cause) db = failures-notes id fs db
  report-notes id path fs (io where_at source) db = (refl, refl, refl)
  report-notes id path fs (corrupt_object hash) db = (refl, refl, refl)
  report-notes id path fs (missing_object hash) db = (refl, refl, refl)
  report-notes id path fs (unsafe_manifest_path rel) db = (refl, refl, refl)
  report-notes id path fs (budget where_at) db = (refl, refl, refl)
  report-notes id path fs (restore_would_delete_home where_at) db = (refl, refl, refl)
  report-notes id path fs restore_in_progress db = (refl, refl, refl)

  module _ {World : Type 0} (store : Store World) (target : ActionRecord) where
    roll_back-notes :
        (ms : List Manifest) (s : Machine World)
        → DiffersInNotes s.db (roll_back texts store target ms s).1.db
    unfolding roll_back
    roll_back-notes [] s = (refl, refl, refl)
    roll_back-notes (m ∷ ms) s = elim (Answer-cases (store.restore m s.world).0) [
      | inl (report, e) ↦
          rw (e, roll_back) (roll_back-notes ms (record s { world = (store.restore m s.world).1 }))
      | inr (failure, e) ↦
          rw (e, roll_back)
            (trans_notes s.db (note_staging texts "ROLLBACK" target.id failure s.db) _
              (staging-notes "ROLLBACK" target.id failure s.db)
              (roll_back-notes ms (record {
                db = note_staging texts "ROLLBACK" target.id failure s.db;
                world = (store.restore m s.world).1;
              })))
    ]

    restore_all-notes :
        (rollback : List Manifest) (i : ℕ) (ms : List Manifest) (s : Machine World)
        → DiffersInNotes s.db (restore_all texts store target rollback i ms s).1.db
    unfolding restore_all
    restore_all-notes rollback i [] s = (refl, refl, refl)
    restore_all-notes rollback i (m ∷ ms) s = elim (Answer-cases (store.restore m s.world).0) [
      | inl (report, e) ↦
          rw (e, restore_all)
            (restore_all-notes rollback (suc i) ms
              (record s { world = (store.restore m s.world).1 }))
      | inr (failure, e) ↦
          let start : Machine World = record s { world = (store.restore m s.world).1 } in
          let rolled = roll_back texts store target (take i rollback) start in
          rw (e, restore_all)
            (trans_notes s.db rolled.1.db _ (roll_back-notes (take i rollback) start)
              (report-notes target.id m.path rolled.0 failure rolled.1.db))
    ]

-- A failure that leaves the journal as it was, but for notes.
abbrev pub KeepsJournal {ℓ} :
    {World : Type 0} {A : Type ℓ} → Machine World → Attempt A × Machine World → Type 0
KeepsJournal s (done a, s') = Unit
KeepsJournal s (failed e, s') = DiffersInNotes s.db s'.db

record_done-keeps :
    (target : ActionRecord) (rollback : List Manifest) (now : ℕ) (db : Db) (e : UndoError)
    → (record_done target rollback now db).0 ≡ failed e
    → (record_done target rollback now db).1 ≡ db
unfolding record_done
record_done-keeps target rollback now db e h =
    elim (Result-cases
      (record_undo target.session_id target.id (status_eq target.status undone) now db)) [
        | inl ((u, db'), recorded) ↦ cc (rw (recorded, record_done) at h)
        | inr (failure, refused) ↦ rw (refused, record_done) refl
      ]

module _ {World : Type 0} (s : Machine World) where
  then_do-keeps {ℓ κ} :
      {A : Type ℓ} {B : Type κ} (a : Attempt A) (s1 : Machine World)
      (f : A → Attempt B × Machine World)
      → ((e : UndoError) → a ≡ failed e → DiffersInNotes s.db s1.db)
      → ((x : A) → KeepsJournal s (f x))
      → KeepsJournal s (then_do a s1 f)
  then_do-keeps (done x) s1 f kept h = h x
  then_do-keeps (failed e) s1 f kept h = kept e refl

  if-keeps {ℓ} :
      {A : Type ℓ} (b : Bool) (x y : Attempt A × Machine World)
      → KeepsJournal s x
      → KeepsJournal s y
      → KeepsJournal s (if b then x else y)
  if-keeps true x y hx hy = hx
  if-keeps false x y hx hy = hy

  -- A step that reads only.
  read-keeps {ℓ κ} :
      {A : Type ℓ} {B : Type κ} (a : Attempt A) (s1 : Machine World)
      (f : A → Attempt B × Machine World)
      → s1.db ≡ s.db
      → ((x : A) → KeepsJournal s (f x))
      → KeepsJournal s (then_do a s1 f)
  read-keeps a s1 f same h = then_do-keeps a s1 f (λ e failure. rw same (refl, refl, refl)) h

  module _ (texts : Texts) (store : Store World) (now : ℕ) where
    mutate-keeps :
        (target : ActionRecord) (ms : List Manifest) (forced : Bool) (warnings : List Message)
        (s0 : Machine World)
        → s0.db ≡ s.db
        → KeepsJournal s (mutate texts store now target ms forced warnings s0)
    unfolding mutate
    mutate-keeps target ms forced warnings s0 same =
        let captured = capture texts store target ms s0.world in
        let start : Machine World = record s0 { world = captured.1 } in
        read-keeps captured.0 start _ same (λ rollback.
          let restored = restore_all texts store target rollback 0 ms start in
          let noted : DiffersInNotes s.db restored.1.db =
            trans_notes s.db start.db restored.1.db (rw same (refl, refl, refl))
              (restore_all-notes texts store target rollback 0 ms start) in
          then_do-keeps restored.0 restored.1 _ (λ e failure. noted)
            (λ more.
              then_do-keeps (record_done target rollback now restored.1.db).0 _ _
                (λ e failure.
                  rw (record_done-keeps target rollback now restored.1.db e failure) noted)
                (λ u. tt)))

    execute_locked-keeps :
        (target : ActionRecord) (ms oracle : List Manifest) (force dry_run : Bool)
        (s0 : Machine World)
        → s0.db ≡ s.db
        → KeepsJournal s (execute_locked texts store now target ms oracle force dry_run s0)
    unfolding execute_locked
    execute_locked-keeps target ms oracle force dry_run s0 same =
        read-keeps (conflict_check store s0.world force target.background oracle ms) s0 _ same
          (λ notes.
            if-keeps (not (is_empty notes.1) && not force) _ _ (rw same (refl, refl, refl))
              (if-keeps dry_run _ _ tt (mutate-keeps target ms _ _ s0 same)))

    execute-keeps :
        (target : ActionRecord) (ms oracle : List Manifest) (force dry_run : Bool)
        → KeepsJournal s (execute texts store now target ms oracle force dry_run s)
    unfolding execute
    execute-keeps target ms oracle force true =
        execute_locked-keeps target ms oracle force true s refl
    execute-keeps target ms oracle force false =
        elim (Answer-cases (store.lock_restores s.world).0) [
          | inl (token, e) ↦
              let held : Machine World = record s { world = (store.lock_restores s.world).1 } in
              let result = execute_locked texts store now target ms oracle force false held in
              rw (e, execute)
                (released result.0 result.1
                  (execute_locked-keeps target ms oracle force false held refl))
          | inr (failure, e) ↦ rw (e, execute) (refl, refl, refl)
        ]
      where
        released :
            (a : Attempt UndoReport) (s1 : Machine World)
            → KeepsJournal s (a, s1)
            → KeepsJournal s (a, record s1 { world = store.unlock s1.world })
        released (done report) s1 h = tt
        released (failed e) s1 h = h

    -- An undo or a redo that reports an error, at whatever step it failed and whatever it had restored
    -- by then, leaves the journal as it was but for notes: no new row, no other status, no manifest.
    pub undo_action-failure :
        (sel : Selector) (force dry_run : Bool)
        → KeepsJournal s (undo_action texts store now sel force dry_run s)
          × KeepsJournal s (redo_action texts store now sel force dry_run s)
    unfolding undo_action redo_action
    undo_action-failure sel force dry_run = (
      read-keeps (select_undo_target store s.world sel s.db) s _ refl (λ target.
          read-keeps (of_journal (manifests_by_role target.id pre s.db)) s _ refl (λ before.
            if-keeps (is_empty before) _ _ (refl, refl, refl)
              (if-keeps (status_eq target.status undone && world_matches store s.world before) _ _
                tt
                (read-keeps (of_journal (manifests_by_role target.id post s.db)) s _ refl
                  (λ after. execute-keeps target before after force dry_run))))),
      read-keeps (select_redo_target sel s.db) s _ refl (λ undo_row.
          read-keeps (check_redo undo_row) s _ refl (λ original_id.
            read-keeps (of_journal (manifests_by_role original_id post s.db)) s _ refl (λ after.
              if-keeps (is_empty after) _ _
                (read-keeps (of_journal (find_action s.db.actions original_id)) s _ refl
                  (λ original. (refl, refl, refl)))
                (read-keeps (of_journal (manifests_by_role original_id pre s.db)) s _ refl
                  (λ before. execute-keeps undo_row after before force dry_run))))),
    )
