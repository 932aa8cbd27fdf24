-- ===== src/Journal/Awaited.antt =====
-- The row that a post event completes, between `start_action` and `complete_by_tool_use` of
-- crates/doover-core/src/journal.rs.
use mathlib.Core.Option.{some-injective}
use doover.Base.{
  ℕ, suc, ◌<◌, String, ◌≡◌, ◌∙◌, refl, ap, subst, Bool, true, false, Option, none, some, List, [],
  ◌∷◌, ◌++◌, arith, any, Bool-cases, Option-cases, str_eq, eq_iff, inl, inr, ltb, if◌then◌else◌,
}
use doover.Snapshot.Manifest.{Manifest}
use doover.Journal.Records.{ActionRecord, NewAction, ManifestRole, Db, ok, ok-injective, completed}
use doover.Journal.Settled.{IsSettled, any-completed, completed-AreSettled}
use doover.Journal.Tables.{update_where, has_session, has_id, max_id, max_seq}
use doover.Journal.Writes.{
  abandon_open, new_row, start_action, completable, newest_by_seq, complete_by_tool_use, add_note,
  update_action, attach_manifest, appended_note,
}

-- The action is the one that a post event of the session and the tool use completes.
pub IsAwaited : String → String → ℕ → Db → Type 0
IsAwaited session tool_use id db =
    (r : ActionRecord) × (newest_by_seq (completable session tool_use) db.actions ≡ some r)
    × (r.id ≡ id)

completable-session :
    (session tool_use : String) (r : ActionRecord)
    → completable session tool_use r ≡ true
    → str_eq r.session_id session ≡ true
unfolding completable
completable-session session tool_use r h = elim (Bool-cases (str_eq r.session_id session)) [
  | inl mine ↦ mine
  | inr theirs ↦ cc (rw theirs at h)
]

max_seq-tail :
    (session : String) (r : ActionRecord) (rows : List ActionRecord) (n : ℕ)
    → max_seq session (r ∷ rows) < n
    → max_seq session rows < n
unfolding max_seq
max_seq-tail session r rows n lt = elim (Bool-cases (str_eq r.session_id session)) [
  | inl mine ↦ let below = rw mine at lt in omega (arith, below)
  | inr theirs ↦ rw theirs at lt
]

newest_by_seq-append :
    (session tool_use : String) (rows : List ActionRecord) (row : ActionRecord)
    → completable session tool_use row ≡ true
    → max_seq session rows < row.seq
    → newest_by_seq (completable session tool_use) (rows ++ (row ∷ [])) ≡ some row
unfolding newest_by_seq max_seq
newest_by_seq-append session tool_use [] row c lt = rw c refl
newest_by_seq-append session tool_use (r ∷ rows) row c lt =
    elim (Bool-cases (completable session tool_use r)) [
      | inl open_row ↦
          (let below = rw (completable-session session tool_use r open_row) at lt in
            let ih = newest_by_seq-append session tool_use rows row c (omega (arith, below)) in
            let later : ltb row.seq r.seq ≡ false = ground (arith, below) in
            rw (open_row, ih, later) refl)
      | inr closed ↦
          rw
            (
              closed,
              newest_by_seq-append session tool_use rows row c
                  (max_seq-tail session r rows row.seq lt),
            )
            refl
    ]

new_row-completable :
    (new : NewAction) (tool_use : String) (id seq now : ℕ)
    → new.tool_use_id ≡ some tool_use
    → completable new.session_id tool_use (new_row new id seq now) ≡ true
unfolding completable new_row
new_row-completable new tool_use id seq now named =
    rw (named, (eq_iff new.session_id new.session_id).1 refl, (eq_iff tool_use tool_use).1 refl)
      refl

-- A row that is started is awaited by the post event of its session and tool use.
pub start_action-IsAwaited :
    (new : NewAction) (tool_use : String) (now : ℕ) (db : Db) {id : ℕ} {db' : Db}
    → new.tool_use_id ≡ some tool_use
    → start_action new now db ≡ ok (id, db')
    → IsAwaited new.session_id tool_use id db'
unfolding start_action new_row IsAwaited
start_action-IsAwaited new tool_use now db {id} {db'} named h =
    elim (Bool-cases (has_session db.sessions new.session_id)) [
      | inl known ↦
          subst (λ (p : ℕ × Db). IsAwaited new.session_id tool_use p.0 p.1)
            (ok-injective _ (id, db') (rw known at h)) (row, found, refl)
      | inr unknown ↦ cc (rw unknown at h)
    ]
  where
    rows : List ActionRecord
    rows = abandon_open new.session_id "no post event received" db.actions

    row : ActionRecord
    row = new_row new (suc (max_id rows)) (suc (max_seq new.session_id rows)) now

    found : newest_by_seq (completable new.session_id tool_use) (rows ++ (row ∷ [])) ≡ some row
    found =
        newest_by_seq-append new.session_id tool_use rows row
          (new_row-completable new tool_use (suc (max_id rows)) (suc (max_seq new.session_id rows))
            now named)
          (omega arith)

-- What names a row and orders it.
key : Option ActionRecord → Option (ℕ × ℕ)
key none = none
key (some r) = some (r.id, r.seq)

-- The newer of a row that counts and of the newest behind it.
newer_of : Bool → ActionRecord → Option ActionRecord → Option ActionRecord
newer_of b r rest =
    if b
    then elim rest [
      | none ↦ some r
      | some newer ↦ if ltb newer.seq r.seq then some r else some newer
    ]
    else rest

newer_of-key :
    (b : Bool) (r : ActionRecord) (n : Option String) (x y : Option ActionRecord)
    → key x ≡ key y
    → key (newer_of b (record r { note = n }) x) ≡ key (newer_of b r y)
unfolding newer_of key
newer_of-key false r n x y h = h
newer_of-key true r n none none h = refl
newer_of-key true r n none (some v) h = cc
newer_of-key true r n (some u) none h = cc
newer_of-key true r n (some u) (some v) h =
    let same = some-injective (u.id, u.seq) (v.id, v.seq) h in
    let seqs : u.seq ≡ v.seq = ap (λ (k : ℕ × ℕ). k.1) same in
    elim (Bool-cases (ltb v.seq r.seq)) [
      | inl more ↦ rw (seqs, more) refl
      | inr less ↦ rw (seqs, less) (ap (λ (k : ℕ × ℕ). some (k.0, v.seq)) same)
    ]

updated-key :
    (session tool_use : String) (b : Bool) (r : ActionRecord) (n : Option String)
    (rows' rows : List ActionRecord)
    → key (newest_by_seq (completable session tool_use) rows')
      ≡ key (newest_by_seq (completable session tool_use) rows)
    → key (
        newest_by_seq
          (completable session tool_use)
          ((if b then record r { note = n } else r) ∷ rows'))
      ≡ key (newest_by_seq (completable session tool_use) (r ∷ rows))
unfolding newest_by_seq newer_of completable
updated-key session tool_use true r n rows' rows h =
    newer_of-key (completable session tool_use r) r n
      (newest_by_seq (completable session tool_use) rows')
      (newest_by_seq (completable session tool_use) rows) h
updated-key session tool_use false r n rows' rows h =
    newer_of-key (completable session tool_use r) r r.note
      (newest_by_seq (completable session tool_use) rows')
      (newest_by_seq (completable session tool_use) rows) h

-- An update of what a post event does not look at keeps the row that it finds.
update_where-key :
    (session tool_use : String) (p : ActionRecord → Bool) (text : ActionRecord → Option String)
    (rows : List ActionRecord)
    → key (
        newest_by_seq
          (completable session tool_use)
          (update_where p (λ r. record r { note = text r }) rows))
      ≡ key (newest_by_seq (completable session tool_use) rows)
unfolding update_where newest_by_seq
update_where-key session tool_use p text [] = refl
update_where-key session tool_use p text (r ∷ rows) =
    updated-key session tool_use (p r) r (text r)
      (update_where p (λ r. record r { note = text r }) rows) rows
      (update_where-key session tool_use p text rows)

key-IsAwaited :
    (session tool_use : String) (id : ℕ) (db : Db) (rows : List ActionRecord)
    → key (newest_by_seq (completable session tool_use) rows)
      ≡ key (newest_by_seq (completable session tool_use) db.actions)
    → IsAwaited session tool_use id db
    → IsAwaited session tool_use id (record db { actions = rows })
unfolding IsAwaited key
key-IsAwaited session tool_use id db rows same (r, found, named) =
    elim (Option-cases (newest_by_seq (completable session tool_use) rows)) [
      | inl nothing ↦ cc (rw (nothing, found) at same)
      | inr (r', e) ↦
          let keys = some-injective (r'.id, r'.seq) (r.id, r.seq) (rw (e, found) at same) in
          (r', e, ap (λ (k : ℕ × ℕ). k.0) keys ∙ named)
    ]

pub add_note-IsAwaited :
    (session tool_use : String) (id action : ℕ) (text : String) (db : Db) {db' : Db}
    → IsAwaited session tool_use id db
    → add_note action text db ≡ ok db'
    → IsAwaited session tool_use id db'
unfolding add_note update_action
add_note-IsAwaited session tool_use id action text db {db'} a h =
    elim (Bool-cases (any db.actions (has_id action))) [
      | inl known ↦ subst (IsAwaited session tool_use id) (ok-injective _ db' (rw known at h)) (
          key-IsAwaited session tool_use id db _
            (update_where-key session tool_use (has_id action)
              (λ r. some (appended_note r.note text)) db.actions)
            a)
      | inr missing ↦ cc (rw missing at h)
    ]

pub attach_manifest-IsAwaited :
    (session tool_use : String) (id action : ℕ) (m : Manifest) (role : ManifestRole) (db : Db)
    {db' : Db}
    → IsAwaited session tool_use id db
    → attach_manifest action m role db ≡ ok db'
    → IsAwaited session tool_use id db'
unfolding attach_manifest IsAwaited
attach_manifest-IsAwaited session tool_use id action m role db {db'} a h =
    elim (Bool-cases (any db.actions (has_id action))) [
      | inl known ↦
          subst (λ (d : Db). IsAwaited session tool_use id d) (ok-injective _ db' (rw known at h)) a
      | inr missing ↦ cc (rw missing at h)
    ]

newest_by_seq-known :
    (p : ActionRecord → Bool) (rows : List ActionRecord) (r : ActionRecord)
    → newest_by_seq p rows ≡ some r
    → any rows (has_id r.id) ≡ true
unfolding newest_by_seq
newest_by_seq-known p [] r h = cc
newest_by_seq-known p (x ∷ rows) r h = ground (arith, newest_by_seq-known p rows r)

-- The post event of an awaited action completes it.
pub awaited-complete_by_tool_use :
    (session tool_use : String) (id duration : ℕ) (db : Db)
    → IsAwaited session tool_use id db
    → (db' : Db) × (complete_by_tool_use session tool_use duration db ≡ ok (id, db'))
      × (any db'.actions (has_id id) ≡ true)
      × IsSettled id duration db'
unfolding complete_by_tool_use IsAwaited IsSettled
awaited-complete_by_tool_use session tool_use id duration db (r, found, named) =
    let after : Db = record db {
      actions =
          update_where (has_id r.id)
            (λ a. record a { status = completed; duration_ms = some duration }) db.actions;
    } in
    rw (found, complete_by_tool_use)
      (
        after,
        ap (λ (n : ℕ). ok (n, after)) named,
        subst (λ n. any after.actions (has_id n) ≡ true) named
            (any-completed r.id r.id duration db.actions
              ∙ newest_by_seq-known (completable session tool_use) db.actions r found),
        subst (λ n. IsSettled n duration after) named
            (completed-AreSettled r.id duration db.actions),
      )
