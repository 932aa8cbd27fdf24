-- ===== src/Journal/OneOpenRuns.antt =====
-- The number of pending rows of a session under `record_undo`, and under any run of operations of
-- crates/doover-core/src/journal.rs.
use doover.Base.{
  ℕ, suc, String, ◌≡◌, ◌≢◌, ◌∙◌, refl, sym, ap, subst, inl, inr, Bool, some, List, [], ◌∷◌, ◌++◌,
  arith, All, any, Bool-cases, Option-cases,
}
use mathlib.Core.Option.{some-injective}
use doover.Journal.Records.{
  ActionRecord, ActionKind-cases, ActionStatus, pending, undone, undo, Db, Result, Result-cases, ok,
  err, ok-injective,
}
use doover.Journal.Tables.{has_id, has_session, find_action, max_id, max_seq}
use doover.Journal.Writes.{
  begin_session, end_session, attach_manifest, add_note, set_pinned, appended_note,
}
use doover.Journal.Undoing.{
  restore_prior, insert_undo, record_undo, undo_row, is_blocked, check_depth,
}
use doover.Journal.Keys.{Key, key, keys, Among}
use doover.Journal.Links.{Link}
use doover.Journal.Invariant.{IsValid}
use doover.Journal.UndoValid.{find_action-found}
use doover.Journal.Runs.{
  Op, begin, start, complete, finish, attach, note, pin, prune, perform, perform-IsValid, run,
  empty, empty-IsValid, after, after_value,
}
use doover.Journal.OneOpen.{
  open_count, OneOpen, open_count-append, set_status-OneOpen, start_action-OneOpen,
  complete_by_tool_use-OneOpen, update_action-OneOpen, prune_before-OneOpen, closed-abandon_open,
}

All-Among : (P : Key → Type 0) (k : Key) (ks : List Key) → All P ks → Among k ks → P k
All-Among P k [] h at = absurd at
All-Among P k (x ∷ ks) h (inl e) = subst P (sym e) h.0
All-Among P k (x ∷ ks) h (inr at) = All-Among P k ks h.1 at

-- The status that an undo has recorded is settled.
prior-settled :
    (db : Db) (r : ActionRecord) (p : ActionStatus)
    → IsValid db
    → Among (key r) (keys db.actions)
    → r.kind ≡ undo
    → r.target_prior_status ≡ some p
    → p ≢ pending
prior-settled db r p v at is_undo prior =
    let link =
      rw is_undo at (All-Among (Link (keys db.actions)) (key r) (keys db.actions) v.links at) in
    let (aims, (q, recorded, settled)) = link in
    let same : q ≡ p = some-injective q p (sym recorded ∙ prior) in rw⁻¹ same settled

restore_prior-OneOpen :
    (r : ActionRecord) (rows : List ActionRecord)
    → ((p : ActionStatus) → r.kind ≡ undo → r.target_prior_status ≡ some p → p ≢ pending)
    → OneOpen rows
    → OneOpen (restore_prior r rows)
unfolding restore_prior
restore_prior-OneOpen r rows settled one = elim (ActionKind-cases r.kind) [
  | inl plain ↦ rw (plain, restore_prior) one
  | inr is_undo ↦ elim (Option-cases r.target_action_id) [
    | inl nothing ↦ rw (is_undo, nothing, restore_prior) one
    | inr (t, aims) ↦ elim (Option-cases r.target_prior_status) [
      | inl nothing ↦ rw (is_undo, aims, nothing, restore_prior) one
      | inr (p, prior) ↦
          rw (is_undo, aims, prior, restore_prior)
            (set_status-OneOpen t p rows (settled p is_undo prior) one)
    ]
  ]
]

record_undo-OneOpen :
    (session : String) (target : ℕ) (again : Bool) (now : ℕ) (db : Db) {id : ℕ} {db' : Db}
    → IsValid db
    → OneOpen db.actions
    → record_undo session target again now db ≡ ok (id, db')
    → OneOpen db'.actions
unfolding record_undo insert_undo undo_row
record_undo-OneOpen session target again now db {id} {db'} v one h =
    elim (Result-cases (find_action db.actions target)) [
      | inr (e, missing) ↦ cc (rw missing at h)
      | inl (r, found) ↦
          let (at, named, low) = find_action-found db.actions target r found in
          let h' = rw found at h in
          elim (Bool-cases (is_blocked r.status again)) [
            | inl blocked ↦ cc (rw blocked at h')
            | inr free ↦ elim (Result-cases (check_depth db.actions r)) [
              | inr (e, deep) ↦ cc (rw deep at (rw free at h'))
              | inl (_, fine) ↦ elim (Bool-cases (has_session db.sessions session)) [
                | inr unknown ↦ cc (rw unknown at (rw fine at (rw free at h')))
                | inl known ↦
                    subst (λ (p : ℕ × Db). OneOpen p.1.actions)
                      (ok-injective _ (id, db') (rw known at (rw fine at (rw free at h'))))
                      (restore_prior-OneOpen r _ (λ p. prior-settled db r p v at)
                        (set_status-OneOpen r.id undone _ (λ e. cc) (pushed r)))
              ]
            ]
          ]
    ]
  where
    pushed :
        (r : ActionRecord)
        → OneOpen (
            db.actions
            ++ (undo_row session r.id r.status
                  (suc (max_id db.actions))
                  (suc (max_seq session db.actions))
                  now
                ∷ []))
    pushed r other =
        let row =
          undo_row session r.id r.status (suc (max_id db.actions))
            (suc (max_seq session db.actions)) now in
        let sum = open_count-append other db.actions (row ∷ []) in
        let last : open_count other (row ∷ []) ≡ 0 = ground arith in
        let before = one other in omega arith

module _ (db : Db) (one : OneOpen db.actions) where
  after-OneOpen :
      (r : Result Db)
      → ((db' : Db) → r ≡ ok db' → OneOpen db'.actions)
      → OneOpen (after db r).actions
  unfolding after
  after-OneOpen (ok db') h = h db' refl
  after-OneOpen (err e) h = one

  after_value-OneOpen {ℓ} :
      {A : Type ℓ} (r : Result (A × Db))
      → ((a : A) (db' : Db) → r ≡ ok (a, db') → OneOpen db'.actions)
      → OneOpen (after_value db r).actions
  unfolding after_value
  after_value-OneOpen (ok (a, db')) h = h a db' refl
  after_value-OneOpen (err e) h = one

actions-attach_manifest :
    (action : ℕ) (m : _) (role : _) (db db' : Db)
    → attach_manifest action m role db ≡ ok db'
    → db'.actions ≡ db.actions
unfolding attach_manifest
actions-attach_manifest action m role db db' h =
    elim (Bool-cases (any db.actions (has_id action))) [
      | inl here ↦ ap (λ (x : Db). x.actions) (sym (ok-injective _ db' (rw here at h)))
      | inr gone ↦ cc (rw gone at h)
    ]

perform-OneOpen :
    (now : ℕ) (op : Op) (db : Db)
    → IsValid db
    → OneOpen db.actions
    → OneOpen (perform now op db).actions
unfolding perform begin_session end_session add_note set_pinned
perform-OneOpen now (begin id harness cwd) db v one = one
perform-OneOpen now (start new) db v one =
    after_value-OneOpen db one _ (λ id db' h. start_action-OneOpen new now db one h)
perform-OneOpen now (complete session tool_use duration) db v one =
    after_value-OneOpen db one _
      (λ id db' h. complete_by_tool_use-OneOpen session tool_use duration db one h)
perform-OneOpen now (finish id) db v one = λ session.
    let before = one session in
    let fewer = closed-abandon_open id "session ended without post event" session db.actions in
    omega arith
perform-OneOpen now (attach action manifest role) db v one =
    after-OneOpen db one _
      (λ db' h. subst OneOpen (sym (actions-attach_manifest action manifest role db db' h)) one)
perform-OneOpen now (Op.undo session target again) db v one =
    after_value-OneOpen db one _
      (λ id db' h. record_undo-OneOpen session target again now db v one h)
perform-OneOpen now (note action text) db v one = after-OneOpen db one _ (λ db' h.
    update_action-OneOpen action (λ r. record r { note = some (appended_note r.note text) }) db
      (λ session r k. k) one h)
perform-OneOpen now (pin action pinned) db v one = after-OneOpen db one _ (λ db' h.
    update_action-OneOpen action (λ r. record r { pinned = pinned }) db (λ session r k. k) one h)
perform-OneOpen now (prune cutoff dry_run) db v one = prune_before-OneOpen cutoff dry_run db one

run-OneOpen_from :
    (ops : List (ℕ × Op)) (db : Db) → IsValid db → OneOpen db.actions → OneOpen (run ops db).actions
unfolding run
run-OneOpen_from [] db v one = one
run-OneOpen_from ((now, op) ∷ ops) db v one =
    run-OneOpen_from ops (perform now op db) (perform-IsValid now op db v)
      (perform-OneOpen now op db v one)

-- After any sequence of operations on an empty journal, failed ones included, each session has at most
-- one pending action.
pub run-OneOpen : (ops : List (ℕ × Op)) → OneOpen (run ops empty).actions
run-OneOpen ops = run-OneOpen_from ops empty empty-IsValid (λ session. omega arith)
