-- ===== src/Journal/OneOpen.antt =====
-- The number of pending rows of a session under the operations of crates/doover-core/src/journal.rs.
use doover.Base.{
  ℕ, suc, ◌+◌, ◌≤◌, String, ◌≡◌, ◌≢◌, refl, ap, subst, inl, inr, Bool, true, false, not, some, List,
  [], ◌∷◌, ◌++◌, arith, any, filter, length, Bool-cases, Option-cases, str_eq, eq_iff,
}
use doover.Journal.Records.{
  ActionRecord, ActionStatus, pending, completed, abandoned, undone, NewAction, Db, ok,
  ok-injective, status_eq,
}
use doover.Journal.Tables.{update_where, has_id, has_session, max_id, max_seq, is_open, coalesce}
use doover.Journal.Writes.{
  abandon_open, new_row, start_action, completable, newest_by_seq, complete_by_tool_use,
  update_action,
}
use doover.Journal.Open.{open-abandon_open}
use doover.Journal.Undoing.{set_status}
use doover.Journal.Retention.{prune_before, pruned_actions, is_candidate}

-- The number of pending rows of a session.
abbrev pub open_count : String → List ActionRecord → ℕ
open_count session rows = length (filter (is_open session) rows)

-- An update that makes no row pending.
opens_none :
    (session : String) (p : ActionRecord → Bool) (f : ActionRecord → ActionRecord)
    → ((r : ActionRecord) → is_open session (f r) ≡ true → is_open session r ≡ true)
    → (rows : List ActionRecord)
    → open_count session (update_where p f rows) ≤ open_count session rows
unfolding update_where
opens_none session p f h [] = omega arith
opens_none session p f h (r ∷ rows) =
    let rest = opens_none session p f h rows in
    let here = h r in
    elim (Bool-cases (p r)) [
      | inr miss ↦ rw miss (elim (Bool-cases (is_open session r)) [
        | inl was ↦ rw was (omega arith)
        | inr not_was ↦ rw not_was (omega arith)
      ])
      | inl hit ↦ rw hit (elim (Bool-cases (is_open session r)) [
        | inl was ↦ elim (Bool-cases (is_open session (f r))) [
          | inl now ↦ rw (was, now) (omega arith)
          | inr not_now ↦ rw (was, not_now) (omega arith)
        ]
        | inr not_was ↦ elim (Bool-cases (is_open session (f r))) [
          | inl now ↦ cc (h r now)
          | inr not_now ↦ rw (not_was, not_now) (omega arith)
        ]
      ])
    ]

pub open_count-append :
    (session : String) (rows more : List ActionRecord)
    → open_count session (rows ++ more) ≡ open_count session rows + open_count session more
open_count-append session [] more = omega arith
open_count-append session (r ∷ rows) more =
    let rest = open_count-append session rows more in
    elim (Bool-cases (is_open session r)) [
      | inl was ↦ rw was (omega arith)
      | inr not_was ↦ rw not_was (omega arith)
    ]

open_count-filter :
    (session : String) (q : ActionRecord → Bool) (rows : List ActionRecord)
    → open_count session (filter q rows) ≤ open_count session rows
open_count-filter session q [] = omega arith
open_count-filter session q (r ∷ rows) =
    let rest = open_count-filter session q rows in
    elim (Bool-cases (q r)) [
      | inl kept ↦ rw kept (elim (Bool-cases (is_open session r)) [
        | inl was ↦ rw was (omega arith)
        | inr not_was ↦ rw not_was (omega arith)
      ])
      | inr gone ↦ rw gone (elim (Bool-cases (is_open session r)) [
        | inl was ↦ rw was (omega arith)
        | inr not_was ↦ rw not_was (omega arith)
      ])
    ]

-- At most one row is pending in each session.
abbrev pub OneOpen : List ActionRecord → Type 0
OneOpen rows = (session : String) → open_count session rows ≤ 1

pending-only : (status : ActionStatus) → status_eq status pending ≡ true → status ≡ pending
pending-only pending h = refl
pending-only completed h = cc
pending-only abandoned h = cc
pending-only undone h = cc

-- A row whose status is settled is not open.
settled-open :
    (session : String) (r : ActionRecord) {A : Type 0}
    → r.status ≢ pending
    → is_open session r ≡ true
    → A
settled-open session r settled h =
    let both : status_eq r.status pending ≡ true = ground arith in
    absurd (settled (pending-only r.status both))

pub closed-abandon_open :
    (session reason other : String) (rows : List ActionRecord)
    → open_count other (abandon_open session reason rows) ≤ open_count other rows
unfolding abandon_open
closed-abandon_open session reason other rows =
    opens_none other (is_open session)
      (λ r. record r { status = abandoned; note = some (coalesce r.note reason) })
      (λ r h.
        settled-open other (record r { status = abandoned; note = some (coalesce r.note reason) })
          (λ e. cc) h)
      rows

pub start_action-OneOpen :
    (new : NewAction) (now : ℕ) (db : Db) {id : ℕ} {db' : Db}
    → OneOpen db.actions
    → start_action new now db ≡ ok (id, db')
    → OneOpen db'.actions
unfolding start_action new_row
start_action-OneOpen new now db {id} {db'} one h session =
    let rows = abandon_open new.session_id "no post event received" db.actions in
    let row = new_row new (suc (max_id rows)) (suc (max_seq new.session_id rows)) now in
    let sum = open_count-append session rows (row ∷ []) in
    elim (Bool-cases (has_session db.sessions new.session_id)) [
      | inr unknown ↦ cc (rw unknown at h)
      | inl known ↦
          subst (λ (p : ℕ × Db). open_count session p.1.actions ≤ 1)
            (ok-injective _ (id, db') (rw known at h))
            (elim (Bool-cases (str_eq new.session_id session)) [
              | inl mine ↦
                  let same : new.session_id ≡ session = (eq_iff new.session_id session).0 mine in
                  let none_left : open_count session rows ≡ 0 = rw⁻¹ same (
                    ap length
                      (open-abandon_open new.session_id "no post event received" db.actions)) in
                  let last : open_count session (row ∷ []) ≤ 1 = rw mine (omega arith) in
                  omega arith
              | inr theirs ↦
                  let before = one session in
                  let fewer =
                    closed-abandon_open new.session_id "no post event received" session
                      db.actions in
                  let last : open_count session (row ∷ []) ≡ 0 = rw theirs refl in omega arith
            ])
    ]

update-OneOpen :
    (p : ActionRecord → Bool) (f : ActionRecord → ActionRecord) (rows : List ActionRecord)
    → ((session : String) (r : ActionRecord)
        → is_open session (f r) ≡ true
        → is_open session r ≡ true)
    → OneOpen rows
    → OneOpen (update_where p f rows)
update-OneOpen p f rows h one session =
    let before = one session in let fewer = opens_none session p f (h session) rows in omega arith

pub update_action-OneOpen :
    (id : ℕ) (f : ActionRecord → ActionRecord) (db : Db) {db' : Db}
    → ((session : String) (r : ActionRecord)
        → is_open session (f r) ≡ true
        → is_open session r ≡ true)
    → OneOpen db.actions
    → update_action id f db ≡ ok db'
    → OneOpen db'.actions
unfolding update_action
update_action-OneOpen id f db {db'} h one e = elim (Bool-cases (any db.actions (has_id id))) [
  | inl here ↦
      subst (λ (x : Db). OneOpen x.actions) (ok-injective _ db' (rw here at e))
        (update-OneOpen (has_id id) f db.actions h one)
  | inr gone ↦ cc (rw gone at e)
]

pub complete_by_tool_use-OneOpen :
    (session tool_use : String) (duration : ℕ) (db : Db) {id : ℕ} {db' : Db}
    → OneOpen db.actions
    → complete_by_tool_use session tool_use duration db ≡ ok (id, db')
    → OneOpen db'.actions
unfolding complete_by_tool_use
complete_by_tool_use-OneOpen session tool_use duration db {id} {db'} one h =
    elim (Option-cases (newest_by_seq (completable session tool_use) db.actions)) [
      | inl nothing ↦ cc (rw (nothing, complete_by_tool_use) at h)
      | inr (r, found) ↦
          subst (λ (p : ℕ × Db). OneOpen p.1.actions)
            (ok-injective _ (id, db') (rw (found, complete_by_tool_use) at h))
            (update-OneOpen (has_id r.id)
              (λ a. record a { status = completed; duration_ms = some duration }) db.actions
              (λ other a h1.
                settled-open other (record a { status = completed; duration_ms = some duration })
                  (λ e. cc) h1)
              one)
    ]

pub prune_before-OneOpen :
    (cutoff : ℕ) (dry_run : Bool) (db : Db)
    → OneOpen db.actions
    → OneOpen (prune_before cutoff dry_run db).1.actions
unfolding prune_before pruned_actions
prune_before-OneOpen cutoff true db one session = one session
prune_before-OneOpen cutoff false db one session =
    let before = one session in
    let fewer =
      open_count-filter session (λ a. not (is_candidate cutoff db.actions a)) db.actions in
    omega arith

pub set_status-OneOpen :
    (id : ℕ) (status : ActionStatus) (rows : List ActionRecord)
    → status ≢ pending
    → OneOpen rows
    → OneOpen (set_status id status rows)
set_status-OneOpen id status rows settled one =
    update-OneOpen (has_id id) (λ r. record r { status = status }) rows
      (λ session r h. settled-open session (record r { status = status }) settled h) one
