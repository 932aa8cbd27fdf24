-- ===== src/Journal/UndoValid.antt =====
-- The journal's well-formedness under `record_undo` of crates/doover-core/src/journal.rs.
use doover.Base.{
  ℕ, suc, ◌≤◌, String, ◌≡◌, ◌≢◌, ◌∙◌, refl, sym, ap, subst, inl, inr, Bool, false, Option, none,
  some, List, [], ◌∷◌, ◌++◌, arith, ◌==◌, Bool-cases, Option-cases,
}
use doover.Journal.Records.{
  ActionRecord, ActionKind, ActionStatus, pending, completed, abandoned, undone, command, undo, Db,
  ok, ok-injective, Result-cases, ActionKind-cases,
}
use doover.Journal.Tables.{has_session, find_action, max_id, max_seq}
use doover.Journal.Undoing.{
  is_blocked, check_depth, check_inner, original_of, undo_row, set_status, restore_prior,
  insert_undo, record_undo,
}
use doover.Journal.Keys.{key, keys, keys-update_where, Among}
use doover.Journal.Links.{IsShallow}
use doover.Journal.Invariant.{IsValid, IsValid-update, IsValid-insert}

-- A row that is found is in the table, under its own id, and the id is at most the largest.
pub find_action-found :
    (rows : List ActionRecord) (id : ℕ) (r : ActionRecord)
    → find_action rows id ≡ ok r
    → Among (key r) (keys rows) × (r.id ≡ id) × (r.id ≤ max_id rows)
unfolding find_action keys max_id
find_action-found [] id r h = cc
find_action-found (x ∷ rows) id r h = elim (Bool-cases (x.id == id)) [
  | inl here ↦
      let same : x ≡ r = ok-injective x r (rw here at h) in
      (inl (ap key (sym same)), ground arith, ground arith)
  | inr other ↦
      let (among, named, below) = find_action-found rows id r (rw other at h) in
      (inr among, named, omega arith)
]

check_inner-command :
    (rows : List ActionRecord) (id : ℕ) (inner : ActionRecord)
    → check_inner rows id inner ≡ ok tt
    → inner.kind ≡ command
unfolding check_inner
check_inner-command rows id inner h = elim (ActionKind-cases inner.kind) [
  | inl plain ↦ plain
  | inr deep ↦ elim (Result-cases (original_of 64 rows inner)) [
    | inl (original, e) ↦ cc (rw e at (rw (deep, check_inner) at h))
    | inr (failure, e) ↦ cc (rw e at (rw (deep, check_inner) at h))
  ]
]

-- What `check_depth` lets through: a command, or an undo of a command.
pub check_depth-IsShallow :
    (rows : List ActionRecord) (r : ActionRecord)
    → check_depth rows r ≡ ok tt
    → IsShallow (keys rows) (key r)
unfolding check_depth
check_depth-IsShallow rows r h is_undo = elim (Option-cases r.target_action_id) [
  | inl nothing ↦ cc (rw (nothing, check_depth) at (rw (is_undo, check_depth) at h))
  | inr (t, aims) ↦
      let inner_check = rw (aims, check_depth) at (rw (is_undo, check_depth) at h) in
      elim (Result-cases (find_action rows t)) [
        | inl (inner, found) ↦
            let (among, named, below) = find_action-found rows t inner found in
            (
              key inner,
              among,
              aims ∙ ap some (sym named),
              check_inner-command rows r.id inner (rw found at inner_check),
            )
        | inr (e, missing) ↦ cc (rw missing at inner_check)
      ]
]

keys-set_status :
    (id : ℕ) (status : ActionStatus) (rows : List ActionRecord)
    → keys (set_status id status rows) ≡ keys rows
keys-set_status id status rows = keys-update_where _ _ (λ r. refl) rows

keys-restore_prior :
    (r : ActionRecord) (rows : List ActionRecord) → keys (restore_prior r rows) ≡ keys rows
unfolding restore_prior
keys-restore_prior r rows = by_kind r.kind r.target_action_id r.target_prior_status
  where
    by_kind :
        (kind : ActionKind) (target : Option ℕ) (prior : Option ActionStatus)
        → keys (elim kind [
          | command ↦ rows
          | undo ↦ elim target [
            | none ↦ rows
            | some original ↦ elim prior [ none ↦ rows | some p ↦ set_status original p rows ]
          ]
        ])
          ≡ keys rows
    by_kind command target prior = refl
    by_kind undo none prior = refl
    by_kind undo (some t) none = refl
    by_kind undo (some t) (some p) = keys-set_status t p rows

is_blocked-pending :
    (status : ActionStatus) (again : Bool) → is_blocked status again ≡ false → status ≢ pending
unfolding is_blocked
is_blocked-pending pending again h = cc
is_blocked-pending completed again h = λ e. cc
is_blocked-pending abandoned again h = λ e. cc
is_blocked-pending undone again h = λ e. cc

insert_undo-IsValid :
    (session : String) (r : ActionRecord) (now : ℕ) (db : Db) {id : ℕ} {db' : Db}
    → IsValid db
    → Among (key r) (keys db.actions)
    → r.id ≤ max_id db.actions
    → IsShallow (keys db.actions) (key r)
    → r.status ≢ pending
    → insert_undo session r now db ≡ ok (id, db')
    → IsValid db'
unfolding insert_undo undo_row
insert_undo-IsValid session r now db {id} {db'} v among below shallow settled h =
    elim (Bool-cases (has_session db.sessions session)) [
      | inl there ↦
          let row =
            undo_row session r.id r.status (suc (max_id db.actions))
              (suc (max_seq session db.actions)) now in
          let inserted : IsValid (record db { actions = db.actions ++ (row ∷ []) }) =
            IsValid-insert db row v there refl refl
              ((key r, among, refl, omega arith, shallow), (r.status, refl, settled)) in
          subst (λ (p : ℕ × Db). IsValid p.1) (ok-injective _ (id, db') (rw there at h))
            (IsValid-update (record db { actions = db.actions ++ (row ∷ []) })
              (restore_prior r (set_status r.id undone (db.actions ++ (row ∷ []))))
              (keys-restore_prior r _ ∙ keys-set_status r.id undone _) inserted)
      | inr missing ↦ cc (rw missing at h)
    ]

pub record_undo-IsValid :
    (session : String) (target : ℕ) (again : Bool) (now : ℕ) (db : Db) {id : ℕ} {db' : Db}
    → IsValid db
    → record_undo session target again now db ≡ ok (id, db')
    → IsValid db'
unfolding record_undo
record_undo-IsValid session target again now db {id} {db'} v h =
    elim (Result-cases (find_action db.actions target)) [
      | inr (e, missing) ↦ cc (rw missing at h)
      | inl (r, found) ↦
          let (among, named, below) = find_action-found db.actions target r found in
          let h' = rw found at h in
          elim (Bool-cases (is_blocked r.status again)) [
            | inl blocked ↦ cc (rw blocked at h')
            | inr free ↦ elim (Result-cases (check_depth db.actions r)) [
              | inr (e, deep) ↦ cc (rw deep at (rw free at h'))
              | inl (_, fine) ↦
                  insert_undo-IsValid session r now db v among below
                    (check_depth-IsShallow db.actions r fine)
                    (is_blocked-pending r.status again free) (rw fine at (rw free at h'))
            ]
          ]
    ]
