-- ===== src/Journal/Undoing.antt =====
-- crates/doover-core/src/journal.rs: `record_undo`.
use Prim.Native.Nat.{◌/◌}
use Prim.Native.String.{◌++◌ as ◌<>◌}
use doover.Base.{
  ℕ, zero, suc, ◌%◌, String, Bool, true, false, not, none, some, List, [], ◌∷◌, ◌++◌, ltb, ◌==◌,
  if◌then◌else◌,
}
use doover.Journal.Records.{
  ActionRecord, command, undo, ActionStatus, pending, completed, abandoned, undone, Db, Result, ok,
  err, ◌>>=◌, constraint, action_not_found, not_undoable, undo_too_deep,
}
use doover.Journal.Tables.{update_where, has_id, find_action, max_seq, max_id, has_session}

digit : ℕ → String
digit d =
    if d == 0
    then "0"
    else if d == 1
    then "1"
    else if d == 2
    then "2"
    else if d == 3
    then "3"
    else if d == 4
    then "4"
    else if d == 5
    then "5"
    else if d == 6
    then "6"
    else if d == 7
    then "7"
    else if d == 8
    then "8"
    else "9"

-- `{}` of a number: its decimal digits. The first argument bounds their number.
unfoldable pub decimal : ℕ → ℕ → String
unfolding digit
decimal zero n = ""
decimal (suc f) n =
    let front = decimal f (n / 10) in if ltb n 10 then digit n else front <> digit (n % 10)

-- The statuses for which the undo is refused.
unfoldable pub is_blocked : ActionStatus → Bool → Bool
is_blocked pending allow_reundo = true
is_blocked undone allow_reundo = not allow_reundo
is_blocked completed allow_reundo = false
is_blocked abandoned allow_reundo = false

-- The walk to the command below an undo, of at most the given number of hops.
unfoldable pub original_of : ℕ → List ActionRecord → ActionRecord → Result ActionRecord
original_of zero rows r = ok r
original_of (suc hops) rows r = elim r.kind [
  | command ↦ ok r
  | undo ↦ elim r.target_action_id [
    | none ↦ ok r
    | some t ↦ find_action rows t >>= original_of hops rows
  ]
]

-- The target of an undo may not be an undo itself.
unfoldable pub check_inner : List ActionRecord → ℕ → ActionRecord → Result (Unit {0})
check_inner rows target inner = elim inner.kind [
  | command ↦ ok tt
  | undo ↦ original_of 64 rows inner >>= λ original. err (undo_too_deep target original.id)
]

unfoldable pub check_depth : List ActionRecord → ActionRecord → Result (Unit {0})
check_depth rows target_rec = elim target_rec.kind [
  | command ↦ ok tt
  | undo ↦ elim target_rec.target_action_id [
    | none ↦ err (action_not_found target_rec.id)
    | some t ↦ find_action rows t >>= check_inner rows target_rec.id
  ]
]

-- The row that `record_undo` inserts.
unfoldable pub undo_row : String → ℕ → ActionStatus → ℕ → ℕ → ℕ → ActionRecord
unfolding decimal
undo_row session target prior id seq now = record {
  id = id;
  session_id = session;
  seq = seq;
  kind = undo;
  tool_use_id = none;
  raw_command = "undo of action " <> decimal (suc target) target;
  effect = "destructive";
  rule_id = none;
  has_unknown = false;
  status = completed;
  target_action_id = some target;
  target_prior_status = some prior;
  pinned = false;
  started_at_ms = now;
  duration_ms = none;
  note = none;
  background = false;
}

abbrev pub set_status : ℕ → ActionStatus → List ActionRecord → List ActionRecord
set_status id status = update_where (has_id id) (λ r. record r { status = status })

-- Undoing an undo gives its target the status that the undo recorded.
unfoldable pub restore_prior : ActionRecord → List ActionRecord → List ActionRecord
restore_prior target_rec rows = elim target_rec.kind [
  | command ↦ rows
  | undo ↦ elim target_rec.target_action_id [
    | none ↦ rows
    | some original ↦ elim target_rec.target_prior_status [
      | none ↦ rows
      | some prior ↦ set_status original prior rows
    ]
  ]
]

-- The part of `record_undo` behind its checks.
unfoldable pub insert_undo : String → ActionRecord → ℕ → Db → Result (ℕ × Db)
insert_undo session target_rec now db =
    let seq = suc (max_seq session db.actions) in
    let id = suc (max_id db.actions) in
    let row = undo_row session target_rec.id target_rec.status id seq now in
    if has_session db.sessions session
    then ok (
      id,
      record db {
        actions =
            restore_prior target_rec (set_status target_rec.id undone (db.actions ++ (row ∷ [])));
      },
    )
    else err constraint

unfoldable pub record_undo : String → ℕ → Bool → ℕ → Db → Result (ℕ × Db)
record_undo session target allow_reundo now db = find_action db.actions target >>= λ target_rec.
    if is_blocked target_rec.status allow_reundo
    then err (not_undoable target target_rec.status)
    else (check_depth db.actions target_rec >>= λ _. insert_undo session target_rec now db)
