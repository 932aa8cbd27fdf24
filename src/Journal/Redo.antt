-- ===== src/Journal/Redo.antt =====
-- Undo, redo, and what `record_undo` refuses.
use doover.Base.{
  ℕ, ◌<◌, ◌≡◌, ◌∙◌, refl, true, false, List, [], ◌∷◌, ◌++◌, arith, ◌==◌, if◌then◌else◌,
}
use doover.Journal.Records.{ActionRecord, ActionStatus, ok}
use doover.Journal.Tables.{find_action, max_id, update_where}
use doover.Journal.Undoing.{set_status}

-- A status set on one id, as `find_action` sees it.
pub find_action-set_status :
    (id j : ℕ) (status : ActionStatus) (rows : List ActionRecord) (r : ActionRecord)
    → find_action rows j ≡ ok r
    → find_action (set_status id status rows) j
      ≡ ok (if id == j then record r { status = status } else r)
unfolding find_action update_where
find_action-set_status id j status [] r h = cc
find_action-set_status id j status (x ∷ rows) r h =
    ground (arith, find_action-set_status id j status rows r)

pub find_action-push :
    (rows : List ActionRecord) (x : ActionRecord) (j : ℕ) (r : ActionRecord)
    → find_action rows j ≡ ok r
    → find_action (rows ++ (x ∷ [])) j ≡ ok r
unfolding find_action
find_action-push [] x j r h = cc
find_action-push (y ∷ rows) x j r h = ground (arith, find_action-push rows x j r)

pub find_action-pushed :
    (rows : List ActionRecord) (x : ActionRecord)
    → max_id rows < x.id
    → find_action (rows ++ (x ∷ [])) x.id ≡ ok x
unfolding find_action max_id
find_action-pushed [] x h = ground arith
find_action-pushed (y ∷ rows) x h = ground (arith, find_action-pushed rows x)

pub find_action-set_same :
    (id : ℕ) (status : ActionStatus) (rows : List ActionRecord) (r : ActionRecord)
    → find_action rows id ≡ ok r
    → find_action (set_status id status rows) id ≡ ok (record r { status = status })
find_action-set_same id status rows r h =
    find_action-set_status id id status rows r h ∙ rw (same id) refl
  where
    same : (n : ℕ) → (n == n) ≡ true
    same n = ground arith

pub find_action-set_other :
    (id j : ℕ) (status : ActionStatus) (rows : List ActionRecord) (r : ActionRecord)
    → (id == j) ≡ false
    → find_action rows j ≡ ok r
    → find_action (set_status id status rows) j ≡ ok r
find_action-set_other id j status rows r other h =
    find_action-set_status id j status rows r h ∙ rw other refl
