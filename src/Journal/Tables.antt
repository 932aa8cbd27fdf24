-- ===== src/Journal/Tables.antt =====
-- The SQL of crates/doover-core/src/journal.rs over tables as lists in the order of their ids.
use doover.Base.{
  ℕ, max, String, Bool, false, Option, none, some, List, [], ◌∷◌, ◌&&◌, any, ◌==◌, if◌then◌else◌,
  str_eq,
}
use doover.Journal.Records.{
  ActionRecord, pending, Session, Result, ok, err, action_not_found, status_eq,
}

-- `UPDATE ... SET f WHERE p`
unfoldable pub update_where :
    (ActionRecord → Bool) → (ActionRecord → ActionRecord) → List ActionRecord → List ActionRecord
update_where p f [] = []
update_where p f (r ∷ rows) = (if p r then f r else r) ∷ update_where p f rows

-- `WHERE id = ?1`
abbrev pub has_id : ℕ → ActionRecord → Bool
has_id id r = r.id == id

-- The `action` method: `SELECT ... WHERE id = ?1`.
unfoldable pub find_action : List ActionRecord → ℕ → Result ActionRecord
find_action [] id = err (action_not_found id)
find_action (r ∷ rows) id = let rest = find_action rows id in if r.id == id then ok r else rest

-- `SELECT COALESCE(MAX(seq), 0) FROM actions WHERE session_id = ?1`
unfoldable pub max_seq : String → List ActionRecord → ℕ
max_seq session [] = 0
max_seq session (r ∷ rows) =
    let rest = max_seq session rows in if str_eq r.session_id session then max r.seq rest else rest

-- The largest row id: SQLite gives a new row of an INTEGER PRIMARY KEY table the next number.
unfoldable pub max_id : List ActionRecord → ℕ
max_id [] = 0
max_id (r ∷ rows) = max r.id (max_id rows)

abbrev pub coalesce {ℓ} : {A : Type ℓ} → Option A → A → A
coalesce none b = b
coalesce (some a) b = a

-- `session_id REFERENCES sessions(id)`
unfoldable pub has_session : List Session → String → Bool
has_session sessions id = any sessions (λ s. str_eq s.id id)

abbrev pub targets : ℕ → ActionRecord → Bool
targets id r = elim r.target_action_id [ none ↦ false | some t ↦ t == id ]

-- `EXISTS (SELECT 1 FROM actions r WHERE r.target_action_id = a.id)`
unfoldable pub is_target : List ActionRecord → ℕ → Bool
is_target rows id = any rows (targets id)

-- The pending rows of a session.
abbrev pub is_open : String → ActionRecord → Bool
is_open session r = str_eq r.session_id session && status_eq r.status pending
