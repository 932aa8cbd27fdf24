-- ===== src/Journal/Open.antt =====
-- The pending rows of a session, in `start_action` of crates/doover-core/src/journal.rs.
use doover.Base.{
  ℕ, suc, String, ◌≡◌, ◌∙◌, refl, Bool, true, false, List, [], ◌∷◌, ◌++◌, arith, filter, Bool-cases,
  str_eq, eq_iff, subst, inl, inr,
}
use doover.Journal.Records.{ActionRecord, NewAction, Db, ok, ok-injective}
use doover.Journal.Tables.{update_where, has_session, max_id, max_seq, is_open}
use doover.Journal.Writes.{abandon_open, new_row, start_action}

abbrev pub of_session : String → ActionRecord → Bool
of_session session r = str_eq r.session_id session

filter-append {ℓ} :
    {A : Type ℓ} (p : A → Bool) (xs ys : List A) → filter p (xs ++ ys) ≡ filter p xs ++ filter p ys
filter-append p [] ys = refl
filter-append p (x ∷ xs) ys = ground (arith, filter-append p xs ys)

++_nil {ℓ} : {A : Type ℓ} (xs : List A) → xs ++ [] ≡ xs
++_nil [] = refl
++_nil (x ∷ xs) = rw (++_nil xs) refl

pub open-abandon_open :
    (session reason : String) (rows : List ActionRecord)
    → filter (is_open session) (abandon_open session reason rows) ≡ []
unfolding abandon_open update_where
open-abandon_open session reason [] = refl
open-abandon_open session reason (r ∷ rows) = ground (arith, open-abandon_open session reason rows)

others-abandon_open :
    (session other reason : String) (rows : List ActionRecord)
    → str_eq session other ≡ false
    → filter (of_session other) (abandon_open session reason rows) ≡ filter (of_session other) rows
unfolding abandon_open update_where
others-abandon_open session other reason [] h = refl
others-abandon_open session other reason (r ∷ rows) h =
    elim (Bool-cases (str_eq r.session_id session)) [
      | inl mine ↦
          let elsewhere : str_eq r.session_id other ≡ false =
            rw ((eq_iff r.session_id session).0 mine) h in
          rw (mine, elsewhere) (ground (arith, others-abandon_open session other reason rows))
      | inr theirs ↦ rw theirs (ground (arith, others-abandon_open session other reason rows))
    ]

str_eq_refl : (s : String) → str_eq s s ≡ true
str_eq_refl s = (eq_iff s s).1 refl

-- Once a command has started, it is the one pending row of its session; the rows of any other
-- session are as they were.
pub start_action-open :
    (new : NewAction) (now : ℕ) (db : Db) {id : ℕ} {db' : Db}
    → start_action new now db ≡ ok (id, db')
    → ((r : ActionRecord) × (filter (is_open new.session_id) db'.actions ≡ r ∷ [])
        × (r.id ≡ id)
        × (r.raw_command ≡ new.raw_command))
      × ((other : String)
          → str_eq new.session_id other ≡ false
          → filter (of_session other) db'.actions ≡ filter (of_session other) db.actions)
unfolding start_action new_row
start_action-open new now db {id} {db'} h =
    elim (Bool-cases (has_session db.sessions new.session_id)) [
      | inl known ↦
          subst
            (λ (p : ℕ × Db).
              ((r : ActionRecord) × (filter (is_open new.session_id) p.1.actions ≡ r ∷ [])
                × (r.id ≡ p.0)
                × (r.raw_command ≡ new.raw_command))
              × ((other : String)
                  → str_eq new.session_id other ≡ false
                  → filter (of_session other) p.1.actions ≡ filter (of_session other) db.actions))
            (ok-injective _ (id, db') (rw known at h)) ((_, alone, refl, refl), untouched)
      | inr unknown ↦ cc (rw unknown at h)
    ]
  where
    rows : List ActionRecord
    rows = abandon_open new.session_id "no post event received" db.actions

    row : ActionRecord
    row = new_row new (suc (max_id rows)) (suc (max_seq new.session_id rows)) now

    alone : filter (is_open new.session_id) (rows ++ (row ∷ [])) ≡ row ∷ []
    alone =
        filter-append (is_open new.session_id) rows (row ∷ [])
        ∙ rw
            (
              open-abandon_open new.session_id "no post event received" db.actions,
              str_eq_refl new.session_id,
            )
            refl

    untouched :
        (other : String)
        → str_eq new.session_id other ≡ false
        → filter (of_session other) (rows ++ (row ∷ [])) ≡ filter (of_session other) db.actions
    untouched other apart =
        filter-append (of_session other) rows (row ∷ [])
        ∙ rw (apart, ++_nil (filter (of_session other) rows))
            (others-abandon_open new.session_id other "no post event received" db.actions apart)
