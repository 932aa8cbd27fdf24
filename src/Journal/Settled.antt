-- ===== src/Journal/Settled.antt =====
-- A completed row of crates/doover-core/src/journal.rs, and what leaves it completed.
use doover.Base.{
  ℕ, String, ◌≡◌, refl, ap, subst, Bool, true, false, not, ◌||◌, some, List, [], ◌∷◌, All, any,
  filter, arith, Bool-cases, inl, inr,
}
use doover.Snapshot.Manifest.{Manifest}
use doover.Journal.Records.{ActionRecord, ManifestRole, Db, ok, ok-injective, completed}
use doover.Journal.Tables.{update_where, has_id}
use doover.Journal.Writes.{add_note, update_action, attach_manifest, appended_note}
use doover.Journal.Retention.{is_candidate, pruned_actions, prune_before}

-- If it has the id, it is completed with the duration.
abbrev pub IsSettledRow : ℕ → ℕ → ActionRecord → Type 0
IsSettledRow id duration r = r.id ≡ id → (r.status ≡ completed) × (r.duration_ms ≡ some duration)

-- No row with the id is other than completed, with the duration.
unfoldable pub IsSettled : ℕ → ℕ → Db → Type 0
IsSettled id duration db = All (IsSettledRow id duration) db.actions

pub completed-AreSettled :
    (id duration : ℕ) (rows : List ActionRecord)
    → All (IsSettledRow id duration) (
        update_where
          (has_id id)
          (λ a. record a { status = completed; duration_ms = some duration })
          rows)
unfolding update_where
completed-AreSettled id duration [] = tt
completed-AreSettled id duration (r ∷ rows) = elim (Bool-cases (has_id id r)) [
  | inl hit ↦ rw hit (λ e. (refl, refl), completed-AreSettled id duration rows)
  | inr miss ↦
      rw miss (λ e. absurd (ground (arith, miss, e)), completed-AreSettled id duration rows)
]

pub any-completed :
    (id n duration : ℕ) (rows : List ActionRecord)
    → any
        (update_where
          (has_id id)
          (λ a. record a { status = completed; duration_ms = some duration })
          rows)
        (has_id n)
      ≡ any rows (has_id n)
unfolding update_where
any-completed id n duration [] = refl
any-completed id n duration (r ∷ rows) = elim (Bool-cases (has_id id r)) [
  | inl hit ↦ rw hit (ap (λ b. has_id n r || b) (any-completed id n duration rows))
  | inr miss ↦ rw miss (ap (λ b. has_id n r || b) (any-completed id n duration rows))
]

module _ (id duration : ℕ) where
  noted-AreSettled :
      (action : ℕ) (text : String) (rows : List ActionRecord)
      → All (IsSettledRow id duration) rows
      → All (IsSettledRow id duration) (
          update_where
            (has_id action)
            (λ r. record r { note = some (appended_note r.note text) })
            rows)
  unfolding update_where
  noted-AreSettled action text [] h = tt
  noted-AreSettled action text (r ∷ rows) (h, hs) = elim (Bool-cases (has_id action r)) [
    | inl hit ↦ rw hit (h, noted-AreSettled action text rows hs)
    | inr miss ↦ rw miss (h, noted-AreSettled action text rows hs)
  ]

  pub add_note-IsSettled :
      (action : ℕ) (text : String) (db : Db) {db' : Db}
      → IsSettled id duration db
      → add_note action text db ≡ ok db'
      → IsSettled id duration db'
  unfolding add_note update_action IsSettled
  add_note-IsSettled action text db {db'} v h = elim (Bool-cases (any db.actions (has_id action))) [
    | inl known ↦
        subst (λ (d : Db). All (IsSettledRow id duration) d.actions)
          (ok-injective _ db' (rw known at h)) (noted-AreSettled action text db.actions v)
    | inr missing ↦ cc (rw missing at h)
  ]

  pub attach_manifest-IsSettled :
      (action : ℕ) (m : Manifest) (role : ManifestRole) (db : Db) {db' : Db}
      → IsSettled id duration db
      → attach_manifest action m role db ≡ ok db'
      → IsSettled id duration db'
  unfolding attach_manifest IsSettled
  attach_manifest-IsSettled action m role db {db'} v h =
      elim (Bool-cases (any db.actions (has_id action))) [
        | inl known ↦
            subst (λ (d : Db). All (IsSettledRow id duration) d.actions)
              (ok-injective _ db' (rw known at h)) v
        | inr missing ↦ cc (rw missing at h)
      ]

  filter-AreSettled :
      (p : ActionRecord → Bool) (rows : List ActionRecord)
      → All (IsSettledRow id duration) rows
      → All (IsSettledRow id duration) (filter p rows)
  filter-AreSettled p [] h = tt
  filter-AreSettled p (r ∷ rows) (h, hs) = elim (Bool-cases (p r)) [
    | inl kept ↦ rw kept (h, filter-AreSettled p rows hs)
    | inr gone ↦ rw gone (filter-AreSettled p rows hs)
  ]

  pub prune_before-IsSettled :
      (cutoff : ℕ) (dry_run : Bool) (db : Db)
      → IsSettled id duration db
      → IsSettled id duration (prune_before cutoff dry_run db).1
  unfolding prune_before pruned_actions IsSettled
  prune_before-IsSettled cutoff true db v = v
  prune_before-IsSettled cutoff false db v =
      filter-AreSettled (λ a. not (is_candidate cutoff db.actions a)) db.actions v
