-- ===== src/Undo/Select.antt =====
-- crates/doover-core/src/undo.rs: what a bare `doover undo` picks, and whether an action may be
-- undone.
use doover.Base.{
  ℕ, zero, suc, Bool, true, false, not, Option, none, some, List, [], ◌∷◌, ◌&&◌, ◌||◌, all, any,
  if◌then◌else◌,
}
use doover.Snapshot.Manifest.{Manifest, Entry, file, dir, symlink, fifo}
use doover.Snapshot.Errors.{good, bad, Store}
use doover.Snapshot.Same.{same_state}
use doover.Journal.Records.{
  pre, post, ActionRecord, command, undo, pending, completed, abandoned, undone, Db, ok, err,
}
use doover.Journal.Tables.{find_action}
use doover.Journal.Reads.{manifests_by_role, undo_candidates}
use doover.Undo.Types.{
  Restorability, in_force, already_done, indeterminate, Selector, latest, action, Attempt, done,
  failed, ◌>>=◌, of_journal, no_undoable_action, not_undoable, to_undo, own_record, is_an_undo,
  has_status,
}

abbrev pub undo_candidate_scan : ℕ
undo_candidate_scan = 128

unfoldable pub is_file : Entry → Bool
is_file e = elim e.kind [
  | file hash len mode mtime xattrs ↦ true
  | dir mode ↦ false
  | symlink target ↦ false
  | fifo mode ↦ false
]

abbrev pub is_empty {ℓ} : {A : Type ℓ} → List A → Bool
is_empty [] = true
is_empty (x ∷ xs) = false

-- Truncated captures without a single file.
unfoldable pub is_skeleton : List Manifest → Bool
unfolding is_file
is_skeleton ms = all ms (λ m. m.truncated && not (any m.entries is_file))

-- The walk of at most the given number of hops from an id to a command.
unfoldable pub command_below : ℕ → List ActionRecord → ℕ → Option ℕ
command_below zero rows cur = none
command_below (suc hops) rows cur = elim (find_action rows cur) [
  | err e ↦ none
  | ok r ↦ elim r.kind [
    | command ↦ some r.id
    | undo ↦ elim r.target_action_id [ none ↦ none | some t ↦ command_below hops rows t ]
  ]
]

unfoldable pub original_command_of : List ActionRecord → ActionRecord → Option ℕ
unfolding command_below
original_command_of rows r = elim r.target_action_id [
  | none ↦ none
  | some t ↦ command_below 64 rows t
]

-- Whether an action that was selected may be undone.
unfoldable pub check_target : Db → ActionRecord → Attempt ActionRecord
check_target db target = elim target.kind [
  | undo ↦ failed (
      not_undoable target.id to_undo (elim (original_command_of db.actions target) [
        | none ↦ is_an_undo
        | some cmd ↦ own_record cmd
      ]))
  | command ↦ elim target.status [
    | pending ↦ failed (not_undoable target.id to_undo (has_status pending))
    | completed ↦ done target
    | abandoned ↦ done target
    | undone ↦ done target
  ]
]

unfoldable pub is_in_force : Restorability → Bool
is_in_force in_force = true
is_in_force already_done = false
is_in_force indeterminate = false

module _ {World : Type 0} (store : Store World) (world : World) where
  -- The loop of `restorability`, with its two flags.
  unfoldable pub restorability_from : Bool → Bool → List Manifest → Restorability
  restorability_from all_match any_truncated [] =
      if not all_match || any_truncated then in_force else already_done
  restorability_from all_match any_truncated (m ∷ ms) = elim (store.state_matches_mode m world) [
    | good matches ↦ restorability_from (matches && all_match) (m.truncated || any_truncated) ms
    | bad e ↦ indeterminate
  ]

  unfoldable pub restorability : List Manifest → Restorability
  restorability ms = restorability_from true false ms

  unfoldable pub world_matches : List Manifest → Bool
  world_matches ms = elim (restorability ms) [
    | in_force ↦ false
    | already_done ↦ true
    | indeterminate ↦ false
  ]

  -- The body of the scan: whether the scan stops at this candidate.
  unfoldable pub is_target_of_scan : Db → ActionRecord → Attempt Bool
  is_target_of_scan db cand = of_journal (manifests_by_role cand.id pre db) >>= λ before.
      if is_empty before || is_skeleton before
      then done false
      else (of_journal (manifests_by_role cand.id post db) >>= λ after.
          if not (is_empty after) && same_state before after
          then done false
          else done (is_in_force (restorability before)))

  unfoldable pub scan : Db → List ActionRecord → Attempt ActionRecord
  scan db [] = failed no_undoable_action
  scan db (cand ∷ rest) =
      let deeper = scan db rest in
      is_target_of_scan db cand >>= λ hit. if hit then done cand else deeper

  unfoldable pub pick_latest_undoable : Db → Attempt ActionRecord
  pick_latest_undoable db = scan db (undo_candidates undo_candidate_scan db)

  unfoldable pub select_undo_target : Selector → Db → Attempt ActionRecord
  select_undo_target latest db = pick_latest_undoable db >>= check_target db
  select_undo_target (action id) db = of_journal (find_action db.actions id) >>= check_target db
