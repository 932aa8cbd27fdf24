-- ===== src/Undo/Check.antt =====
-- crates/doover-core/src/undo.rs: `execute` up to its first change, the conflict check and the plan.
use doover.Base.{
  Bool, not, none, some, List, [], ◌∷◌, ◌++◌, ◌&&◌, length, map, filter, if◌then◌else◌,
}
use doover.Snapshot.Manifest.{Manifest, present, absent}
use doover.Snapshot.Errors.{Store}
use doover.Snapshot.Same.{find_path, root_eq}
use doover.Journal.Records.{ActionRecord}
use doover.Undo.Types.{
  Message, truncated_capture, partial_check, changed, unverified_background, unverified, one_way,
  whole_directory, delete_path, restore_path, Attempt, done, ◌>>=◌, of_store_answer,
}

-- Warnings and conflicts.
abbrev pub Notes : Type 0
Notes = List Message × List Message

abbrev pub join : Notes → Notes → Notes
join a b = (a.0 ++ b.0, a.1 ++ b.1)

unfoldable pub truncation_notes : Bool → Manifest → Notes
truncation_notes force m =
    if m.truncated
    then if force then (truncated_capture m.path ∷ [], []) else ([], truncated_capture m.path ∷ [])
    else ([], [])

module _ {World : Type 0} (store : Store World) (world : World) where
  -- What the recorded state of the path says about the world.
  unfoldable pub oracle_notes : Bool → List Manifest → Manifest → Attempt Notes
  oracle_notes background oracle m = elim (find_path m.path oracle) [
    | none ↦
        done ([], (if background then unverified_background m.path else unverified m.path) ∷ [])
    | some o ↦ of_store_answer (store.state_matches o world) >>= λ matches. done (
      if o.truncated then partial_check m.path ∷ [] else [],
      if matches then [] else changed m.path ∷ [],
    )
  ]

  -- The loop over the paths to restore.
  unfoldable pub conflict_check : Bool → Bool → List Manifest → List Manifest → Attempt Notes
  conflict_check force background oracle [] = done ([], [])
  conflict_check force background oracle (m ∷ ms) =
      let rest = conflict_check force background oracle ms in
      oracle_notes background oracle m >>= λ here.
      rest >>= λ later. done (join (join (truncation_notes force m) here) later)

unfoldable pub plan_line : Manifest → Message
plan_line m = elim m.root [
  | absent ↦ delete_path m.path
  | present ↦ restore_path m.path (length m.entries)
]

-- The warnings that the check does not give: a forced undo of a background command, and the scope of
-- a defensive snapshot.
unfoldable pub scope_warnings : Bool → ActionRecord → List Manifest → List Message
scope_warnings force target ms =
    (if force && target.background then one_way ∷ [] else [])
    ++ (if target.has_unknown
        then map (λ m. whole_directory m.path (length m.entries))
            (filter (λ m. not (root_eq m.root absent)) ms)
        else [])
