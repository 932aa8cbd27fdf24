-- ===== src/Undo/Picked.antt =====
-- Where the scan of a bare `doover undo` stops.
use doover.Base.{
  ◌≡◌, ◌↔◌, ◌∙◌, refl, ap, Bool, true, false, not, List, [], ◌∷◌, ◌++◌, All, if◌then◌else◌, ◌&&◌,
  ◌||◌, inl, inr, Bool-cases,
}
use doover.Snapshot.Manifest.{Manifest}
use doover.Snapshot.Errors.{Store, Answer-cases, good}
use doover.Snapshot.Same.{same_state}
use doover.Journal.Records.{ActionRecord, Db, Result, ok, err, pre, post}
use doover.Journal.Reads.{manifests_by_role, undo_candidates}
use doover.Undo.Types.{Restorability, in_force, already_done, indeterminate, done, of_journal}
use doover.Undo.Select.{
  is_empty, is_skeleton, restorability, restorability_from, world_matches, is_in_force,
  is_target_of_scan, scan, pick_latest_undoable, undo_candidate_scan,
}
use doover.Undo.Inversion.{done-injective, bind-done}

-- A path whose state, modes included, is the recorded one, of which the record is complete.
abbrev pub IsRestored : {World : Type 0} → Store World → World → Manifest → Type 0
IsRestored store world m = (store.state_matches_mode m world ≡ good true) × (m.truncated ≡ false)

module _ {World : Type 0} (store : Store World) (world : World) where
  already_done-IsRestored :
      (all_match any_truncated : Bool) (ms : List Manifest)
      → restorability_from store world all_match any_truncated ms ≡ already_done
      → (all_match ≡ true) × (any_truncated ≡ false) × All (IsRestored store world) ms
  unfolding restorability_from
  already_done-IsRestored true false [] h = (refl, refl, tt)
  already_done-IsRestored true true [] h = cc
  already_done-IsRestored false b [] h = cc
  already_done-IsRestored all_match any_truncated (m ∷ ms) h =
      elim (Answer-cases (store.state_matches_mode m world)) [
        | inl (matches, e) ↦
            let (both, neither, rest) =
              already_done-IsRestored _ _ ms (rw (e, restorability_from) at h) in
            let (hit, before) = both_true matches all_match both in
            let (whole, clean) = neither_true m.truncated any_truncated neither in
            (before, clean, ((e ∙ rw hit refl, whole), rest))
        | inr (failure, e) ↦ cc (rw (e, restorability_from) at h)
      ]
    where
      both_true : (a b : Bool) → (a && b) ≡ true → (a ≡ true) × (b ≡ true)
      both_true true b h = (refl, h)
      both_true false b h = cc

      neither_true : (a b : Bool) → (a || b) ≡ false → (a ≡ false) × (b ≡ false)
      neither_true true b h = cc
      neither_true false b h = (refl, h)

  IsRestored-already_done :
      (ms : List Manifest)
      → All (IsRestored store world) ms
      → restorability_from store world true false ms ≡ already_done
  unfolding restorability_from
  IsRestored-already_done [] h = refl
  IsRestored-already_done (m ∷ ms) h =
      rw (h.0.0, h.0.1, restorability_from) (IsRestored-already_done ms h.1)

  matches-already_done :
      (ms : List Manifest)
      → world_matches store world ms ≡ true
      → restorability store world ms ≡ already_done
  unfolding world_matches
  matches-already_done ms = by_cases (restorability store world ms)
    where
      by_cases :
          (r : Restorability)
          → elim r [ in_force ↦ false | already_done ↦ true | indeterminate ↦ false ] ≡ true
          → r ≡ already_done
      by_cases in_force h = cc
      by_cases already_done h = refl
      by_cases indeterminate h = cc

  -- The world counts as already restored exactly if each path can be read and is in its recorded
  -- state, modes included, and no capture was truncated.
  pub world_matches-IsRestored :
      (ms : List Manifest) → (world_matches store world ms ≡ true) ↔ All (IsRestored store world) ms
  unfolding restorability world_matches
  world_matches-IsRestored ms = (
    λ h. (already_done-IsRestored true false ms (matches-already_done ms h)).2,
    λ h. rw (IsRestored-already_done ms h, world_matches, restorability) refl,
  )

  scan-first :
      (db : Db) (candidates : List ActionRecord) (a : ActionRecord)
      → scan store world db candidates ≡ done a
      → (newer older : List ActionRecord) × (candidates ≡ newer ++ (a ∷ older))
        × All (λ c. is_target_of_scan store world db c ≡ done false) newer
        × (is_target_of_scan store world db a ≡ done true)
  unfolding scan
  scan-first db [] a h = cc
  scan-first db (c ∷ rest) a h =
      let (hit, e, h1) =
        bind-done (is_target_of_scan store world db c)
          (λ (b : Bool). if b then done c else scan store world db rest) a h in
      elim (Bool-cases hit) [
        | inl yes_hit ↦
            let same : c ≡ a = done-injective c a (rw yes_hit at h1) in
            (
              [],
              rest,
              ap (λ (x : ActionRecord). x ∷ rest) same,
              tt,
              rw⁻¹ same (e ∙ rw yes_hit refl),
            )
        | inr miss ↦
            let (newer, older, split, skipped, found) = scan-first db rest a (rw miss at h1) in
            (
              c ∷ newer,
              older,
              ap (λ (xs : List ActionRecord). c ∷ xs) split,
              (e ∙ rw miss refl, skipped),
              found,
            )
      ]

  pub of_journal-ok {ℓ} : {A : Type ℓ} (r : Result A) (a : A) → of_journal r ≡ done a → r ≡ ok a
  of_journal-ok (ok b) a h = ap ok (done-injective b a h)
  of_journal-ok (err e) a h = cc

  -- Why the scan stops at an action.
  abbrev pub IsPick : Db → ActionRecord → Type 0
  IsPick db a =
      (before after : List Manifest) × (manifests_by_role a.id pre db ≡ ok before)
      × ((is_empty before || is_skeleton before) ≡ false)
      × (manifests_by_role a.id post db ≡ ok after)
      × ((not (is_empty after) && same_state before after) ≡ false)
      × (restorability store world before ≡ in_force)

  in_force-only : (r : Restorability) → done (is_in_force r) ≡ done true → r ≡ in_force
  unfolding is_in_force
  in_force-only in_force h = refl
  in_force-only already_done h = cc (done-injective false true h)
  in_force-only indeterminate h = cc (done-injective false true h)

  hit-IsPick :
      (db : Db) (a : ActionRecord) → is_target_of_scan store world db a ≡ done true → IsPick db a
  unfolding is_target_of_scan
  hit-IsPick db a h =
      let (before, e, h1) = bind-done (of_journal (manifests_by_role a.id pre db)) _ true h in
      elim (Bool-cases (is_empty before || is_skeleton before)) [
        | inl nothing ↦ cc (done-injective false true (rw nothing at h1))
        | inr something ↦
            let (after, e2, h2) =
              bind-done (of_journal (manifests_by_role a.id post db))
                (λ (after : List Manifest).
                  if not (is_empty after) && same_state before after
                  then done false
                  else done (is_in_force (restorability store world before)))
                true (rw something at h1) in
            elim (Bool-cases (not (is_empty after) && same_state before after)) [
              | inl same ↦ cc (done-injective false true (rw same at h2))
              | inr differs ↦ (
                before,
                after,
                of_journal-ok _ before e,
                something,
                of_journal-ok _ after e2,
                differs,
                in_force-only (restorability store world before) (rw differs at h2),
              )
            ]
      ]

  -- A bare undo picks the first of the candidates, in the order of the query, that qualifies: those in
  -- front of it were read and passed over. It has captures from before it, which are not all truncated and without a file; its captures from
  -- after it, if it has any, do not describe the same state; and its effect counts as in force.
  pub pick_latest_undoable-IsPick :
      (db : Db) (a : ActionRecord)
      → pick_latest_undoable store world db ≡ done a
      → ((newer older : List ActionRecord) × (undo_candidates undo_candidate_scan db
            ≡ newer ++ (a ∷ older))
          × All (λ c. is_target_of_scan store world db c ≡ done false) newer)
        × IsPick db a
  unfolding pick_latest_undoable
  pick_latest_undoable-IsPick db a h =
      let (newer, older, split, skipped, found) =
        scan-first db (undo_candidates undo_candidate_scan db) a h in
      ((newer, older, split, skipped), hit-IsPick db a found)
