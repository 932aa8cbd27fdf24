-- ===== src/Undo/Recorded.antt =====
-- What an undo that is recorded has done.
use doover.Base.{◌≡◌, List, [], ◌∷◌}
use doover.Snapshot.Manifest.{Manifest}
use doover.Snapshot.Errors.{Store, RestoreReport, good}

-- The worlds between which the restores lead, each of which succeeds.
abbrev pub RestoresTo : {World : Type 0} → Store World → List Manifest → World → World → Type 0
RestoresTo store [] w w' = w ≡ w'
RestoresTo {World} store (m ∷ ms) w w' =
    (report : RestoreReport) × (next : World) × (store.restore m w ≡ (good report, next))
    × RestoresTo store ms next w'
