-- ===== src/Undo/Newest.antt =====
-- A bare undo passes over every candidate that is newer than the one that it picks.
use doover.Base.{◌<◌, ◌≡◌, ◌≢◌, ◌⊎◌, true, not, List, [], ◌∷◌, ◌&&◌, ◌||◌, All}
use doover.Snapshot.Manifest.{Manifest}
use doover.Snapshot.Errors.{Store}
use doover.Snapshot.Same.{same_state}
use doover.Journal.Records.{ActionRecord, Db, pre, post, ok}
use doover.Journal.Reads.{manifests_by_role}
use doover.Undo.Types.{in_force}
use doover.Undo.Select.{is_empty, is_skeleton, restorability}

-- The ids fall in the order of the list.
Falling : List ActionRecord → Type 0
Falling [] = Unit
Falling (x ∷ xs) = All (λ (y : ActionRecord). y.id < x.id) xs × Falling xs

module _ {World : Type 0} (store : Store World) (world : World) where
  -- Why a candidate is passed over: it has no captures from before it, or only truncated ones without
  -- a file; or those from after it, of which there are some, describe the same state; or its effect
  -- does not count as in force.
  pub IsPassedOver : Db → ActionRecord → Type 0
  IsPassedOver db c =
      (before : List Manifest) × (manifests_by_role c.id pre db ≡ ok before)
      × (((is_empty before || is_skeleton before) ≡ true)
          ⊎ (((after : List Manifest) × (manifests_by_role c.id post db ≡ ok after)
                × ((not (is_empty after) && same_state before after) ≡ true))
              ⊎ (restorability store world before ≢ in_force)))
