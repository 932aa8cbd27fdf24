-- ===== src/Hooks/Recorded.antt =====
-- What a post event that reports success has recorded.
use doover.Base.{ℕ, Option, List, [], ◌∷◌, ◌≡◌, ◌⊎◌}
use doover.Snapshot.Manifest.{Manifest}
use doover.Snapshot.Errors.{SnapshotError, good, bad}
use doover.Journal.Records.{post, ok}
use doover.Journal.Writes.{add_note, attach_manifest}
use doover.Hooks.Events.{HookConfig, slice_limits}
use doover.Hooks.Io.{HookIo, post_failed}
use doover.Hooks.Post.{Recording, record_post}

module _ {World : Type 0} (io : HookIo World) (cfg : HookConfig) (deadline : Option ℕ)
    (action : ℕ) where
  -- The path was captured and the capture attached as the state after the action, or it could not be
  -- captured and a note on the action says so.
  pub IsRecorded : Manifest → Recording World → Recording World → Type 0
  IsRecorded m s s' =
      let shot =
        (io.snapshot_scoped m.path (slice_limits cfg.limits deadline (io.clock s.world))
          s.world).0 in
      ((p : Manifest) × (shot ≡ good p) × (attach_manifest action p post s.db ≡ ok s'.db))
      ⊎ ((e : SnapshotError) × (shot ≡ bad e)
          × (add_note action (io.gap_text (post_failed m.path e)) s.db ≡ ok s'.db))

  -- The paths are recorded one after the other.
  unfoldable pub AreRecorded : List Manifest → Recording World → Type 0
  AreRecorded [] s = Unit
  AreRecorded (m ∷ ms) s =
      IsRecorded m s (record_post io cfg deadline action m s)
      × AreRecorded ms (record_post io cfg deadline action m s)
