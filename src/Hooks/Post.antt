-- ===== src/Hooks/Post.antt =====
-- crates/doover-core/src/hooks.rs: `handle_post`.
use doover.Base.{ℕ, Option, none, some, List, [], ◌∷◌, if◌then◌else◌}
use doover.Snapshot.Manifest.{Manifest}
use doover.Snapshot.Errors.{good, bad}
use doover.Journal.Records.{pre, post, Db, ok, err, Result}
use doover.Journal.Reads.{manifests_by_role}
use doover.Journal.Runs.{after}
use doover.Journal.Writes.{complete_by_tool_use, add_note, attach_manifest}
use doover.Undo.Types.{Machine}
use doover.Hooks.Events.{
  HookConfig, HookError, PostEvent, Handled, handled, refused, journal_failed, snapshot_failed,
  slice_limits, hook_deadline,
}
use doover.Hooks.Io.{
  background_note, post_skipped, post_failed, HookIo, attempt, note_call, attach_call,
  complete_call, read_call,
}
use doover.Hooks.AutoGc.{maybe_gc}

-- The journal, the world and the first error.
pub record Recording (World : Type 0) : Type 0 where
  pub db : Db
  pub world : World
  pub first_error : Option HookError

-- `get_or_insert`
abbrev pub first_of : Option HookError → HookError → Option HookError
first_of none e = some e
first_of (some e) e' = some e

module _ {World : Type 0} (io : HookIo World) where
  -- The path's post state is attached, or its failure noted.
  unfoldable pub record_post :
      HookConfig → Option ℕ → ℕ → Manifest → Recording World → Recording World
  unfolding attach_manifest add_note slice_limits attempt
  record_post cfg deadline action m s =
      let (answer, w) =
        io.snapshot_scoped m.path (slice_limits cfg.limits deadline (io.clock s.world)) s.world in
      let recorded : Result Db = elim answer [
        | good p ↦ attempt io attach_call w (attach_manifest action p post s.db)
        | bad e ↦ attempt io note_call w (add_note action (io.gap_text (post_failed m.path e)) s.db)
      ] in
      elim recorded [
        | ok db ↦ record s { db = db; world = w }
        | err e ↦ record s { world = w; first_error = first_of s.first_error (journal_failed e) }
      ]

  unfoldable pub record_all :
      HookConfig → Option ℕ → ℕ → List Manifest → Recording World → Recording World
  unfolding record_post
  record_all cfg deadline action [] s = s
  record_all cfg deadline action (m ∷ ms) s =
      record_all cfg deadline action ms (record_post cfg deadline action m s)

  -- The store is opened if the action has captures.
  unfoldable pub record_posts : HookConfig → ℕ → List Manifest → Machine World → Recording World
  unfolding record_all add_note after hook_deadline attempt
  record_posts cfg action [] s = record { db = s.db; world = s.world; first_error = none }
  record_posts cfg action (m ∷ ms) s =
      let (opened, w) = io.open_store s.world in
      elim opened [
        | some e ↦ record {
          db =
              after s.db
                (attempt io note_call w (add_note action (io.gap_text (post_skipped e)) s.db));
          world = w;
          first_error = some (snapshot_failed e);
        }
        | none ↦
            record_all cfg (hook_deadline cfg.limits (io.clock w)) action (m ∷ ms)
              (record { db = s.db; world = w; first_error = none })
      ]

  abbrev pub machine_of : Recording World → Machine World
  machine_of r = record { db = r.db; world = r.world }

  abbrev pub result_of : ℕ → Option HookError → Handled ℕ
  result_of action none = handled action
  result_of action (some e) = refused e

  -- A command in the background has no post state.
  unfoldable pub after_background : HookConfig → ℕ → Machine World → Machine World
  unfolding add_note after maybe_gc attempt
  after_background cfg action s = maybe_gc io cfg action (record s {
    db =
        after s.db
          (attempt io note_call s.world (add_note action (io.gap_text background_note) s.db));
  })

  unfoldable pub after_foreground : HookConfig → ℕ → Machine World → Handled ℕ × Machine World
  unfolding manifests_by_role record_posts maybe_gc attempt
  after_foreground cfg action s =
      elim (attempt io read_call s.world (manifests_by_role action pre s.db)) [
        | err e ↦ (refused (journal_failed e), s)
        | ok captures ↦
            let recorded = record_posts cfg action captures s in
            (result_of action recorded.first_error, maybe_gc io cfg action (machine_of recorded))
      ]

  unfoldable pub handle_post : HookConfig → PostEvent → Machine World → Handled ℕ × Machine World
  unfolding complete_by_tool_use after_background after_foreground attempt
  handle_post cfg ev s =
      let (opened, w) = io.open_home s.world in
      elim opened [
        | some e ↦ (refused e, record s { world = w })
        | none ↦
            elim (attempt io complete_call w
              (complete_by_tool_use ev.session_id ev.tool_use_id ev.duration_ms s.db)) [
                | err e ↦ (refused (journal_failed e), record s { world = w })
                | ok (action, db) ↦
                    if ev.background
                    then (
                      handled action,
                      after_background cfg action (record { db = db; world = w }),
                    )
                    else after_foreground cfg action (record { db = db; world = w })
              ]
      ]
