-- ===== src/Hooks/PostAlong.antt =====
-- What notes, attached manifests and pruning keep of a journal, a post event keeps once it has completed
-- its action.
use doover.Base.{
  ℕ, String, Option, none, some, List, [], ◌∷◌, ◌||◌, inl, inr, ltb, ◌==◌, ◌≡◌, Bool, arith,
  Bool-cases, Option-cases,
}
use doover.Snapshot.Manifest.{Manifest}
use doover.Snapshot.Errors.{Answer, good, bad, Answer-cases}
use doover.Journal.Records.{ManifestRole, pre, post, Db, ok, Result-cases}
use doover.Journal.Reads.{manifests_by_role}
use doover.Journal.Runs.{after}
use doover.Journal.Writes.{complete_by_tool_use, add_note, attach_manifest}
use doover.Journal.Retention.{prune_before}
use doover.Undo.Types.{Machine}
use doover.Maintenance.Budget.{auto_gc_options, MaintenanceBudget}
use doover.Maintenance.Gc.{gc, GcReport}
use doover.Maintenance.Floors.{After, bound, gc-After}
use doover.Hooks.Events.{HookConfig, PostEvent, slice_limits, hook_deadline}
use doover.Hooks.Io.{
  HookIo, attempt, attempt-ok, note_call, attach_call, complete_call, read_call, auto_gc_note,
  background_note, post_skipped, post_failed,
}
use doover.Hooks.AutoGc.{is_due, note_report, run_gc, maybe_gc}
use doover.Hooks.Post.{
  Recording, record_post, record_all, record_posts, machine_of, after_background, after_foreground,
  handle_post,
}

module _ {World : Type 0} (io : HookIo World) (P : Db → Type 0)
    (noted : (action : ℕ) (text : String) (db db' : Db)
      → P db
      → add_note action text db ≡ ok db'
      → P db')
    (attached : (action : ℕ) (m : Manifest) (role : ManifestRole) (db db' : Db)
      → P db
      → attach_manifest action m role db ≡ ok db'
      → P db')
    (pruned : (cutoff : ℕ) (dry_run : Bool) (db : Db)
      → P db
      → P (prune_before cutoff dry_run db).1) where
  after_note-P :
      (w : World) (action : ℕ) (text : String) (db : Db)
      → P db
      → P (after db (attempt io note_call w (add_note action text db)))
  unfolding after
  after_note-P w action text db v =
      elim (Result-cases (attempt io note_call w (add_note action text db))) [
        | inl (db', e) ↦ rw (e, after) (noted action text db db' v (attempt-ok io note_call w _ e))
        | inr (failure, e) ↦ rw (e, after) v
      ]

  note_report-P :
      (action : ℕ) (report : Answer GcReport) (s : Machine World)
      → P s.db
      → P (note_report io action report s).db
  unfolding note_report
  note_report-P action (bad e) s v = v
  note_report-P action (good r) s v =
      elim (Bool-cases (ltb 0 r.cap_evicted_actions || r.still_over_budget)) [
        | inl loud ↦ rw loud (
            after_note-P s.world action
              (io.gap_text (auto_gc_note r.cap_evicted_actions r.still_over_budget)) s.db v)
        | inr quiet ↦ rw quiet v
      ]

  run_gc-P :
      (b : MaintenanceBudget) (action : ℕ) (s : Machine World)
      → P s.db
      → P (run_gc io b action s).db
  unfolding run_gc
  run_gc-P b action s v =
      returned (gc io.gc_store (auto_gc_options b) io.late (io.clock s.world) s) (
        gc-After io.gc_store (auto_gc_options b) io.late P
          (bound (auto_gc_options b) (io.clock s.world))
          (λ cutoff dry_run db low v. pruned cutoff dry_run db v) (io.clock s.world) s
          (λ recorded found. omega arith) v)
    where
      returned :
          (r : Option (Answer GcReport × Machine World))
          → After P r
          → P
              (elim r as (λ _. Machine World) [
                | none ↦ s
                | some (report, s') ↦
                    note_report io action report (record s' { world = io.touch_marker s'.world })
              ]).db
      returned none h = v
      returned (some (report, s')) h =
          note_report-P action report (record s' { world = io.touch_marker s'.world }) h

  maybe_gc-P :
      (cfg : HookConfig) (action : ℕ) (s : Machine World) → P s.db → P (maybe_gc io cfg action s).db
  unfolding maybe_gc
  maybe_gc-P cfg action s v =
      let opened = io.open_store s.world in
      elim (Bool-cases (cfg.maintenance.gc_every == 0)) [
        | inl off ↦ rw (off, maybe_gc) v
        | inr on ↦ elim (Bool-cases (is_due io cfg.maintenance action s.world)) [
          | inr early ↦ rw (on, early, maybe_gc) v
          | inl due ↦ elim (Option-cases opened.0) [
            | inr (failure, e) ↦ rw (on, due, e, maybe_gc) v
            | inl ready ↦
                rw (on, due, ready, maybe_gc)
                  (run_gc-P cfg.maintenance action (record s { world = opened.1 }) v)
          ]
        ]
      ]

  record_post-P :
      (cfg : HookConfig) (deadline : Option ℕ) (action : ℕ) (m : Manifest) (s : Recording World)
      → P s.db
      → P (record_post io cfg deadline action m s).db
  unfolding record_post
  record_post-P cfg deadline action m s v =
      let shot =
        io.snapshot_scoped m.path (slice_limits cfg.limits deadline (io.clock s.world)) s.world in
      elim (Answer-cases shot.0) [
        | inl (p, e) ↦
            elim (Result-cases
              (attempt io attach_call shot.1 (attach_manifest action p post s.db))) [
                | inl (db, e') ↦
                    rw (e, e', record_post)
                      (attached action p post s.db db v (attempt-ok io attach_call shot.1 _ e'))
                | inr (failure, e') ↦ rw (e, e', record_post) v
              ]
        | inr (failure, e) ↦
            elim (Result-cases (
              attempt io note_call shot.1
                (add_note action (io.gap_text (post_failed m.path failure)) s.db))) [
                  | inl (db, e') ↦
                      rw (e, e', record_post)
                        (noted action (io.gap_text (post_failed m.path failure)) s.db db v
                          (attempt-ok io note_call shot.1 _ e'))
                  | inr (lost, e') ↦ rw (e, e', record_post) v
                ]
      ]

  record_all-P :
      (cfg : HookConfig) (deadline : Option ℕ) (action : ℕ) (ms : List Manifest)
      (s : Recording World)
      → P s.db
      → P (record_all io cfg deadline action ms s).db
  unfolding record_all
  record_all-P cfg deadline action [] s v = v
  record_all-P cfg deadline action (m ∷ ms) s v =
      record_all-P cfg deadline action ms (record_post io cfg deadline action m s)
        (record_post-P cfg deadline action m s v)

  record_posts-P :
      (cfg : HookConfig) (action : ℕ) (ms : List Manifest) (s : Machine World)
      → P s.db
      → P (record_posts io cfg action ms s).db
  unfolding record_posts
  record_posts-P cfg action [] s v = v
  record_posts-P cfg action (m ∷ ms) s v =
      let opened = io.open_store s.world in
      elim (Option-cases opened.0) [
        | inl ready ↦
            rw (ready, record_posts)
              (record_all-P cfg (hook_deadline cfg.limits (io.clock opened.1)) action (m ∷ ms)
                (record { db = s.db; world = opened.1; first_error = none }) v)
        | inr (failure, e) ↦
            rw (e, record_posts)
              (after_note-P opened.1 action (io.gap_text (post_skipped failure)) s.db v)
      ]

  after_foreground-P :
      (cfg : HookConfig) (action : ℕ) (s : Machine World)
      → P s.db
      → P (after_foreground io cfg action s).1.db
  unfolding after_foreground
  after_foreground-P cfg action s v =
      elim (Result-cases (attempt io read_call s.world (manifests_by_role action pre s.db))) [
        | inr (failure, e) ↦ rw (e, after_foreground) v
        | inl (captures, e) ↦
            rw (e, after_foreground)
              (maybe_gc-P cfg action (machine_of io (record_posts io cfg action captures s))
                (record_posts-P cfg action captures s v))
      ]

  pub handle_post-P :
      (cfg : HookConfig) (ev : PostEvent) (s : Machine World) (action : ℕ) (db : Db)
      → (io.open_home s.world).0 ≡ none
      → io.fault complete_call (io.open_home s.world).1 ≡ none
      → complete_by_tool_use ev.session_id ev.tool_use_id ev.duration_ms s.db ≡ ok (action, db)
      → P db
      → P (handle_post io cfg ev s).1.db
  unfolding handle_post after_background
  handle_post-P cfg ev s action db ready fine e v =
      let w = (io.open_home s.world).1 in
      elim (Bool-cases ev.background) [
        | inl behind ↦
            rw (ready, handle_post)
              (rw (fine, attempt)
                (rw (e, behind)
                  (maybe_gc-P cfg action
                    (record {
                      db = after db (
                          attempt io note_call w
                            (add_note action (io.gap_text background_note) db));
                      world = w;
                    })
                    (after_note-P w action (io.gap_text background_note) db v))))
        | inr ahead ↦
            rw (ready, handle_post)
              (rw (fine, attempt)
                (rw (e, ahead) (after_foreground-P cfg action (record { db = db; world = w }) v)))
      ]
