-- ===== src/Hooks/Pre.antt =====
-- crates/doover-core/src/hooks.rs: `handle_pre`.
use doover.Base.{
  ℕ, suc, Bool, true, false, not, Option, none, some, List, [], ◌∷◌, ◌++◌, ◌&&◌, filter, leb,
  if◌then◌else◌,
}
use doover.Paths.{FilePath}
use doover.Registry.Rules.{Checked}
use doover.Registry.Overlay.{with_overlay}
use doover.Snapshot.Manifest.{Manifest}
use doover.Snapshot.Errors.{good, bad}
use doover.Snapshot.Same.{path_eq}
use doover.Journal.Records.{pre, NewAction, Db, Result, ok, err}
use doover.Journal.Writes.{begin_session, start_action, add_note, attach_manifest}
use doover.Undo.Types.{Machine}
use doover.Resolver.Lexical.{normalize_lexical}
use doover.Resolver.Outcome.{Severity, rank, as_str, Resolution}
use doover.Resolver.Walker.{resolve}
use doover.Hooks.Events.{
  UnknownPolicy, snapshot_cwd, passthrough, HookConfig, PreEvent, Handled, handled, refused,
  journal_failed, registry_failed, slice_limits, hook_deadline,
}
use doover.Hooks.Io.{
  Gap, store_closed, truncated_at_limits, partial_capture, not_journaled, capture_failed,
  notes_failing, HookIo, attempt, begin_call, start_call, note_call, attach_call,
}

pub record PreOutcome : Type 0 where
  pub action_id : ℕ
  pub manifests_attached : ℕ
  pub severity : Severity
  pub gaps : List Gap

abbrev pub is_empty {ℓ} : {A : Type ℓ} → List A → Bool
is_empty [] = true
is_empty (x ∷ xs) = false

unfoldable pub needs_warning : PreOutcome → Bool
needs_warning o = not (is_empty o.gaps)

abbrev pub is_snapshot_cwd : UnknownPolicy → Bool
is_snapshot_cwd snapshot_cwd = true
is_snapshot_cwd passthrough = false

unfoldable pub cwd_fallback : UnknownPolicy → Resolution → FilePath → Option FilePath
unfolding normalize_lexical
cwd_fallback policy r cwd =
    if r.has_unknown && is_snapshot_cwd policy then some (normalize_lexical cwd) else none

abbrev pub is_fallback : Option FilePath → FilePath → Bool
is_fallback none p = false
is_fallback (some cwd) p = path_eq cwd p

abbrev pub to_list {ℓ} : {A : Type ℓ} → Option A → List A
to_list none = []
to_list (some a) = a ∷ []

-- The fallback comes first.
unfoldable pub targets_of : Resolution → Option FilePath → List FilePath
targets_of r fallback =
    to_list fallback
    ++ (if leb 4 (rank r.severity) then filter (λ p. not (is_fallback fallback p)) r.paths else [])

-- What the captures have done so far.
pub record Capture (World : Type 0) : Type 0 where
  pub db : Db
  pub world : World
  pub gaps : List Gap
  pub failing : Bool
  pub attached : ℕ

module _ {World : Type 0} (io : HookIo World) where
  unfoldable pub note_gap : ℕ → Gap → Capture World → Capture World
  unfolding attempt
  note_gap action gap s =
      elim (attempt io note_call s.world (add_note action (io.gap_text gap) s.db)) [
        | ok db ↦ record s { db = db; gaps = s.gaps ++ (gap ∷ []) }
        | err e ↦ record s { failing = true; gaps = s.gaps ++ (gap ∷ []) }
      ]

  unfoldable pub note_gap_if : Bool → ℕ → Gap → Capture World → Capture World
  unfolding note_gap
  note_gap_if b action gap s = let noted = note_gap action gap s in if b then noted else s

  unfoldable pub attach_pre : ℕ → FilePath → Manifest → Capture World → Capture World
  unfolding note_gap attempt
  attach_pre action path m s =
      elim (attempt io attach_call s.world (attach_manifest action m pre s.db)) [
        | ok db ↦ record s { db = db; attached = suc s.attached }
        | err e ↦ note_gap action (not_journaled path e) s
      ]

  -- One target's capture: what it lacks is noted, and it is attached.
  unfoldable pub keep_capture : ℕ → FilePath → Manifest → Capture World → Capture World
  unfolding note_gap_if attach_pre
  keep_capture action path m s = attach_pre action path m (
      note_gap_if (not (is_empty m.warnings)) action (partial_capture path m.warnings)
        (note_gap_if m.truncated action (truncated_at_limits path m.skipped) s))

  unfoldable pub capture_target :
      HookConfig → Option ℕ → ℕ → FilePath → Capture World → Capture World
  unfolding note_gap keep_capture slice_limits
  capture_target cfg deadline action path s =
      let (answer, w) =
        io.snapshot_scoped path (slice_limits cfg.limits deadline (io.clock s.world)) s.world in
      elim answer [
        | good m ↦ keep_capture action path m (record s { world = w })
        | bad e ↦ note_gap action (capture_failed path e) (record s { world = w })
      ]

  unfoldable pub capture_all :
      HookConfig → Option ℕ → ℕ → List FilePath → Capture World → Capture World
  unfolding capture_target
  capture_all cfg deadline action [] s = s
  capture_all cfg deadline action (p ∷ ps) s =
      capture_all cfg deadline action ps (capture_target cfg deadline action p s)

  -- The store is opened if there is a target.
  unfoldable pub capture_targets : HookConfig → ℕ → List FilePath → Capture World → Capture World
  unfolding capture_all note_gap hook_deadline
  capture_targets cfg action [] s = s
  capture_targets cfg action (p ∷ ps) s =
      let (opened, w) = io.open_store s.world in
      elim opened [
        | some e ↦ note_gap action (store_closed e) (record s { world = w })
        | none ↦
            capture_all cfg (hook_deadline cfg.limits (io.clock w)) action (p ∷ ps)
              (record s { world = w })
      ]

  abbrev pub outcome_of : ℕ → Severity → Capture World → PreOutcome
  outcome_of action severity s = record {
    action_id = action;
    manifests_attached = s.attached;
    severity = severity;
    gaps = s.gaps ++ (if s.failing then notes_failing ∷ [] else []);
  }

  abbrev pub begun : Db → World → Capture World
  begun db w = record { db = db; world = w; gaps = []; failing = false; attached = 0 }

  -- The captures of an action that is journaled.
  unfoldable pub protect :
      HookConfig → PreEvent → Resolution → ℕ → Machine World → PreOutcome × Machine World
  unfolding capture_targets targets_of cwd_fallback
  protect cfg ev r action s =
      let targets = targets_of r (cwd_fallback cfg.unknown_policy r ev.cwd) in
      let captured = capture_targets cfg action targets (begun s.db s.world) in
      (outcome_of action r.severity captured, record { db = captured.db; world = captured.world })

  abbrev pub new_action : PreEvent → Resolution → NewAction
  new_action ev r = record {
    session_id = ev.session_id;
    tool_use_id = some ev.tool_use_id;
    raw_command = io.redact ev.command;
    effect = as_str r.severity;
    rule_id = r.rule_id;
    has_unknown = r.has_unknown;
    background = ev.background;
  }

  -- The command is resolved before the action is journaled.
  unfoldable pub journal_action :
      HookConfig → PreEvent → Resolution → Machine World → Handled PreOutcome × Machine World
  unfolding start_action protect as_str attempt
  journal_action cfg ev r s =
      elim (attempt io start_call s.world
        (start_action (new_action ev r) (io.clock s.world) s.db)) [
          | err e ↦ (refused (journal_failed e), s)
          | ok (action, db) ↦
              let protected = protect cfg ev r action (record s { db = db }) in
              (handled protected.0, protected.1)
        ]

  unfoldable pub handle_pre :
      HookConfig → PreEvent → Machine World → Handled PreOutcome × Machine World
  unfolding begin_session with_overlay resolve journal_action attempt
  handle_pre cfg ev s =
      let (opened, w) = io.open_home s.world in
      elim opened [
        | some e ↦ (refused e, record s { world = w })
        | none ↦
            let begun_db : Result Db =
              ok (
                begin_session ev.session_id "claude-code" (io.path_text ev.cwd) (io.clock w)
                  s.db) in
            elim (attempt io begin_call w begun_db) [
              | err e ↦ (refused (journal_failed e), record s { world = w })
              | ok db ↦ elim (with_overlay io.yaml io.shipped (io.overlay w)) [
                | Checked.err e ↦ (refused (registry_failed e), record { db = db; world = w })
                | Checked.ok (registry, warnings) ↦
                    let r =
                      resolve (record (io.env w) { cwd = ev.cwd; home = cfg.home }) registry
                        ev.command in
                    journal_action cfg ev r (record { db = db; world = w })
              ]
            ]
      ]
