-- ===== src/Hooks/AutoGc.antt =====
-- crates/doover-core/src/hooks.rs: `maybe_gc`.
use doover.Base.{
  ℕ, ◌-◌, ◌%◌, Bool, true, false, not, Option, none, some, max, ◌&&◌, ◌||◌, ltb, leb, ◌==◌,
  if◌then◌else◌,
}
use Prim.Native.Nat.{◌/◌}
use doover.Snapshot.Errors.{Answer, good, bad}
use doover.Journal.Writes.{add_note}
use doover.Journal.Runs.{after}
use doover.Undo.Types.{Machine}
use doover.Maintenance.Budget.{MaintenanceBudget, auto_gc_options}
use doover.Maintenance.Gc.{GcReport, gc}
use doover.Hooks.Events.{HookConfig}
use doover.Hooks.Io.{auto_gc_note, HookIo, attempt, note_call}

-- Whether the free space is below its floor, where both are known.
unfoldable pub is_free_low : Option ℕ → Option ℕ → Bool
is_free_low none free = false
is_free_low (some floor) none = false
is_free_low (some floor) (some free) = ltb free floor

-- `free_low_retrigger_elapsed`, of the marker's time; a time in the future is due.
unfoldable pub is_retrigger_elapsed : Option ℕ → ℕ → Bool
is_retrigger_elapsed none now = true
is_retrigger_elapsed (some at) now = if ltb now at then true else leb 600 ((now - at) / 1000)

module _ {World : Type 0} (io : HookIo World) where
  -- The `cadence_due || free_low_due` of `maybe_gc`.
  unfoldable pub is_due : MaintenanceBudget → ℕ → World → Bool
  unfolding is_free_low is_retrigger_elapsed
  is_due b action w =
      (action % max b.gc_every 1) == 0
      || (is_free_low b.min_free_bytes (io.gc_store.free_bytes w)
          && is_retrigger_elapsed (io.marker_modified w) (io.clock w))

  -- What a report says on the action that triggered the pass.
  unfoldable pub note_report : ℕ → Answer GcReport → Machine World → Machine World
  unfolding add_note after attempt
  note_report action (bad e) s = s
  note_report action (good r) s =
      let noted = after s.db (
        attempt io note_call s.world (
          add_note action (io.gap_text (auto_gc_note r.cap_evicted_actions r.still_over_budget))
            s.db)) in
      if ltb 0 r.cap_evicted_actions || r.still_over_budget then record s { db = noted } else s

  -- A pass that does not return has nothing behind it; each pass does return.
  unfoldable pub run_gc : MaintenanceBudget → ℕ → Machine World → Machine World
  unfolding gc note_report auto_gc_options
  run_gc b action s = elim (gc io.gc_store (auto_gc_options b) io.late (io.clock s.world) s) [
    | none ↦ s
    | some (report, s') ↦ note_report action report (record s' { world = io.touch_marker s'.world })
  ]

  unfoldable pub maybe_gc : HookConfig → ℕ → Machine World → Machine World
  unfolding is_due run_gc
  maybe_gc cfg action s =
      let b = cfg.maintenance in
      let (opened, w) = io.open_store s.world in
      if b.gc_every == 0 then s else if not (is_due b action s.world) then s else elim opened [
        | some e ↦ record s { world = w }
        | none ↦ run_gc b action (record s { world = w })
      ]
