-- ===== src/Hooks/Io.antt =====
-- crates/doover-core/src/hooks.rs: what the handlers call outside the journal, and the gaps that they
-- report.
use doover.Base.{ℕ, String, Bool, Option, none, some, List, ◌≡◌, Option-cases, inl, inr}
use doover.Paths.{FilePath}
use doover.Registry.Rules.{Rule, Checked}
use doover.Registry.Overlay.{Listing}
use doover.Snapshot.Manifest.{Manifest}
use doover.Snapshot.Errors.{SnapshotError, Answer}
use doover.Journal.Records.{JournalError, Result, ok, err}
use doover.Maintenance.Gc.{GcStore}
use doover.Resolver.Scope.{Env}
use doover.Hooks.Events.{HookError, Limits}

-- What a note says, with its parts; `notes_failing` is said to the harness only.
pub data Gap : Type 0 where
  store_closed : SnapshotError → Gap
  truncated_at_limits : FilePath → ℕ → Gap
  partial_capture : FilePath → List String → Gap
  not_journaled : FilePath → JournalError → Gap
  capture_failed : FilePath → SnapshotError → Gap
  notes_failing : Gap
  background_note : Gap
  post_skipped : SnapshotError → Gap
  post_failed : FilePath → SnapshotError → Gap
  auto_gc_note : ℕ → Bool → Gap

-- The calls of the journal, as far as SQLite or the file may make them fail.
pub data JournalCall : Type 0 where
  begin_call start_call note_call attach_call complete_call read_call : JournalCall

-- Whether such a call fails, and how; the home with its journal and its marker file, the overlay's listing, the store, the clock in
-- milliseconds, the resolver's surroundings, and the texts of gaps, paths and redacted commands.
pub record HookIo (World : Type 0) : Type 0 where
  pub fault : JournalCall → World → Option JournalError
  pub open_home : World → Option HookError × World
  pub yaml : String → String → Checked (List Rule)
  pub shipped : List (String × String)
  pub overlay : World → Listing
  pub env : World → Env
  pub open_store : World → Option SnapshotError × World
  pub snapshot_scoped : FilePath → Limits → World → Answer Manifest × World
  pub clock : World → ℕ
  pub gc_store : GcStore World
  pub late : ℕ → ℕ → Bool
  pub marker_modified : World → Option ℕ
  pub touch_marker : World → World
  pub gap_text : Gap → String
  pub path_text : FilePath → String
  pub redact : String → String

module _ {World : Type 0} (io : HookIo World) where
  -- The result of a call that the journal may refuse.
  unfoldable pub attempt {ℓ} : {A : Type ℓ} → JournalCall → World → Result A → Result A
  attempt call w r = elim (io.fault call w) [ none ↦ r | some e ↦ err e ]

  pub attempt-ok {ℓ} :
      {A : Type ℓ} (call : JournalCall) (w : World) (r : Result A) {a : A}
      → attempt call w r ≡ ok a
      → r ≡ ok a
  unfolding attempt
  attempt-ok call w r h = elim (Option-cases (io.fault call w)) [
    | inl fine ↦ rw (fine, attempt) at h
    | inr (e, failed) ↦ cc (rw (failed, attempt) at h)
  ]
