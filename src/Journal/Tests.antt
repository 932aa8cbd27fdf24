-- ===== src/Journal/Tests.antt =====
-- A journal with one command, its undo and its redo, and runs of the journal's operations.
use doover.Base.{
  ℕ, ◌≡◌, refl, subst, String, Bool, true, false, none, some, List, [], ◌∷◌, filter, str_eq,
}
use doover.Paths.{root_dir, normal, FilePath}
use doover.Snapshot.Manifest.{Manifest, present, absent, file, manifest_schema}
use doover.Journal.Records.{
  pre, post, ActionRecord, command, completed, pending, abandoned, NewAction, Session, Db, ok,
}
use doover.Journal.Tables.{has_session, is_open, is_target, max_id, max_seq, update_where}
use doover.Journal.Writes.{
  begin_session, start_action, complete_by_tool_use, attach_manifest, upsert_session, abandon_open,
  new_row, completable, newest_by_seq, file_hashes,
}
use doover.Journal.Retention.{
  prune_before, live_hashes, is_candidate, is_live, kept_by_target, keeps_itself,
}
use doover.Journal.Invariant.{IsValid}
use doover.Journal.Runs.{
  Op, begin, start, complete, attach, run, perform, empty, after, after_value, run-IsValid,
  run-IsValid_from, empty-IsValid,
}
use doover.Journal.OneOpen.{OneOpen}
use doover.Journal.OneOpenRuns.{run-OneOpen}
use doover.Journal.Open.{start_action-open, of_session}
use doover.Journal.Kept.{prune_before-dry_run, live_hashes-prune_before}

abbrev pub remove : NewAction
remove = record {
  session_id = "s";
  tool_use_id = some "t1";
  raw_command = "rm a";
  effect = "destructive";
  rule_id = some "rm";
  has_unknown = false;
  background = false;
}

abbrev pub path : FilePath
path = root_dir ∷ normal "w" ∷ normal "a" ∷ []

-- The file before the command, and its absence after it.
abbrev pub before : Manifest
before = record {
  schema = manifest_schema;
  path = path;
  root = present;
  entries = record { rel = []; kind = file "h1" 3 420 7 [] } ∷ [];
  truncated = false;
  skipped = 0;
  warnings = [];
  skipped_dirs = [];
}

abbrev pub gone : Manifest
gone = record {
  schema = manifest_schema;
  path = path;
  root = absent;
  entries = [];
  truncated = false;
  skipped = 0;
  warnings = [];
  skipped_dirs = [];
}

abbrev pub commands : List (ℕ × Op)
commands =
    (10, begin "s" "claude" "/w")
    ∷ (11, start remove)
    ∷ (11, attach 1 before pre)
    ∷ (12, complete "s" "t1" 5)
    ∷ (12, attach 1 gone post)
    ∷ []

-- The journal behind them.
abbrev pub removed : ActionRecord
removed = record {
  id = 1;
  session_id = "s";
  seq = 1;
  kind = command;
  tool_use_id = some "t1";
  raw_command = "rm a";
  effect = "destructive";
  rule_id = some "rm";
  has_unknown = false;
  status = completed;
  target_action_id = none;
  target_prior_status = none;
  pinned = false;
  started_at_ms = 11;
  duration_ms = some 5;
  note = none;
  background = false;
}

abbrev pub session : Session
session = record {
  id = "s";
  harness = "claude";
  cwd = "/w";
  started_at_ms = 10;
  ended_at_ms = none;
}

abbrev pub journal : Db
journal = record {
  sessions = session ∷ [];
  actions = removed ∷ [];
  manifests =
      record { action_id = 1; manifest = before; hashes = "h1" ∷ []; role = pre }
      ∷ record { action_id = 1; manifest = gone; hashes = []; role = post }
      ∷ [];
}

run-commands : run commands empty ≡ journal
unfolding run perform begin_session upsert_session start_action abandon_open new_row attach_manifest
    file_hashes complete_by_tool_use completable newest_by_seq has_session max_id max_seq
    update_where after after_value
run-commands = refl

run-IsValid_example : IsValid (run (commands) empty)
run-IsValid_example = run-IsValid commands

-- One more command in the same session, whose predecessor is still pending.
abbrev interrupted : Db
interrupted = record journal { actions = record removed { status = pending } ∷ [] }

abbrev resumed : Db
resumed = record interrupted {
  actions =
      record removed { status = abandoned; note = some "no post event received" }
      ∷ record removed { id = 2; seq = 2; status = pending; started_at_ms = 50; duration_ms = none }
      ∷ [];
}

start_runs : start_action remove 50 interrupted ≡ ok (2, resumed)
unfolding start_action abandon_open update_where new_row has_session max_id max_seq
start_runs = refl

start_action-open_example :
    ((r : ActionRecord) × (filter (is_open "s") resumed.actions ≡ r ∷ [])
      × (r.id ≡ 2)
      × (r.raw_command ≡ "rm a"))
    × ((other : String)
        → str_eq "s" other ≡ false
        → filter (of_session other) resumed.actions ≡ filter (of_session other) interrupted.actions)
start_action-open_example = start_action-open remove 50 interrupted start_runs

prune_before-dry_run_example :
    ((prune_before 15 true journal).0 ≡ (prune_before 15 false journal).0)
    × ((prune_before 15 true journal).1 ≡ journal)
prune_before-dry_run_example = prune_before-dry_run 15 journal

pub journal-IsValid : IsValid journal
journal-IsValid = subst IsValid run-commands (run-IsValid_from commands empty empty-IsValid)

live_hashes-prune_before_example :
    live_hashes 5 (prune_before 5 false journal).1 ≡ live_hashes 5 journal
live_hashes-prune_before_example = live_hashes-prune_before 5 journal journal-IsValid

-- A command, its old undo, and a pinned redo of that undo.
abbrev aim : ℕ → ℕ → Bool → ActionRecord
aim id target pinned = record removed { id = id; target_action_id = some target; pinned = pinned }

abbrev chain : List ActionRecord
chain = removed ∷ aim 2 1 false ∷ aim 3 2 true ∷ []

chain_gap : (is_candidate 50 chain removed ≡ false) × (is_live 50 chain removed ≡ false)
unfolding is_candidate is_live keeps_itself kept_by_target is_target
chain_gap = (refl, refl)

chain_kept :
    (is_candidate 50 chain (aim 2 1 false) ≡ false) × (is_live 50 chain (aim 2 1 false) ≡ true)
unfolding is_candidate is_live keeps_itself kept_by_target is_target
chain_kept = (refl, refl)

run-OneOpen_example : OneOpen (run commands empty).actions
run-OneOpen_example = run-OneOpen commands
