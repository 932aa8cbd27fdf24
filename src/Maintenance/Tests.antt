-- ===== src/Maintenance/Tests.antt =====
-- Garbage collection over a file system that is short of space.
use doover.Base.{
  ℕ, ◌≤◌, ◌<◌, ◌↔◌, str_eq, if◌then◌else◌, ◌≡◌, refl, String, Bool, false, Option, none, some, [],
  ◌∷◌, filter, min,
}
use doover.Snapshot.Errors.{Answer, good}
use doover.Journal.Records.{pending}
use doover.Journal.Tables.{is_target}
use doover.Journal.Retention.{max_started_at, is_candidate}
use doover.Journal.Tests.{journal, removed}
use doover.Undo.Types.{Machine}
use doover.Maintenance.Budget.{GcOptions, parse_opt_bytes, from_env, auto_gc_options, i64_max}
use doover.Maintenance.Gc.{
  GcReport, GcStore, gc, oldest_evictable_batch_end, sort_times, insert_time, last_of,
}
use doover.Maintenance.Knobs.{parse_opt_bytes-none, from_env-bounds}
use doover.Maintenance.Rounds.{gc-returns}
use doover.Maintenance.Floors.{After, bound, is_floor, gc-floor}

-- The world is the number of bytes that are free.
abbrev full_disk : GcStore ℕ
full_disk = record {
  clean_tmp = λ age dry_run w. (good 0, w);
  prune = λ live age dry_run w. (good (1, 100), w);
  total_bytes = λ w. good 1000;
  journal_bytes = λ w. 500;
  free_bytes = λ w. some w;
  vacuum = λ w. w;
}

abbrev options : GcOptions
options = record {
  keep_days = 7;
  dry_run = false;
  cap_bytes = some 1200;
  min_free_bytes = some 5000;
  time_budget = none;
}

abbrev never : ℕ → ℕ → Bool
never budget round = false

abbrev start : Machine ℕ
start = record { db = journal; world = 10 }

-- A later command is still running.
abbrev aged : Machine ℕ
aged = record {
  db = record journal {
    actions =
        removed
        ∷ record removed { id = 2; seq = 2; status = pending; started_at_ms = 9000000 }
        ∷ [];
  };
  world = 10;
}

newest_runs : max_started_at aged.db.actions ≡ some 9000000
unfolding max_started_at
newest_runs = refl

batch_runs : oldest_evictable_batch_end 64 5400000 aged.db.actions ≡ some 11
unfolding oldest_evictable_batch_end sort_times insert_time last_of is_candidate is_target
batch_runs = refl

gc-returns_example :
    (r : Answer GcReport × Machine ℕ) × (gc full_disk options never 9000001 aged ≡ some r)
gc-returns_example = gc-returns full_disk options never 9000001 aged

gc-floor_example :
    After
      (λ db.
        filter (is_floor (bound options (min 9000000 9000001))) db.actions
        ≡ filter (is_floor (bound options (min 9000000 9000001))) aged.db.actions)
      (gc full_disk options never 9000001 aged)
gc-floor_example = gc-floor full_disk options never 9000001 aged 9000000 newest_runs

-- A parser that knows two numbers.
digits : String → Option ℕ
digits s = if str_eq s "0" then some 0 else if str_eq s "25" then some 25 else none

parse_opt_bytes-none_example :
    (parse_opt_bytes digits (some "0") 7 ≡ none)
    ↔ ((s : String) × (some "0" ≡ some s) × (digits s ≡ some 0))
parse_opt_bytes-none_example = parse_opt_bytes-none digits (some "0") 7

parse_runs : parse_opt_bytes digits (some "0") 7 ≡ none
unfolding parse_opt_bytes digits
parse_runs = refl

from_env-bounds_example :
    (0 < (from_env digits (λ key. some "0")).keep_days)
    × ((from_env digits (λ key. some "0")).keep_days ≤ i64_max)
    × ((from_env digits (λ key. some "0")).gc_every ≤ i64_max)
    × ((auto_gc_options (from_env digits (λ key. some "0"))).dry_run ≡ false)
    × ((auto_gc_options (from_env digits (λ key. some "0"))).min_free_bytes ≡ none)
    × ((auto_gc_options (from_env digits (λ key. some "0"))).time_budget ≡ some 3000)
from_env-bounds_example = from_env-bounds digits (λ key. some "0")
