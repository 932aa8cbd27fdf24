-- ===== src/Maintenance/Gc.antt =====
-- crates/doover-core/src/maintenance.rs: `gc`. A cutoff before the first millisecond, which the code
-- may compute, is 0 here: both keep every row.
use doover.Base.{
  ℕ, zero, suc, ◌+◌, ◌-◌, ◌*◌, String, Bool, true, false, not, Option, none, some, List, [], ◌∷◌,
  ◌&&◌, ◌||◌, map, filter, take, length, min, ltb, leb, ◌==◌, if◌then◌else◌,
}
use doover.Snapshot.Errors.{Answer, good, bad}
use doover.Journal.Records.{ActionRecord}
use doover.Journal.Retention.{live_hashes, prune_before, is_candidate, max_started_at}
use doover.Undo.Types.{Machine}
use doover.Maintenance.Budget.{GcOptions, i64_max}

abbrev pub day_ms : ℕ
day_ms = 86400000

abbrev pub tmp_max_age_ms : ℕ
tmp_max_age_ms = 3600000

abbrev pub hot_window_ms : ℕ
hot_window_ms = 3600000

abbrev pub eviction_batch : ℕ
eviction_batch = 64

abbrev pub u64_max : ℕ
u64_max = 18446744073709551615

pub record GcReport : Type 0 where
  pub dry_run : Bool
  pub cutoff_ms : Option ℕ
  pub objects_removed : ℕ
  pub bytes_freed : ℕ
  pub actions_pruned : ℕ
  pub sessions_pruned : ℕ
  pub tmp_removed : ℕ
  pub over_cap_bytes_before : ℕ
  pub free_deficit_bytes_before : ℕ
  pub cap_evicted_actions : ℕ
  pub still_over_budget : Bool

unfoldable pub blank_report : Bool → GcReport
blank_report dry_run = record {
  dry_run = dry_run;
  cutoff_ms = none;
  objects_removed = 0;
  bytes_freed = 0;
  actions_pruned = 0;
  sessions_pruned = 0;
  tmp_removed = 0;
  over_cap_bytes_before = 0;
  free_deficit_bytes_before = 0;
  cap_evicted_actions = 0;
  still_over_budget = false;
}

-- Whether the deadline, if there is one, has passed; `late` tells it of a budget and a round.
unfoldable pub is_late : (ℕ → ℕ → Bool) → Option ℕ → ℕ → Bool
is_late late none round = false
is_late late (some budget) round = late budget round

-- What garbage collection asks of the store and the file system: the clean-up of temporary files, the
-- removal of objects that are not in a list, sizes, free space, and the journal file's compaction.
pub record GcStore (World : Type 0) : Type 0 where
  pub clean_tmp : ℕ → Bool → World → Answer ℕ × World
  pub prune : List String → ℕ → Bool → World → Answer (ℕ × ℕ) × World
  pub total_bytes : World → Answer ℕ
  pub journal_bytes : World → ℕ
  pub free_bytes : World → Option ℕ
  pub vacuum : World → World

-- `ORDER BY a.started_at_ms ASC`
unfoldable pub insert_time : ℕ → List ℕ → List ℕ
insert_time t [] = t ∷ []
insert_time t (u ∷ us) = let rest = insert_time t us in if leb t u then t ∷ u ∷ us else u ∷ rest

unfoldable pub sort_times : List ℕ → List ℕ
sort_times [] = []
sort_times (t ∷ ts) = insert_time t (sort_times ts)

unfoldable pub last_of : List ℕ → Option ℕ
last_of [] = none
last_of (t ∷ ts) = elim (last_of ts) [ none ↦ some t | some u ↦ some u ]

-- The method of the journal, whose condition is the one that `prune_before` deletes by.
unfoldable pub oldest_evictable_batch_end : ℕ → ℕ → List ActionRecord → Option ℕ
unfolding sort_times last_of
oldest_evictable_batch_end batch before rows = last_of (
    take batch (
      sort_times
        (map (λ (a : ActionRecord). a.started_at_ms) (filter (is_candidate before rows) rows))))

unfoldable pub over_cap : GcOptions → ℕ → ℕ
over_cap opts bytes = elim opts.cap_bytes [ none ↦ 0 | some cap ↦ bytes - cap ]

-- The report after a round.
unfoldable pub round_report : GcReport → ℕ → ℕ → ℕ → ℕ → GcReport
round_report report objects bytes actions sessions = record report {
  objects_removed = report.objects_removed + objects;
  bytes_freed = report.bytes_freed + bytes;
  cap_evicted_actions = report.cap_evicted_actions + actions;
  sessions_pruned = report.sessions_pruned + sessions;
}

-- The end of a round: pressure relieved, no progress, or one more.
unfoldable pub settle :
    {World : Type 0}
    → Bool
    → Bool
    → GcReport
    → Machine World
    → Option (Answer GcReport × Machine World)
    → Option (Answer GcReport × Machine World)
settle relieved stuck report s later =
    if relieved
    then some (good report, s)
    else if stuck
    then some (good (record report { still_over_budget = true }), s)
    else later

module _ {World : Type 0} (store : GcStore World) (opts : GcOptions) where
  unfoldable pub free_deficit : World → ℕ
  free_deficit w = elim opts.min_free_bytes [
    | none ↦ 0
    | some floor ↦ elim (store.free_bytes w) [ none ↦ 0 | some free ↦ floor - free ]
  ]

  -- The pass by age, to the vacuum behind it.
  unfoldable pub retain : ℕ → GcReport → Machine World → Answer GcReport × Machine World
  retain newest report s =
      let cutoff = newest - min (opts.keep_days * day_ms) i64_max in
      let (pruned, w) = store.prune (live_hashes cutoff s.db) tmp_max_age_ms opts.dry_run s.world in
      elim pruned [
        | bad e ↦ (bad e, record s { world = w })
        | good (objects, bytes) ↦
            let ((actions, sessions), db) = prune_before cutoff opts.dry_run s.db in
            (
              good (record report {
                cutoff_ms = some cutoff;
                objects_removed = objects;
                bytes_freed = bytes;
                actions_pruned = actions;
                sessions_pruned = sessions;
              }),
              record {
                db = db;
                world =
                    if not opts.dry_run && (ltb 0 actions || ltb 0 sessions)
                    then store.vacuum w
                    else w;
              },
            )
      ]

  -- The eviction loop, for at most the given number of rounds.
  unfoldable pub evict :
      ℕ
      → (ℕ → ℕ → Bool)
      → ℕ
      → ℕ
      → ℕ
      → GcReport
      → Machine World
      → Option (Answer GcReport × Machine World)
  unfolding over_cap free_deficit is_late
  evict zero late round ceiling apparent report s = none
  evict (suc fuel) late round ceiling apparent report s =
      if is_late late opts.time_budget round
      then some (good (record report { still_over_budget = true }), s)
      else elim (oldest_evictable_batch_end eviction_batch ceiling s.db.actions) [
        | none ↦ some (good (record report { still_over_budget = true }), s)
        | some batch_end ↦
            let cutoff = min (suc batch_end) ceiling in
            let (pruned, w) = store.prune (live_hashes cutoff s.db) tmp_max_age_ms false s.world in
            elim pruned [
              | bad e ↦ some (bad e, record s { world = w })
              | good (objects, bytes) ↦
                  let ((actions, sessions), db) = prune_before cutoff false s.db in
                  let next = round_report report objects bytes actions sessions in
                  let s' : Machine World = record { db = db; world = w } in
                  let later = evict fuel late (suc round) ceiling (apparent - bytes) next s' in
                  settle (over_cap opts (apparent - bytes) == 0 && free_deficit w == 0)
                    (actions == 0 && objects == 0) next s' later
            ]
      ]

  -- The vacuum behind the loop.
  unfoldable pub compact : Answer GcReport × Machine World → Answer GcReport × Machine World
  compact (bad e, s) = (bad e, s)
  compact (good report, s) = (
    good report,
    if ltb 0 report.cap_evicted_actions then record s { world = store.vacuum s.world } else s,
  )

  -- The eviction, unless there is no need for it, with one round of fuel more than there are actions.
  unfoldable pub press :
      Bool
      → (ℕ → ℕ → Bool)
      → ℕ
      → ℕ
      → GcReport
      → Machine World
      → Option (Answer GcReport × Machine World)
  press true late newest apparent report s = some (good report, s)
  press false late newest apparent report s =
      elim (evict (suc (length s.db.actions)) late 0 (newest - hot_window_ms) apparent report s) [
        | none ↦ none
        | some r ↦ some (compact r)
      ]

  -- The measurement of pressure, and the eviction that it asks for.
  unfoldable pub relieve :
      (ℕ → ℕ → Bool) → ℕ → GcReport → Machine World → Option (Answer GcReport × Machine World)
  relieve late newest report s = elim (store.total_bytes s.world) [
    | bad e ↦ some (bad e, s)
    | good total ↦
        let apparent = min (total + store.journal_bytes s.world) u64_max in
        let over = over_cap opts (apparent - (if opts.dry_run then report.bytes_freed else 0)) in
        let deficit = free_deficit s.world in
        let measured : GcReport = record report {
          over_cap_bytes_before = over;
          free_deficit_bytes_before = deficit;
        } in
        press (opts.dry_run || (over == 0 && deficit == 0)) late newest apparent measured s
  ]

  unfoldable pub gc : (ℕ → ℕ → Bool) → ℕ → Machine World → Option (Answer GcReport × Machine World)
  gc late now s =
      let (cleaned, w) = store.clean_tmp tmp_max_age_ms opts.dry_run s.world in
      elim cleaned [
        | bad e ↦ some (bad e, record s { world = w })
        | good removed ↦
            let report : GcReport = record (blank_report opts.dry_run) { tmp_removed = removed } in
            elim (max_started_at s.db.actions) [
              | none ↦ some (good report, record s { world = w })
              | some recorded_newest ↦
                  let newest = min recorded_newest now in
                  let (retained, s1) = retain newest report (record s { world = w }) in
                  elim retained [ bad e ↦ some (bad e, s1) | good r ↦ relieve late newest r s1 ]
            ]
      ]
