-- ===== src/Maintenance/Floors.antt =====
-- The journal under `gc` of crates/doover-core/src/maintenance.rs.
use doover.Base.{
  ℕ, zero, suc, ◌-◌, ◌*◌, ◌≤◌, ◌≡◌, ◌∙◌, refl, sym, inl, inr, Bool, true, false, not, Option, none,
  some, ◌||◌, filter, length, min, max, ltb, leb, if◌then◌else◌, arith, Bool-cases, Option-cases,
}
use mathlib.Core.Option.{some-injective}
use doover.Snapshot.Errors.{Answer, Answer-cases, good, bad}
use doover.Journal.Records.{ActionRecord, Db, status_eq, pending}
use doover.Journal.Retention.{
  live_hashes, prune_before, pruned_actions, is_candidate, max_started_at,
}
use doover.Journal.Kept.{filter-filter}
use doover.Undo.Types.{Machine}
use doover.Maintenance.Budget.{GcOptions, i64_max}
use doover.Maintenance.Gc.{
  GcReport, GcStore, is_late, oldest_evictable_batch_end, retain, press, evict, compact, settle,
  relieve, gc, eviction_batch, hot_window_ms, day_ms, tmp_max_age_ms,
}

-- A property of the journal after a pass, if it returns.
abbrev pub After :
    {World : Type 0} → (Db → Type 0) → Option (Answer GcReport × Machine World) → Type 0
After P none = Unit
After P (some (a, s)) = P s.db

-- The largest cutoff that a pass may prune with.
abbrev pub bound : GcOptions → ℕ → ℕ
bound opts newest = max (newest - min (opts.keep_days * day_ms) i64_max) (newest - hot_window_ms)

module _ {World : Type 0} (store : GcStore World) (opts : GcOptions) (late : ℕ → ℕ → Bool)
    (P : Db → Type 0) (top : ℕ)
    (closed : (cutoff : ℕ) (dry_run : Bool) (db : Db)
      → cutoff ≤ top
      → P db
      → P (prune_before cutoff dry_run db).1) where
  settle-After :
      (relieved stuck : Bool) (report : GcReport) (s : Machine World)
      (later : Option (Answer GcReport × Machine World))
      → P s.db
      → After P later
      → After P (settle relieved stuck report s later)
  unfolding settle
  settle-After true stuck report s later h k = h
  settle-After false true report s later h k = h
  settle-After false false report s later h k = k

  if-After :
      (b : Bool) (x y : Option (Answer GcReport × Machine World))
      → After P x
      → After P y
      → After P (if b then x else y)
  if-After true x y hx hy = hx
  if-After false x y hx hy = hy

  evict-After :
      (ceiling : ℕ)
      → ceiling ≤ top
      → (fuel round apparent : ℕ) (report : GcReport) (s : Machine World) → P s.db
      → After P (evict store opts fuel late round ceiling apparent report s)
  unfolding evict
  evict-After ceiling low zero round apparent report s h = tt
  evict-After ceiling low (suc fuel) round apparent report s h =
      if-After (is_late late opts.time_budget round) _ _ h
        (elim (Option-cases (oldest_evictable_batch_end eviction_batch ceiling s.db.actions)) [
          | inl nothing ↦ rw nothing h
          | inr (e, found) ↦
              let cutoff = min (suc e) ceiling in
              let pruned = store.prune (live_hashes cutoff s.db) tmp_max_age_ms false s.world in
              let kept = closed cutoff false s.db (omega arith) h in
              elim (Answer-cases pruned.0) [
                | inl ((objects, bytes), e2) ↦
                    rw (found, e2)
                      (settle-After _ _ _
                        (record { db = (prune_before cutoff false s.db).1; world = pruned.1 }) _
                        kept
                        (evict-After ceiling low fuel (suc round) (apparent - bytes) _
                          (record { db = (prune_before cutoff false s.db).1; world = pruned.1 })
                          kept))
                | inr (failure, e2) ↦ rw (found, e2) h
              ]
        ])

  compact-After :
      (r : Option (Answer GcReport × Machine World))
      → After P r
      → After P (elim r [ none ↦ none | some x ↦ some (compact store opts x) ])
  unfolding compact
  compact-After none h = tt
  compact-After (some (bad e, s)) h = h
  compact-After (some (good report, s)) h = elim (Bool-cases (ltb 0 report.cap_evicted_actions)) [
    | inl evicted ↦ rw evicted h
    | inr idle ↦ rw idle h
  ]

  press-After :
      (idle : Bool) (newest apparent : ℕ) (report : GcReport) (s : Machine World)
      → (newest - hot_window_ms) ≤ top
      → P s.db
      → After P (press store opts idle late newest apparent report s)
  unfolding press
  press-After true newest apparent report s low h = h
  press-After false newest apparent report s low h =
      compact-After
        (evict store opts (suc (length s.db.actions)) late 0 (newest - hot_window_ms) apparent
          report s)
        (evict-After (newest - hot_window_ms) low (suc (length s.db.actions)) 0 apparent report s h)

  relieve-After :
      (newest : ℕ) (report : GcReport) (s : Machine World)
      → (newest - hot_window_ms) ≤ top
      → P s.db
      → After P (relieve store opts late newest report s)
  unfolding relieve
  relieve-After newest report s low h = elim (Answer-cases (store.total_bytes s.world)) [
    | inr (failure, e) ↦ rw (e, relieve) h
    | inl (total, e) ↦ rw (e, relieve) (press-After _ newest _ _ s low h)
  ]

  retain-db :
      (newest : ℕ) (report : GcReport) (s : Machine World)
      → (newest - min (opts.keep_days * day_ms) i64_max) ≤ top
      → P s.db
      → P (retain store opts newest report s).1.db
  unfolding retain
  retain-db newest report s low h =
      let cutoff = newest - min (opts.keep_days * day_ms) i64_max in
      elim (Answer-cases
        (store.prune (live_hashes cutoff s.db) tmp_max_age_ms opts.dry_run s.world).0) [
          | inl ((objects, bytes), e) ↦ rw (e, retain) (closed cutoff opts.dry_run s.db low h)
          | inr (failure, e) ↦ rw (e, retain) h
        ]

  pub gc-After :
      (now : ℕ) (s : Machine World)
      → ((recorded : ℕ)
          → max_started_at s.db.actions ≡ some recorded
          → bound opts (min recorded now) ≤ top)
      → P s.db
      → After P (gc store opts late now s)
  unfolding gc
  gc-After now s low h =
      let cleaned = store.clean_tmp tmp_max_age_ms opts.dry_run s.world in
      elim (Answer-cases cleaned.0) [
        | inr (failure, e) ↦ rw (e, gc) h
        | inl (removed, e) ↦ elim (Option-cases (max_started_at s.db.actions)) [
          | inl nothing ↦ rw (e, nothing, gc) h
          | inr (recorded, found) ↦
              rw (e, found, gc)
                (after_retain (min recorded now) _ (record s { world = cleaned.1 })
                  (low recorded found) h)
        ]
      ]
    where
      after_retain :
          (newest : ℕ) (report : GcReport) (start : Machine World)
          → bound opts newest ≤ top
          → P start.db
          → After P (elim (retain store opts newest report start).0 [
            | bad e ↦ some (bad e, (retain store opts newest report start).1)
            | good r ↦ relieve store opts late newest r (retain store opts newest report start).1
          ])
      after_retain newest report start fits kept =
          let next = retain-db newest report start (omega arith) kept in
          elim (Answer-cases (retain store opts newest report start).0) [
            | inr (failure, e) ↦ rw e next
            | inl (r, e) ↦ rw e (
                relieve-After newest r (retain store opts newest report start).1 (omega arith) next)
          ]

-- Rows that a pass with this largest cutoff may not touch.
abbrev pub is_floor : ℕ → ActionRecord → Bool
is_floor top a = a.pinned || status_eq a.status pending || leb top a.started_at_ms

floor-stays :
    (top cutoff : ℕ) (dry_run : Bool) (db : Db)
    → cutoff ≤ top
    → filter (is_floor top) (prune_before cutoff dry_run db).1.actions
      ≡ filter (is_floor top) db.actions
unfolding prune_before pruned_actions is_candidate
floor-stays top cutoff true db low = refl
floor-stays top cutoff false db low =
    filter-filter (is_floor top) (λ a. not (is_candidate cutoff db.actions a)) db.actions
      (λ a floor. ground arith)

-- Whatever the budgets and the pressure: garbage collection keeps the rows, in order and unchanged, of
-- all actions that are pinned, pending, or started at or after both the retention cutoff and the start
-- of the hot window.
pub gc-floor :
    {World : Type 0} (store : GcStore World) (opts : GcOptions) (late : ℕ → ℕ → Bool) (now : ℕ)
    (s : Machine World) (recorded : ℕ)
    → max_started_at s.db.actions ≡ some recorded
    → After
        (λ db.
          filter (is_floor (bound opts (min recorded now))) db.actions
          ≡ filter (is_floor (bound opts (min recorded now))) s.db.actions)
        (gc store opts late now s)
gc-floor store opts late now s recorded found =
    let top = bound opts (min recorded now) in
    gc-After store opts late
      (λ db. filter (is_floor top) db.actions ≡ filter (is_floor top) s.db.actions) top
      (λ cutoff dry_run db low h. floor-stays top cutoff dry_run db low ∙ h) now s
      (λ other e.
        let same : other ≡ recorded = some-injective other recorded (sym e ∙ found) in omega arith)
      refl
