-- ===== src/Maintenance/Rounds.antt =====
-- The rounds of the eviction loop of `gc`, crates/doover-core/src/maintenance.rs.
use doover.Base.{
  ℕ, zero, suc, ◌-◌, ◌≤◌, ◌<◌, ◌≡◌, ◌∙◌, refl, sym, ap, inl, inr, Bool, true, false, not, Option,
  none, some, List, [], ◌∷◌, ◌||◌, map, filter, take, length, min, ◌==◌, any, if◌then◌else◌, arith,
  Bool-cases, Option-cases,
}
use mathlib.Core.Option.{some-injective}
use doover.Snapshot.Errors.{Answer, Answer-cases, good, bad}
use doover.Journal.Records.{ActionRecord, Db}
use doover.Journal.Retention.{
  live_hashes, prune_before, pruned_actions, is_candidate, max_started_at,
}
use doover.Journal.Kept.{any-filter}
use doover.Undo.Types.{Machine}
use doover.Maintenance.Budget.{GcOptions}
use doover.Maintenance.Gc.{
  GcReport, GcStore, is_late, insert_time, sort_times, last_of, oldest_evictable_batch_end, retain,
  press, settle, evict, compact, relieve, gc, eviction_batch, hot_window_ms, tmp_max_age_ms,
}

has_time : ℕ → List ℕ → Bool
has_time t ts = any ts (λ u. u == t)

has_time-insert :
    (e t : ℕ) (ts : List ℕ) → has_time e (insert_time t ts) ≡ ((t == e) || has_time e ts)
unfolding insert_time has_time
has_time-insert e t [] = refl
has_time-insert e t (u ∷ us) = ground (arith, has_time-insert e t us)

has_time-sort : (e : ℕ) (ts : List ℕ) → has_time e (sort_times ts) ≡ has_time e ts
unfolding sort_times has_time
has_time-sort e [] = refl
has_time-sort e (t ∷ ts) =
    has_time-insert e t (sort_times ts) ∙ ap (λ (b : Bool). (t == e) || b) (has_time-sort e ts)

has_time-take : (e n : ℕ) (ts : List ℕ) → has_time e (take n ts) ≡ true → has_time e ts ≡ true
unfolding has_time
has_time-take e zero ts h = cc
has_time-take e (suc n) [] h = cc
has_time-take e (suc n) (t ∷ ts) h = ground (arith, has_time-take e n ts)

has_time-last_of : (e : ℕ) (ts : List ℕ) → last_of ts ≡ some e → has_time e ts ≡ true
unfolding last_of has_time
has_time-last_of e [] h = cc
has_time-last_of e (t ∷ ts) h = elim (Option-cases (last_of ts)) [
  | inl nothing ↦ let same : t ≡ e = some-injective t e (rw (nothing, last_of) at h) in ground arith
  | inr (u, found) ↦
      let same : u ≡ e = some-injective u e (rw (found, last_of) at h) in
      let rest = has_time-last_of e ts (rw same at found) in ground arith
]

has_time-map :
    (e : ℕ) (rows : List ActionRecord)
    → has_time e (map (λ (a : ActionRecord). a.started_at_ms) rows)
      ≡ any rows (λ a. a.started_at_ms == e)
unfolding has_time
has_time-map e [] = refl
has_time-map e (r ∷ rows) = rw (has_time-map e rows) refl

any_mono :
    (p q : ActionRecord → Bool) (rows : List ActionRecord)
    → ((a : ActionRecord) → p a ≡ true → q a ≡ true)
    → any rows p ≡ true
    → any rows q ≡ true
any_mono p q [] h hit = cc
any_mono p q (r ∷ rows) h hit = let here = h r in ground (arith, any_mono p q rows h)

length-filter_le :
    (p : ActionRecord → Bool) (rows : List ActionRecord) → length (filter p rows) ≤ length rows
length-filter_le p [] = omega arith
length-filter_le p (r ∷ rows) =
    let rest = length-filter_le p rows in
    elim (Bool-cases (p r)) [ inl hit ↦ rw hit (omega arith) | inr miss ↦ rw miss (omega arith) ]

length-filter_lt :
    (p : ActionRecord → Bool) (rows : List ActionRecord)
    → any rows p ≡ true
    → length (filter (λ a. not (p a)) rows) < length rows
length-filter_lt p [] h = cc
length-filter_lt p (r ∷ rows) h = elim (Bool-cases (p r)) [
  | inl hit ↦ let rest = length-filter_le (λ a. not (p a)) rows in rw hit (omega arith)
  | inr miss ↦ let rest = length-filter_lt p rows (rw miss at h) in rw miss (omega arith)
]

-- The row that ends a batch is pruned with it.
batch_end-candidate :
    (batch ceiling e : ℕ) (rows : List ActionRecord)
    → oldest_evictable_batch_end batch ceiling rows ≡ some e
    → any rows (is_candidate (min (suc e) ceiling) rows) ≡ true
unfolding oldest_evictable_batch_end is_candidate
batch_end-candidate batch ceiling e rows h =
    let times =
      map (λ (a : ActionRecord). a.started_at_ms) (filter (is_candidate ceiling rows) rows) in
    let found = has_time-last_of e (take batch (sort_times times)) h in
    let listed = sym (has_time-sort e times) ∙ has_time-take e batch (sort_times times) found in
    let chosen =
      sym (any-filter (λ a. a.started_at_ms == e) (is_candidate ceiling rows) rows)
      ∙ sym (has_time-map e (filter (is_candidate ceiling rows) rows))
      ∙ listed in
    any_mono _ _ rows (λ a both. ground arith) chosen

prune_before-lt :
    (cutoff : ℕ) (db : Db)
    → any db.actions (is_candidate cutoff db.actions) ≡ true
    → length (prune_before cutoff false db).1.actions < length db.actions
unfolding prune_before pruned_actions
prune_before-lt cutoff db h = length-filter_lt (is_candidate cutoff db.actions) db.actions h

if-some {ℓ} :
    {A : Type ℓ} (b : Bool) (x : A) (y : Option A)
    → (r : A) × (y ≡ some r)
    → (r : A) × ((if b then some x else y) ≡ some r)
if-some true x y h = (x, refl)
if-some false x y h = h

settle-some :
    {World : Type 0} (relieved stuck : Bool) (report : GcReport) (s : Machine World)
    (later : Option (Answer GcReport × Machine World))
    → (r : Answer GcReport × Machine World) × (later ≡ some r)
    → (r : Answer GcReport × Machine World) × (settle relieved stuck report s later ≡ some r)
unfolding settle
settle-some true stuck report s later h = (_, refl)
settle-some false true report s later h = (_, refl)
settle-some false false report s later h = h

module _ {World : Type 0} (store : GcStore World) (opts : GcOptions) (late : ℕ → ℕ → Bool)
    (ceiling : ℕ) where
  evict-returns :
      (fuel round apparent : ℕ) (report : GcReport) (s : Machine World)
      → length s.db.actions < fuel
      → (r : Answer GcReport × Machine World) × (evict store opts fuel late round ceiling apparent
            report s
          ≡ some r)
  unfolding evict
  evict-returns zero round apparent report s h = absurd (omega arith)
  evict-returns (suc fuel) round apparent report s h =
      if-some (is_late late opts.time_budget round) _ _
        (elim (Option-cases (oldest_evictable_batch_end eviction_batch ceiling s.db.actions)) [
          | inl nothing ↦ rw nothing (_, refl)
          | inr (e, found) ↦
              let cutoff = min (suc e) ceiling in
              let pruned = store.prune (live_hashes cutoff s.db) tmp_max_age_ms false s.world in
              let fewer =
                prune_before-lt cutoff s.db
                  (batch_end-candidate eviction_batch ceiling e s.db.actions found) in
              elim (Answer-cases pruned.0) [
                | inl ((objects, bytes), e2) ↦
                    rw (found, e2)
                      (settle-some _ _ _ _ _ (
                        evict-returns fuel (suc round) (apparent - bytes) _
                          (record { db = (prune_before cutoff false s.db).1; world = pruned.1 })
                          (omega arith)))
                | inr (failure, e2) ↦ rw (found, e2) (_, refl)
              ]
        ])

module _ {World : Type 0} (store : GcStore World) (opts : GcOptions) (late : ℕ → ℕ → Bool) where
  loop-returns :
      (newest apparent : ℕ) (report : GcReport) (s : Machine World)
      → (r : Answer GcReport × Machine World) × (elim (evict store opts
            (suc (length s.db.actions))
            late
            0
            (newest - hot_window_ms)
            apparent
            report
            s) [ none ↦ none | some r ↦ some (compact store opts r) ]
          ≡ some r)
  loop-returns newest apparent report s =
      let (r, e) =
        evict-returns store opts late (newest - hot_window_ms) (suc (length s.db.actions)) 0
          apparent report s (omega arith) in
      (compact store opts r, rw e refl)

  press-returns :
      (idle : Bool) (newest apparent : ℕ) (report : GcReport) (s : Machine World)
      → (r : Answer GcReport × Machine World) × (press store opts idle late newest apparent report s
          ≡ some r)
  unfolding press
  press-returns true newest apparent report s = (_, refl)
  press-returns false newest apparent report s = loop-returns newest apparent report s

  relieve-returns :
      (newest : ℕ) (report : GcReport) (s : Machine World)
      → (r : Answer GcReport × Machine World) × (relieve store opts late newest report s ≡ some r)
  unfolding relieve
  relieve-returns newest report s = elim (Answer-cases (store.total_bytes s.world)) [
    | inr (failure, e) ↦ rw (e, relieve) (_, refl)
    | inl (total, e) ↦ rw (e, relieve) (press-returns _ newest _ _ s)
  ]

  -- Garbage collection returns, with a report or an error, for any store and any deadline: its eviction
  -- loop makes at most one round more than the journal has actions, since each round but the last
  -- removes one.
  pub gc-returns :
      (now : ℕ) (s : Machine World)
      → (r : Answer GcReport × Machine World) × (gc store opts late now s ≡ some r)
  unfolding gc
  gc-returns now s =
      let cleaned = store.clean_tmp tmp_max_age_ms opts.dry_run s.world in
      elim (Answer-cases cleaned.0) [
        | inr (failure, e) ↦ rw (e, gc) (_, refl)
        | inl (removed, e) ↦ elim (Option-cases (max_started_at s.db.actions)) [
          | inl nothing ↦ rw (e, nothing, gc) (_, refl)
          | inr (recorded, newest) ↦ rw (e, newest, gc) (after_retain (min recorded now) _ _)
        ]
      ]
    where
      after_retain :
          (newest : ℕ) (report : GcReport) (start : Machine World)
          → (r : Answer GcReport × Machine World) × (elim (retain store opts newest report
                start).0 [
                  | bad e ↦ some (bad e, (retain store opts newest report start).1)
                  | good r ↦
                      relieve store opts late newest r (retain store opts newest report start).1
                ]
              ≡ some r)
      after_retain newest report start =
          elim (Answer-cases (retain store opts newest report start).0) [
            | inr (failure, e) ↦ rw e (_, refl)
            | inl (r, e) ↦ rw e (relieve-returns newest r (retain store opts newest report start).1)
          ]
