-- ===== src/Maintenance/Knobs.antt =====
-- What the settings of the environment can and cannot mean.
use doover.Base.{
  ℕ, ◌≤◌, ◌<◌, ◌≡◌, ◌↔◌, ◌∙◌, refl, ap, inl, inr, String, false, Option, none, some, ◌==◌, ==_iff,
  arith, Bool-cases, Option-cases,
}
use mathlib.Core.Option.{some-injective}
use doover.Maintenance.Budget.{i64_max, parse_opt_bytes, parse_u64_or, from_env, auto_gc_options}

module _ (parse_u64 : String → Option ℕ) where
  -- A byte budget is off exactly if the variable is set to zero: an unset variable or a text that is no
  -- number gives the default.
  pub parse_opt_bytes-none :
      (v : Option String) (default : ℕ)
      → (parse_opt_bytes parse_u64 v default ≡ none)
        ↔ ((s : String) × (v ≡ some s) × (parse_u64 s ≡ some 0))
  unfolding parse_opt_bytes
  parse_opt_bytes-none none default = (λ h. cc, λ (s, e, z). cc)
  parse_opt_bytes-none (some s) default = (off, on)
    where
      off :
          parse_opt_bytes parse_u64 (some s) default ≡ none
          → (t : String) × (some s ≡ some t) × (parse_u64 t ≡ some 0)
      off h = elim (Option-cases (parse_u64 s)) [
        | inl garbage ↦ cc (rw (garbage, parse_opt_bytes) at h)
        | inr (n, parsed) ↦ elim (Bool-cases (n == 0)) [
          | inl zeroed ↦ (s, refl, parsed ∙ ap some ((==_iff n 0).0 zeroed))
          | inr more ↦ cc (rw (parsed, more, parse_opt_bytes) at h)
        ]
      ]

      on :
          ((t : String) × (some s ≡ some t) × (parse_u64 t ≡ some 0))
          → parse_opt_bytes parse_u64 (some s) default ≡ none
      on (t, e, z) = let same : s ≡ t = some-injective s t e in rw (same, z, parse_opt_bytes) refl

  -- Whatever the environment holds, the retention window is at least one day, so that zero never means
  -- to prune all but the newest action, and it and the cadence fit a signed 64-bit number; and the
  -- options of the automatic pass are no dry run, have no floor of free space, and have a deadline.
  pub from_env-bounds :
      (get : String → Option String)
      → (0 < (from_env parse_u64 get).keep_days)
        × ((from_env parse_u64 get).keep_days ≤ i64_max)
        × ((from_env parse_u64 get).gc_every ≤ i64_max)
        × ((auto_gc_options (from_env parse_u64 get)).dry_run ≡ false)
        × ((auto_gc_options (from_env parse_u64 get)).min_free_bytes ≡ none)
        × ((auto_gc_options (from_env parse_u64 get)).time_budget ≡ some 3000)
  unfolding from_env auto_gc_options
  from_env-bounds get = (positive, small, omega arith, refl, refl, refl)
    where
      days : ℕ
      days = parse_u64_or parse_u64 (get "DOOVER_KEEP_DAYS") 7

      positive : 0 < (from_env parse_u64 get).keep_days
      positive = elim (Bool-cases (days == 0)) [
        | inl off ↦ rw off (omega arith)
        | inr on ↦ ground arith
      ]

      small : (from_env parse_u64 get).keep_days ≤ i64_max
      small = ground arith
