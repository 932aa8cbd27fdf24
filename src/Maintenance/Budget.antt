-- ===== src/Maintenance/Budget.antt =====
-- crates/doover-core/src/maintenance.rs: options, budgets and how they are read. `parse_u64` stands
-- for `trim` and `str::parse` of the standard library; durations are in milliseconds.
use doover.Base.{ℕ, ◌*◌, String, Bool, false, Option, none, some, min, ◌==◌, if◌then◌else◌}

pub record GcOptions : Type 0 where
  pub keep_days : ℕ
  pub dry_run : Bool
  pub cap_bytes : Option ℕ
  pub min_free_bytes : Option ℕ
  pub time_budget : Option ℕ

pub record MaintenanceBudget : Type 0 where
  pub cap_bytes : Option ℕ
  pub min_free_bytes : Option ℕ
  pub gc_every : ℕ
  pub keep_days : ℕ

-- `i64::MAX`
abbrev pub i64_max : ℕ
i64_max = 9223372036854775807

module _ (parse_u64 : String → Option ℕ) where
  unfoldable pub parse_opt_bytes : Option String → ℕ → Option ℕ
  parse_opt_bytes none default = some default
  parse_opt_bytes (some s) default = elim (parse_u64 s) [
    | none ↦ some default
    | some n ↦ if n == 0 then none else some n
  ]

  unfoldable pub parse_u64_or : Option String → ℕ → ℕ
  parse_u64_or none default = default
  parse_u64_or (some s) default = elim (parse_u64 s) [ none ↦ default | some n ↦ n ]

  -- `std::env::var(k).ok()` is a parameter.
  unfoldable pub from_env : (String → Option String) → MaintenanceBudget
  from_env get = record {
    cap_bytes = parse_opt_bytes (get "DOOVER_MAX_STORE_BYTES") (5 * 1073741824);
    min_free_bytes = parse_opt_bytes (get "DOOVER_MIN_FREE_BYTES") 1073741824;
    gc_every = min (parse_u64_or (get "DOOVER_GC_EVERY") 50) i64_max;
    keep_days =
        let days = parse_u64_or (get "DOOVER_KEEP_DAYS") 7 in
        if days == 0 then i64_max else min days i64_max;
  }

unfoldable pub disabled : MaintenanceBudget
disabled = record { cap_bytes = none; min_free_bytes = none; gc_every = 0; keep_days = 7 }

unfoldable pub auto_gc_options : MaintenanceBudget → GcOptions
auto_gc_options b = record {
  keep_days = b.keep_days;
  dry_run = false;
  cap_bytes = b.cap_bytes;
  min_free_bytes = none;
  time_budget = some 3000;
}
