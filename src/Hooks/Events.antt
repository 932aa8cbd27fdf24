-- ===== src/Hooks/Events.antt =====
-- crates/doover-core/src/hooks.rs: errors, settings, and the events as they are read from the wire.
use doover.Base.{ℕ, String, Bool, false, Option, none, some, ◌==◌, str_eq, if◌then◌else◌, ◌-◌, ◌+◌}
use doover.Paths.{FilePath}
use doover.Registry.Rules.{RegistryError}
use doover.Snapshot.Errors.{SnapshotError}
use doover.Journal.Records.{JournalError}
use doover.Maintenance.Budget.{MaintenanceBudget}

pub data HookError : Type 0 where
  parse_failed : String → HookError
  not_bash : String → HookError
  journal_failed : JournalError → HookError
  snapshot_failed : SnapshotError → HookError
  registry_failed : RegistryError → HookError

pub data UnknownPolicy : Type 0 where
  snapshot_cwd passthrough : UnknownPolicy

-- `std::env::var("DOOVER_UNKNOWN_POLICY")`
unfoldable pub unknown_policy_of : Option String → UnknownPolicy
unknown_policy_of none = snapshot_cwd
unknown_policy_of (some v) = if str_eq v "passthrough" then passthrough else snapshot_cwd

-- In milliseconds; `parse_u64` trims its text and parses it.
unfoldable pub parse_snapshot_budget : (String → Option ℕ) → Option String → Option ℕ
parse_snapshot_budget parse_u64 none = some 5000
parse_snapshot_budget parse_u64 (some v) = elim (parse_u64 v) [
  | none ↦ some 5000
  | some ms ↦ if ms == 0 then none else some ms
]

pub record Limits : Type 0 where
  pub max_files : ℕ
  pub max_bytes : ℕ
  pub max_duration : Option ℕ

-- The time that is left, at least zero.
unfoldable pub slice_limits : Limits → Option ℕ → ℕ → Limits
slice_limits base none now = base
slice_limits base (some deadline) now = record base { max_duration = some (deadline - now) }

unfoldable pub hook_deadline : Limits → ℕ → Option ℕ
hook_deadline limits now = elim limits.max_duration [ none ↦ none | some d ↦ some (now + d) ]

pub record HookConfig : Type 0 where
  pub home : FilePath
  pub limits : Limits
  pub unknown_policy : UnknownPolicy
  pub maintenance : MaintenanceBudget

-- `wire::ToolInput` and `wire::Event`
pub record ToolInput : Type 0 where
  pub command : Option String
  pub run_in_background : Option Bool

pub record WireEvent : Type 0 where
  pub session_id : String
  pub cwd : FilePath
  pub tool_name : String
  pub tool_use_id : String
  pub tool_input : Option ToolInput
  pub duration_ms : Option ℕ

pub record PreEvent : Type 0 where
  pub session_id : String
  pub tool_use_id : String
  pub cwd : FilePath
  pub command : String
  pub background : Bool

pub record PostEvent : Type 0 where
  pub session_id : String
  pub tool_use_id : String
  pub duration_ms : ℕ
  pub background : Bool

pub data Handled {ℓ} (A : Type ℓ) : Type ℓ where
  handled : A → Handled A
  refused : HookError → Handled A

abbrev pub is_background : Option ToolInput → Bool
is_background none = false
is_background (some t) = elim t.run_in_background [ none ↦ false | some b ↦ b ]

abbrev pub command_of : Option ToolInput → Option String
command_of none = none
command_of (some t) = t.command

-- `decode` is the JSON decoder: an event, or its message.
unfoldable pub parse_pre_event : (String → Handled WireEvent) → String → Handled PreEvent
parse_pre_event decode json = elim (decode json) [
  | refused e ↦ refused e
  | handled e ↦
      if str_eq e.tool_name "Bash"
      then elim (command_of e.tool_input) [
        | none ↦ refused (parse_failed "missing tool_input.command")
        | some command ↦ handled (record {
          session_id = e.session_id;
          tool_use_id = e.tool_use_id;
          cwd = e.cwd;
          command = command;
          background = is_background e.tool_input;
        })
      ]
      else refused (not_bash e.tool_name)
]

unfoldable pub parse_post_event : (String → Handled WireEvent) → String → Handled PostEvent
parse_post_event decode json = elim (decode json) [
  | refused e ↦ refused e
  | handled e ↦
      if str_eq e.tool_name "Bash"
      then handled (record {
        session_id = e.session_id;
        tool_use_id = e.tool_use_id;
        duration_ms = elim e.duration_ms [ none ↦ 0 | some d ↦ d ];
        background = is_background e.tool_input;
      })
      else refused (not_bash e.tool_name)
]
