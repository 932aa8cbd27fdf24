-- ===== src/Resolver/Outcome.antt =====
-- crates/doover-core/src/resolver.rs: `Severity`, `Out` and `Resolution`, what a walk over a command
-- line collects.
use doover.Base.{
  ℕ, suc, String, Bool, true, false, Option, none, some, List, [], ◌∷◌, ltb, if◌then◌else◌,
}
use doover.Paths.{FilePath}
use doover.Registry.Rules.{Effect}
use doover.Snapshot.Same.{path_eq, path_leb}

pub data Severity : Type 0 where
  safe mutating externalizing unknown destructive irreversible : Severity

-- The derived order: the position in the declaration.
abbrev pub rank : Severity → ℕ
rank safe = 0
rank mutating = 1
rank externalizing = 2
rank unknown = 3
rank destructive = 4
rank irreversible = 5

-- `Severity::max`
abbrev pub worse : Severity → Severity → Severity
worse a b = if ltb (rank b) (rank a) then a else b

unfoldable pub as_str : Severity → String
as_str safe = "safe"
as_str mutating = "mutating"
as_str externalizing = "externalizing"
as_str unknown = "unknown"
as_str destructive = "destructive"
as_str irreversible = "irreversible"

abbrev pub of_effect : Effect → Severity
of_effect Effect.safe = safe
of_effect Effect.mutating = mutating
of_effect Effect.externalizing = externalizing
of_effect Effect.destructive = destructive
of_effect Effect.irreversible = irreversible

pub record Resolution : Type 0 where
  pub severity : Severity
  pub paths : List FilePath
  pub rule_id : Option String
  pub has_unknown : Bool

-- `panicked` says that the thread is gone; `walks` counts the globs that were expanded.
pub record Out : Type 0 where
  pub severity : Severity
  pub paths : List FilePath
  pub rule_id : Option String
  pub rule_sev : Severity
  pub has_unknown : Bool
  pub panicked : Bool
  pub walks : ℕ

-- `Out::default()`
abbrev pub fresh : Out
fresh = record {
  severity = safe;
  paths = [];
  rule_id = none;
  rule_sev = safe;
  has_unknown = false;
  panicked = false;
  walks = 0;
}

unfoldable pub mark_unknown : Out → Out
mark_unknown o = record o { severity = worse o.severity unknown; has_unknown = true }

-- The rule of a contribution, where it is the first or the worst.
abbrev pub takes_over : Option String → Severity → Severity → Bool
takes_over none sev rule_sev = true
takes_over (some id) sev rule_sev = ltb (rank rule_sev) (rank sev)

unfoldable pub contribute : Severity → String → Out → Out
contribute sev id o =
    if takes_over o.rule_id sev o.rule_sev
    then record o { severity = worse o.severity sev; rule_id = some id; rule_sev = sev }
    else record o { severity = worse o.severity sev }

-- `BTreeSet::insert`
unfoldable pub insert_path : FilePath → List FilePath → List FilePath
insert_path p [] = p ∷ []
insert_path p (q ∷ qs) =
    let later = q ∷ insert_path p qs in
    if path_eq p q then q ∷ qs else if path_leb p q then p ∷ q ∷ qs else later

unfoldable pub add : FilePath → Out → Out
add p o = record o { paths = insert_path p o.paths }

unfoldable pub panic : Out → Out
panic o = record o { panicked = true }

unfoldable pub next_walk : Out → Out
next_walk o = record o { walks = suc o.walks }

unfoldable pub finish : Out → Resolution
finish o = record {
  severity = o.severity;
  paths = o.paths;
  rule_id = o.rule_id;
  has_unknown = o.has_unknown;
}

-- What a thread that did not return stands for.
abbrev pub unresolved : Resolution
unresolved = record { severity = unknown; paths = []; rule_id = none; has_unknown = true }

unfoldable pub joined : Out → Resolution
unfolding finish
joined o = if o.panicked then unresolved else finish o
