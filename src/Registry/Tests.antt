-- ===== src/Registry/Tests.antt =====
-- Runs of the registry, and its theorems at concrete data.
use doover.Base.{
  String, ◌≤◌, ◌≡◌, refl, zero, suc, ap, ◌∙◌, subst, All, if◌then◌else◌, true, false, Option, none,
  some, List, [], ◌∷◌, arith, str_eq, eq_iff,
}
use doover.Registry.Rules.{
  Effect, safe, destructive, effect_rank, snapshot_restore, positional, Rule, Checked, ok, err,
  is_protected, invalid_rule, validate, unparsable, unreadable, ok-injective,
}
use doover.Registry.Lookup.{Registry, best, flag_matches, lookup_command, with_floor}
use doover.Registry.Overlay.{
  Warning, skipping, parse_rules, from_rules, insert_overlay, insert_rules, downgrades,
  replace_rule, push_rule, shadow_warning, shadows, refusing_downgrade, builtin, with_overlay,
  files, index_get,
}
use mathlib.Core.Option.{some-injective}
use doover.Registry.Floor.{lookup_command-floor}
use doover.Registry.Ids.{IsIndexed}
use doover.Registry.Overlaid.{FileRespects, Respects, with_overlay-floor}
use doover.Registry.Loading.{with_overlay-IsIndexed}
use doover.Registry.Shadow.{insert_rules-shadow, shipped_with}

abbrev command_rule : String → String → Effect → Rule
command_rule id command effect = record {
  id = id;
  matcher = record { command = some command; subcommand = none; flags_any = none; redirect = none };
  effect = effect;
  scope = some (record {
    paths = positional;
    globs = true;
    skip = 0;
    flag_args = [];
    path_flags = "-o" ∷ [];
    recursive_flags = [];
  });
  undo = snapshot_restore;
  notes = none;
}

abbrev rm : Rule
rm = command_rule "coreutils.rm" "rm" destructive

-- An overlay rule with a new id for the same command, and its refused twin with the same id.
abbrev sneaky : Rule
sneaky = command_rule "user.rm" "rm" safe

abbrev weakened : Rule
weakened = command_rule "coreutils.rm" "rm" safe

abbrev decoy : Rule
decoy = command_rule "coreutils.rm" "no-such-command" destructive

-- A parser that knows two documents.
yaml : String → String → Checked (List Rule)
yaml file contents =
    if str_eq contents "shipped"
    then ok (rm ∷ [])
    else if str_eq contents "sneaky"
    then ok (sneaky ∷ [])
    else err (unparsable file)

abbrev shipped_files : List (String × String)
shipped_files = ("coreutils.yaml", "shipped") ∷ []

abbrev overlay : List (String × Option String)
overlay = ("a.yaml", some "sneaky") ∷ ("b.yaml", some "{") ∷ ("c.yaml", none) ∷ []

abbrev base : Registry
base = record { rules = rm ∷ []; index = ("coreutils.rm", 0) ∷ []; shipped_count = 1 }

abbrev extended : Registry
extended = record {
  rules = rm ∷ sneaky ∷ [];
  index = ("user.rm", 1) ∷ ("coreutils.rm", 0) ∷ [];
  shipped_count = 1;
}

abbrev warnings : List Warning
warnings =
    shadows "user.rm" "rm"
    ∷ skipping "b.yaml" (unparsable "b.yaml")
    ∷ skipping "c.yaml" (unreadable "c.yaml")
    ∷ []

builtin_runs : builtin yaml shipped_files ≡ ok base
unfolding builtin yaml
builtin_runs = refl

with_overlay_runs : with_overlay yaml shipped_files (files overlay) ≡ ok (extended, warnings)
unfolding with_overlay yaml insert_rules insert_overlay push_rule shadow_warning index_get
with_overlay_runs = refl

lookup_runs : lookup_command base "rm" none ("-rf" ∷ []) ≡ some rm
unfolding lookup_command best with_floor is_protected
lookup_runs = refl

sneaky-Respects : Respects (rm ∷ []) sneaky
sneaky-Respects zero s at same =
    cc (
      (eq_iff "coreutils.rm" "user.rm").1 (ap (λ (r : Rule). r.id) (some-injective rm s at) ∙ same))
sneaky-Respects (suc i) s at same = cc

overlay-respects : All (FileRespects yaml (rm ∷ [])) overlay
unfolding parse_rules yaml
overlay-respects = (
  λ rules h. subst (All (Respects (rm ∷ []))) (ok-injective _ rules h) (sneaky-Respects, tt),
  (λ rules h. cc, (tt, tt)),
)

with_overlay-floor_example :
    (o : Rule) × (lookup_command extended "rm" none ("-rf" ∷ []) ≡ some o)
    × (effect_rank destructive ≤ effect_rank o.effect)
unfolding is_protected
with_overlay-floor_example =
    with_overlay-floor yaml shipped_files overlay "rm" none ("-rf" ∷ []) rm builtin_runs
      with_overlay_runs overlay-respects lookup_runs refl

-- A downgrade under the shipped id is refused with a warning.
weakened_refused :
    insert_overlay base weakened []
    ≡ (base, refusing_downgrade "coreutils.rm" destructive safe ∷ [])
unfolding insert_overlay index_get replace_rule downgrades is_protected
weakened_refused = refl

-- A decoy under the shipped id and a second rule make `rm` safe.
insert_rules-shadow_example :
    lookup_command (insert_rules (shipped_with rm) (decoy ∷ sneaky ∷ []) []).0 "rm" none []
    ≡ some sneaky
insert_rules-shadow_example =
    insert_rules-shadow rm decoy sneaky "rm" refl (λ p. cc ((eq_iff "user.rm" "coreutils.rm").1 p))
      (omega arith) refl refl refl refl

from_rules_runs : from_rules (rm ∷ []) ≡ ok base
unfolding from_rules
from_rules_runs = refl

with_overlay-IsIndexed_example : IsIndexed extended
with_overlay-IsIndexed_example =
    with_overlay-IsIndexed yaml shipped_files (files overlay) with_overlay_runs

attached_value : flag_matches "-oout.txt" "-o" true ≡ true
unfolding flag_matches
attached_value = refl

cluster_is_no_value : flag_matches "-rf" "-r" false ≡ false
unfolding flag_matches
cluster_is_no_value = refl

long_value : flag_matches "--out=x" "--out" false ≡ true
unfolding flag_matches
long_value = refl

both_refused :
    validate "f.yaml" (record rm { matcher = record rm.matcher { redirect = some ">" } })
    ≡ err (
        invalid_rule "f.yaml" "coreutils.rm"
          "match must have exactly one of `command` or `redirect`, not both")
unfolding validate
both_refused = refl

lookup_command-floor_example :
    (o : Rule) × (lookup_command extended "rm" none ("-rf" ∷ []) ≡ some o)
    × (effect_rank destructive ≤ effect_rank o.effect)
unfolding is_protected best
lookup_command-floor_example = lookup_command-floor "rm" none ("-rf" ∷ []) extended rm refl refl
