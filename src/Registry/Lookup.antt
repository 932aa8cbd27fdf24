-- ===== src/Registry/Lookup.antt =====
-- crates/doover-core/src/registry.rs: matching a command against the rules.
use Prim.Native.Nat.{compare, Ordering}
use Prim.Native.String.{compare as str_cmp, len, then as then_with}
use doover.Base.{
  ℕ, ◌+◌, String, Bool, false, Option, none, some, List, [], ◌∷◌, ◌&&◌, ◌||◌, ltb, ◌==◌, any, find,
  take, if◌then◌else◌, str_eq, starts_with, split_once, not,
}
use doover.Registry.Rules.{effect_rank, effect_cmp, ScopeSpec, Rule, is_protected}

-- `a.as_deref() == Some(b)`
abbrev pub is_text : Option String → String → Bool
is_text none b = false
is_text (some a) b = str_eq a b

unfoldable pub flag_matches : String → String → Bool → Bool
unfolding split_once
flag_matches observed want value_taking =
    str_eq observed want
    || (starts_with want "--" && is_text (split_once b'=' observed) want)
    || (value_taking
        && len want == 2
        && starts_with want "-"
        && not (starts_with want "--")
        && ltb 2 (len observed)
        && starts_with observed want)

-- The closure `value_taking` of `score_command_match`.
unfoldable pub takes_value : Option ScopeSpec → String → Bool
takes_value none w = false
takes_value (some s) w = any s.path_flags (λ x. str_eq x w) || any s.flag_args (λ x. str_eq x w)

-- What a matching subcommand adds to the score.
unfoldable pub subcommand_score : Option String → Option String → Option ℕ
subcommand_score none subcommand = some 0
subcommand_score (some want) subcommand = if is_text subcommand want then some 2 else none

-- What a matching flag adds to the score.
unfoldable pub flags_score : Option ScopeSpec → Option (List String) → List String → Option ℕ
flags_score scope none flags = some 0
flags_score scope (some want_any) flags =
    if any want_any (λ w. any flags (λ f. flag_matches f w (takes_value scope w)))
    then some 4
    else none

-- Both additions to the score 1 of a matching command; either may rule the match out.
unfoldable pub total_score : Option ℕ → Option ℕ → Option ℕ
total_score none b = none
total_score (some a) none = none
total_score (some a) (some b) = some (1 + a + b)

unfoldable pub score_command_match : Rule → String → Option String → List String → Option ℕ
unfolding flag_matches takes_value subcommand_score flags_score total_score
score_command_match rule command subcommand flags =
    if is_text rule.matcher.command command
    then total_score (subcommand_score rule.matcher.subcommand subcommand)
        (flags_score rule.scope rule.matcher.flags_any flags)
    else none

pub record Candidate : Type 0 where
  pub score : ℕ
  pub rule : Rule

-- The comparison that `max_by` is given.
unfoldable pub candidate_cmp : Candidate → Candidate → Ordering
candidate_cmp a b =
    then_with (compare a.score b.score)
      (then_with (effect_cmp a.rule.effect b.rule.effect) (str_cmp b.rule.id a.rule.id))

module _ (command : String) (subcommand : Option String) (flags : List String) where
  -- `filter_map` of the rules that match.
  unfoldable pub candidates : List Rule → List Candidate
  candidates [] = []
  candidates (rule ∷ rules) = elim (score_command_match rule command subcommand flags) [
    | none ↦ candidates rules
    | some s ↦ record { score = s; rule = rule } ∷ candidates rules
  ]

-- One step of `Iterator::max_by`: of equal elements the later one stays.
unfoldable pub greater : Candidate → Candidate → Candidate
unfolding candidate_cmp
greater x y = elim (candidate_cmp x y) [ Ordering.gt ↦ x | Ordering.lt ↦ y | Ordering.eq ↦ y ]

-- `Iterator::max_by`, once there is a first element.
unfoldable pub max_by : Candidate → List Candidate → Candidate
max_by x [] = x
max_by x (y ∷ ys) = max_by (greater x y) ys

abbrev pub max_candidate : List Candidate → Option Candidate
max_candidate [] = none
max_candidate (x ∷ xs) = some (max_by x xs)

abbrev pub rule_of : Option Candidate → Option Rule
rule_of none = none
rule_of (some c) = some c.rule

-- The closure `best` of `lookup_command`.
unfoldable pub best : String → Option String → List String → List Rule → Option Rule
unfolding candidates score_command_match max_by greater
best command subcommand flags rules =
    rule_of (max_candidate (candidates command subcommand flags rules))

-- The protection floor: the shipped winner stands where the overall one is weaker.
unfoldable pub with_floor : Option Rule → Option Rule → Option Rule
with_floor none shipped = none
with_floor (some o) none = some o
with_floor (some o) (some s) =
    if is_protected s.effect && ltb (effect_rank o.effect) (effect_rank s.effect)
    then some s
    else some o

pub record Registry : Type 0 where
  pub rules : List Rule
  pub index : List (String × ℕ)
  pub shipped_count : ℕ

unfoldable pub lookup_command : Registry → String → Option String → List String → Option Rule
lookup_command r command subcommand flags =
    let overall = best command subcommand flags r.rules in
    let shipped = best command subcommand flags (take r.shipped_count r.rules) in
    with_floor overall shipped

unfoldable pub lookup_redirect : Registry → String → Option Rule
lookup_redirect r op = find (λ rule. is_text rule.matcher.redirect op) r.rules
