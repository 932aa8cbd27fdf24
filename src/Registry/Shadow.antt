-- ===== src/Registry/Shadow.antt =====
-- Overlay rules that take a shipped rule's id, in crates/doover-core/src/registry.rs.
use text.Mathlib.TextPositions.{eq_refl}
use doover.Base.{◌≤◌, String, ◌≡◌, ◌≢◌, refl, sym, false, none, some, List, [], ◌∷◌, arith, eq_iff}
use doover.Registry.Rules.{effect_rank, Rule}
use doover.Registry.Lookup.{
  Registry, best, candidates, max_by, score_command_match, is_text, lookup_command, with_floor,
}
use doover.Registry.Overlay.{
  Warning, index_get, downgrades, replace_rule, push_rule, insert_overlay, insert_rules,
}

abbrev pub shipped_with : Rule → Registry
shipped_with s = record { rules = s ∷ []; index = (s.id, 0) ∷ []; shipped_count = 1 }

downgrades-false :
    (old new : Rule) → effect_rank old.effect ≤ effect_rank new.effect → downgrades old new ≡ false
unfolding downgrades
downgrades-false old new strong = ground arith

-- The registry after a rule with the shipped rule's id has taken its place.
abbrev taken_over : Rule → Rule → Registry
taken_over s decoy = record (shipped_with s) { rules = decoy ∷ [] }

insert_overlay-decoy :
    (s decoy : Rule)
    → decoy.id ≡ s.id
    → effect_rank s.effect ≤ effect_rank decoy.effect
    → insert_overlay (shipped_with s) decoy [] ≡ (taken_over s decoy, [])
unfolding insert_overlay index_get replace_rule
insert_overlay-decoy s decoy same strong =
    rw ((eq_iff s.id decoy.id).1 (sym same), insert_overlay) (rw (not_weaker, replace_rule) refl)
  where
    not_weaker : downgrades s decoy ≡ false
    not_weaker = downgrades-false s decoy strong

insert_overlay-weak :
    (s decoy weak : Rule) (warnings : List Warning)
    → weak.id ≢ s.id
    → ((insert_overlay (taken_over s decoy) weak warnings).0.rules ≡ decoy ∷ weak ∷ [])
      × ((insert_overlay (taken_over s decoy) weak warnings).0.shipped_count ≡ 1)
unfolding insert_overlay index_get push_rule
insert_overlay-weak s decoy weak warnings new =
    (ground (arith, eq_iff s.id weak.id), ground (arith, eq_iff s.id weak.id))

score-elsewhere :
    (rule : Rule) (command : String)
    → is_text rule.matcher.command command ≡ false
    → score_command_match rule command none [] ≡ none
unfolding score_command_match
score-elsewhere rule command elsewhere = rw elsewhere

score-direct :
    (rule : Rule) (command : String)
    → rule.matcher.command ≡ some command
    → rule.matcher.subcommand ≡ none
    → rule.matcher.flags_any ≡ none
    → score_command_match rule command none [] ≡ some 1
unfolding score_command_match
score-direct rule command direct plain bare = rw (direct, plain, bare) (rw eq_refl refl)

lookup_command-weak :
    (r : Registry) (decoy weak : Rule) (command : String)
    → r.rules ≡ decoy ∷ weak ∷ []
    → r.shipped_count ≡ 1
    → score_command_match decoy command none [] ≡ none
    → score_command_match weak command none [] ≡ some 1
    → lookup_command r command none [] ≡ some weak
unfolding lookup_command best candidates max_by with_floor
lookup_command-weak r decoy weak command rules count misses hits =
    rw (rules, count) (rw (misses, candidates) (rw (hits, candidates) refl))

-- In a registry with a single shipped rule: an overlay rule that has its id, no weaker effect and
-- another command takes its place, and a new overlay rule for a command, without a subcommand or flags
-- of its own, then decides the lookup of that command without flags and subcommand, whatever its
-- effect.
pub insert_rules-shadow :
    (s decoy weak : Rule) (command : String)
    → decoy.id ≡ s.id
    → weak.id ≢ s.id
    → effect_rank s.effect ≤ effect_rank decoy.effect
    → is_text decoy.matcher.command command ≡ false
    → weak.matcher.command ≡ some command
    → weak.matcher.subcommand ≡ none
    → weak.matcher.flags_any ≡ none
    → lookup_command (insert_rules (shipped_with s) (decoy ∷ weak ∷ []) []).0 command none []
      ≡ some weak
unfolding insert_rules
insert_rules-shadow s decoy weak command same new strong elsewhere direct plain bare =
    let after = insert_overlay-weak s decoy weak [] new in
    rw (insert_overlay-decoy s decoy same strong) (
      lookup_command-weak (insert_overlay (taken_over s decoy) weak []).0 decoy weak command after.0
        after.1 (score-elsewhere decoy command elsewhere)
        (score-direct weak command direct plain bare))
