-- ===== src/Registry/Overlaid.antt =====
-- What the overlay can do to the shipped protection.
use doover.Base.{
  ℕ, zero, suc, ◌≤◌, String, ◌≡◌, sym, subst, refl, inl, inr, true, false, Option, none, some, List,
  [], ◌∷◌, ◌++◌, arith, length, set, get_elem?, Option-cases, Bool-cases, All,
}
use doover.Base.Indexing.{take-length}
use doover.Registry.Rules.{
  Effect, effect_rank, Rule, is_protected, Checked, ok, ok-injective, Checked-cases,
}
use doover.Registry.Lookup.{Registry, best, with_floor, lookup_command}
use doover.Registry.Overlay.{
  Warning, index_get, index_rules, from_rules, downgrades, replace_rule, push_rule, insert_overlay,
  insert_rules, parse_rules, overlay_file, overlay_files, shipped_rules, builtin, with_overlay,
  files,
}
use doover.Registry.Ids.{IsIndexed, insert_overlay-IsIndexed, from_rules-IsIndexed}
use doover.Registry.Floor.{BeginsWith, BeginsWith-refl, best-BeginsWith, lookup_command-floor}

-- Where an overlay rule takes the id of a shipped rule, it matches as that rule does.
abbrev pub Respects : List Rule → Rule → Type 0
Respects shipped rule =
    (i : ℕ) (s : Rule)
    → get_elem? shipped i ≡ some s
    → s.id ≡ rule.id
    → (rule.matcher ≡ s.matcher) × (rule.scope ≡ s.scope)

BeginsWith-push :
    (shipped rules : List Rule) (rule : Rule)
    → BeginsWith shipped rules
    → BeginsWith shipped (rules ++ (rule ∷ []))
BeginsWith-push [] rules rule b = tt
BeginsWith-push (s ∷ shipped) [] rule b = absurd b
BeginsWith-push (s ∷ shipped) (r ∷ rules) rule b = (b.0, BeginsWith-push shipped rules rule b.1)

-- A rule that does not downgrade the one in its place.
BeginsWith-set :
    (shipped rules : List Rule) (i : ℕ) (old rule : Rule)
    → Respects shipped rule
    → BeginsWith shipped rules
    → get_elem? rules i ≡ some old
    → old.id ≡ rule.id
    → downgrades old rule ≡ false
    → BeginsWith shipped (set rules i rule)
unfolding downgrades
BeginsWith-set [] rules i old rule fits b at named strong = tt
BeginsWith-set (s ∷ shipped) [] i old rule fits b at named strong = absurd b
BeginsWith-set (s ∷ shipped) (r ∷ rules) zero old rule fits b at named strong =
    let here : r ≡ old = cc in
    let same : s.id ≡ rule.id = cc (b.0.id) in
    let alike = fits 0 s refl same in
    (
      record {
        id = sym same;
        matcher = alike.0;
        scope = alike.1;
        effect = λ p. ground (arith, b.0.effect p);
      },
      b.1,
    )
BeginsWith-set (s ∷ shipped) (r ∷ rules) (suc i) old rule fits b at named strong =
    (b.0, BeginsWith-set shipped rules i old rule (λ j. fits (suc j)) b.1 at named strong)

-- What the overlay keeps: the shipped rules or their stand-ins in front, and a true index.
pub record IsGuarded (shipped : List Rule) (r : Registry) : Type 0 where
  pub front : BeginsWith shipped r.rules
  pub count : r.shipped_count ≡ length shipped
  pub indexed : IsIndexed r

replace_rule-IsGuarded :
    (shipped : List Rule) (r : Registry) (i : ℕ) (old rule : Rule) (warnings : List Warning)
    → Respects shipped rule
    → IsGuarded shipped r
    → get_elem? r.rules i ≡ some old
    → old.id ≡ rule.id
    → BeginsWith shipped (replace_rule r i rule (some old) warnings).0.rules
      × ((replace_rule r i rule (some old) warnings).0.shipped_count ≡ length shipped)
unfolding replace_rule
replace_rule-IsGuarded shipped r i old rule warnings fits g at named =
    elim (Bool-cases (downgrades old rule)) [
      | inl weaker ↦ rw weaker (g.front, g.count)
      | inr strong ↦
          rw strong
            (BeginsWith-set shipped r.rules i old rule fits g.front at named strong, g.count)
    ]

insert_overlay_front :
    (shipped : List Rule) (r : Registry) (rule : Rule) (warnings : List Warning)
    → Respects shipped rule
    → IsGuarded shipped r
    → BeginsWith shipped (insert_overlay r rule warnings).0.rules
      × ((insert_overlay r rule warnings).0.shipped_count ≡ length shipped)
unfolding insert_overlay push_rule
insert_overlay_front shipped r rule warnings fits g =
    elim (Option-cases (index_get r.index rule.id)) [
      | inl fresh ↦
          rw (fresh, insert_overlay) (BeginsWith-push shipped r.rules rule g.front, g.count)
      | inr (i, taken) ↦
          let (old, at, named) = g.indexed.by_id.sound rule.id i taken in
          rw (taken, insert_overlay)
            (rw at (replace_rule-IsGuarded shipped r i old rule warnings fits g at named))
    ]

insert_overlay-IsGuarded :
    (shipped : List Rule) (r : Registry) (rule : Rule) (warnings : List Warning)
    → Respects shipped rule
    → IsGuarded shipped r
    → IsGuarded shipped (insert_overlay r rule warnings).0
insert_overlay-IsGuarded shipped r rule warnings fits g = record {
  front = parts.0;
  count = parts.1;
  indexed = insert_overlay-IsIndexed r rule warnings g.indexed;
}
  where
    parts :
        BeginsWith shipped (insert_overlay r rule warnings).0.rules
        × ((insert_overlay r rule warnings).0.shipped_count ≡ length shipped)
    parts = insert_overlay_front shipped r rule warnings fits g

insert_rules-IsGuarded :
    (shipped : List Rule) (r : Registry) (rules : List Rule) (warnings : List Warning)
    → All (Respects shipped) rules
    → IsGuarded shipped r
    → IsGuarded shipped (insert_rules r rules warnings).0
unfolding insert_rules
insert_rules-IsGuarded shipped r [] warnings fits g = g
insert_rules-IsGuarded shipped r (rule ∷ rules) warnings fits g =
    insert_rules-IsGuarded shipped (insert_overlay r rule warnings).0 rules
      (insert_overlay r rule warnings).1 fits.1
      (insert_overlay-IsGuarded shipped r rule warnings fits.0 g)

from_rules_parts :
    (rules : List Rule) {r : Registry}
    → from_rules rules ≡ ok r
    → (r.rules ≡ rules) × (r.shipped_count ≡ length rules)
unfolding from_rules
from_rules_parts rules {r} h = elim (Checked-cases (index_rules 0 rules [])) [
  | inl (index, e) ↦
      let made : ok (record { rules = rules; index = index; shipped_count = length rules }) ≡ ok r =
        rw (e, from_rules) at h in
      subst (λ q. (q.rules ≡ rules) × (q.shipped_count ≡ length rules)) (ok-injective _ r made)
        (refl, refl)
  | inr (failure, e) ↦ cc (rw (e, from_rules) at h)
]

from_rules-IsGuarded :
    (rules : List Rule) {r : Registry} → from_rules rules ≡ ok r → IsGuarded r.rules r
from_rules-IsGuarded rules {r} h =
    let parts = from_rules_parts rules h in
    record {
      front = BeginsWith-refl r.rules;
      count = rw parts.0 parts.1;
      indexed = from_rules-IsIndexed rules h;
    }

module _ (yaml : String → String → Checked (List Rule)) where
  -- Every rule that the parser finds in the file respects the shipped ones.
  abbrev pub FileRespects : List Rule → String × Option String → Type 0
  FileRespects shipped (file, none) = Unit
  FileRespects shipped (file, some contents) =
      (rules : List Rule) → parse_rules yaml file contents ≡ ok rules → All (Respects shipped) rules

  overlay_file-IsGuarded :
      (shipped : List Rule) (r : Registry) (warnings : List Warning) (file : String)
      (contents : Option String)
      → FileRespects shipped (file, contents)
      → IsGuarded shipped r
      → IsGuarded shipped (overlay_file yaml r warnings file contents).0
  unfolding overlay_file
  overlay_file-IsGuarded shipped r warnings file none fits g = g
  overlay_file-IsGuarded shipped r warnings file (some contents) fits g =
      elim (Checked-cases (parse_rules yaml file contents)) [
        | inl (rules, e) ↦
            rw (e, overlay_file) (insert_rules-IsGuarded shipped r rules warnings (fits rules e) g)
        | inr (failure, e) ↦ rw (e, overlay_file) g
      ]

  overlay_files-IsGuarded :
      (shipped : List Rule) (r : Registry) (warnings : List Warning)
      (entries : List (String × Option String))
      → All (FileRespects shipped) entries
      → IsGuarded shipped r
      → IsGuarded shipped (overlay_files yaml r warnings entries).0
  unfolding overlay_files
  overlay_files-IsGuarded shipped r warnings [] fits g = g
  overlay_files-IsGuarded shipped r warnings ((file, contents) ∷ rest) fits g =
      overlay_files-IsGuarded shipped (overlay_file yaml r warnings file contents).0
        (overlay_file yaml r warnings file contents).1 rest fits.1
        (overlay_file-IsGuarded shipped r warnings file contents fits.0 g)

with_floor_self : (b : Option Rule) (s : Rule) → with_floor b b ≡ some s → b ≡ some s
unfolding with_floor
with_floor_self none s h = h
with_floor_self (some o) s h = ground arith

lookup_command-shipped :
    (r : Registry) (command : String) (subcommand : Option String) (flags : List String) (s : Rule)
    → r.shipped_count ≡ length r.rules
    → lookup_command r command subcommand flags ≡ some s
    → best command subcommand flags r.rules ≡ some s
unfolding lookup_command
lookup_command-shipped r command subcommand flags s whole h =
    with_floor_self _ s (rw (whole, take-length r.rules) at h)

is_protected_mono :
    (a b : Effect) → is_protected a ≡ true → effect_rank a ≤ effect_rank b → is_protected b ≡ true
unfolding is_protected
is_protected_mono a b p h = ground arith

builtin-IsGuarded :
    (yaml : String → String → Checked (List Rule)) (shipped : List (String × String)) {r : Registry}
    → builtin yaml shipped ≡ ok r
    → IsGuarded r.rules r
unfolding builtin
builtin-IsGuarded yaml shipped {r} h = elim (Checked-cases (shipped_rules yaml shipped)) [
  | inl (rules, e) ↦ from_rules-IsGuarded rules (rw (e, builtin) at h)
  | inr (failure, e) ↦ cc (rw (e, builtin) at h)
]

-- Take a command that the shipped registry gives a protected rule (externalizing or stronger).
-- After any overlay files, broken ones included, it gets a rule with no weaker effect, if each
-- overlay rule that takes a shipped rule's id matches as that rule does.
pub with_overlay-floor :
    (yaml : String → String → Checked (List Rule)) (shipped : List (String × String))
    (entries : List (String × Option String)) (command : String) (subcommand : Option String)
    (flags : List String) (s : Rule) {base r : Registry} {warnings : List Warning}
    → builtin yaml shipped ≡ ok base
    → with_overlay yaml shipped (files entries) ≡ ok (r, warnings)
    → All (FileRespects yaml base.rules) entries
    → lookup_command base command subcommand flags ≡ some s
    → is_protected s.effect ≡ true
    → (o : Rule) × (lookup_command r command subcommand flags ≡ some o)
      × (effect_rank s.effect ≤ effect_rank o.effect)
unfolding with_overlay
with_overlay-floor yaml shipped entries command subcommand flags s {base} {r} {warnings} b w fits
      found guarded =
    let start = builtin-IsGuarded yaml shipped b in
    let made : ok (overlay_files yaml base [] entries) ≡ ok (r, warnings) =
      rw (b, with_overlay) at w in
    let done : IsGuarded base.rules r =
      subst (λ (p : Registry × List Warning). IsGuarded base.rules p.0)
        (ok-injective _ (r, warnings) made)
        (overlay_files-IsGuarded yaml base.rules base [] entries fits start) in
    let best_shipped = lookup_command-shipped base command subcommand flags s start.count found in
    let (t, among, strong) =
      best-BeginsWith command subcommand flags base.rules r.rules s done.front best_shipped
        guarded in
    let (o, result, stronger) =
      lookup_command-floor command subcommand flags r t (rw (← done.count) at among)
        (is_protected_mono s.effect t.effect guarded strong) in
    (o, result, omega arith)
