-- ===== src/Registry/Ids.antt =====
-- The map from ids to positions of crates/doover-core/src/registry.rs, and the list of rules.
use mathlib.Core.List.{append_assoc, append-nil}
use doover.Base.{
  subst, ℕ, ◌≤◌, ◌==◌, String, ◌≡◌, inl, inr, some, none, List, [], ◌∷◌, ◌++◌, arith, length, set,
  get_elem?, Option-cases, eq_iff, str_eq, Bool-cases,
}
use doover.Base.Indexing.{length-push, length-set, get_elem?-lt, get_elem?-push, get_elem?-set}
use doover.Registry.Rules.{Rule, ok, Checked-cases, ok-injective}
use doover.Registry.Lookup.{Registry}
use doover.Registry.Overlay.{
  Index, Warning, index_get, index_rules, from_rules, downgrades, replace_rule, push_rule,
  insert_overlay, insert_rules,
}

-- Every entry names a rule with that id, and every rule is found under its id.
pub record Indexes (rules : List Rule) (index : Index) : Type 0 where
  pub sound :
      (k : String) (i : ℕ)
      → index_get index k ≡ some i
      → (rule : Rule) × (get_elem? rules i ≡ some rule) × (rule.id ≡ k)
  pub complete :
      (i : ℕ) (rule : Rule) → get_elem? rules i ≡ some rule → index_get index rule.id ≡ some i

Indexes-nil : Indexes [] []
unfolding index_get
Indexes-nil = record { sound = λ k i h. cc; complete = λ i rule h. cc }

Indexes-push :
    (rules : List Rule) (index : Index) (rule : Rule)
    → Indexes rules index
    → index_get index rule.id ≡ none
    → Indexes (rules ++ (rule ∷ [])) ((rule.id, length rules) ∷ index)
unfolding index_get
Indexes-push rules index rule v fresh = record {
  sound = λ k i h. elim (Bool-cases (str_eq rule.id k)) [
    | inl same ↦ (rule, ground (arith, get_elem?-push rules rule i), (eq_iff rule.id k).0 same)
    | inr other ↦
        let (found, at, named) = v.sound k i (rw other at h) in
        (found, ground (arith, get_elem?-push rules rule i, get_elem?-lt rules i found at), named)
  ];
  complete = λ i found h.
      ground (arith, get_elem?-push rules rule i, v.complete i found, eq_iff rule.id found.id);
}

-- A rule may be put in the place of one with the same id.
Indexes-set :
    (rules : List Rule) (index : Index) (i : ℕ) (old rule : Rule)
    → Indexes rules index
    → get_elem? rules i ≡ some old
    → old.id ≡ rule.id
    → Indexes (set rules i rule) index
Indexes-set rules index i old rule v at same = record {
  sound = λ k j h. elim (Bool-cases (i == j)) [
    | inl here ↦
        let (found, there, named) = v.sound k j h in
        (
          rule,
          ground (arith, get_elem?-set rules i j rule, get_elem?-lt rules i old at),
          ground arith,
        )
    | inr other ↦
        let (found, there, named) = v.sound k j h in
        (found, ground (arith, get_elem?-set rules i j rule), named)
  ];
  complete = λ j found h.
      ground (arith, get_elem?-set rules i j rule, v.complete j found, v.complete i old);
}

index_rules-Indexes :
    (seen rules : List Rule) (index : Index) {index' : Index}
    → Indexes seen index
    → index_rules (length seen) rules index ≡ ok index'
    → Indexes (seen ++ rules) index'
unfolding index_rules
index_rules-Indexes seen [] index v h = rw append-nil (ground arith)
index_rules-Indexes seen (rule ∷ rules) index v h = elim (Option-cases (index_get index rule.id)) [
  | inl fresh ↦ rw (← append_assoc seen (rule ∷ []) rules) (
      index_rules-Indexes (seen ++ (rule ∷ [])) rules ((rule.id, length seen) ∷ index)
        (Indexes-push seen index rule v fresh) (rw length-push (rw (fresh, index_rules) at h)))
  | inr (i, taken) ↦ cc (rw (taken, index_rules) at h)
]

-- The registry as a whole, with the shipped rules in front.
pub record IsIndexed (r : Registry) : Type 0 where
  pub by_id : Indexes r.rules r.index
  pub shipped : r.shipped_count ≤ length r.rules

replace_rule-IsIndexed :
    (r : Registry) (i : ℕ) (old rule : Rule) (warnings : List Warning)
    → IsIndexed r
    → get_elem? r.rules i ≡ some old
    → old.id ≡ rule.id
    → IsIndexed (replace_rule r i rule (some old) warnings).0
unfolding replace_rule
replace_rule-IsIndexed r i old rule warnings v at named = elim (Bool-cases (downgrades old rule)) [
  | inl weaker ↦ rw weaker v
  | inr fits ↦ rw fits (record {
    by_id = Indexes-set r.rules r.index i old rule v.by_id at named;
    shipped = omega (arith, length-set r.rules i rule, v.shipped);
  })
]

pub insert_overlay-IsIndexed :
    (r : Registry) (rule : Rule) (warnings : List Warning)
    → IsIndexed r
    → IsIndexed (insert_overlay r rule warnings).0
unfolding insert_overlay push_rule
insert_overlay-IsIndexed r rule warnings v = elim (Option-cases (index_get r.index rule.id)) [
  | inl fresh ↦
      rw (fresh, insert_overlay)
        (record {
          by_id = Indexes-push r.rules r.index rule v.by_id fresh;
          shipped = omega (arith, length-push r.rules rule, v.shipped);
        })
  | inr (i, taken) ↦
      let (old, at, named) = v.by_id.sound rule.id i taken in
      rw (taken, insert_overlay) (rw at (replace_rule-IsIndexed r i old rule warnings v at named))
]

pub insert_rules-IsIndexed :
    (r : Registry) (rules : List Rule) (warnings : List Warning)
    → IsIndexed r
    → IsIndexed (insert_rules r rules warnings).0
unfolding insert_rules
insert_rules-IsIndexed r [] warnings v = v
insert_rules-IsIndexed r (rule ∷ rules) warnings v =
    insert_rules-IsIndexed (insert_overlay r rule warnings).0 rules
      (insert_overlay r rule warnings).1 (insert_overlay-IsIndexed r rule warnings v)

pub from_rules-IsIndexed :
    (rules : List Rule) {r : Registry} → from_rules rules ≡ ok r → IsIndexed r
unfolding from_rules
from_rules-IsIndexed rules {r} h = elim (Checked-cases (index_rules 0 rules [])) [
  | inl (index, e) ↦
      let made : ok (record { rules = rules; index = index; shipped_count = length rules }) ≡ ok r =
        rw (e, from_rules) at h in
      subst IsIndexed (ok-injective _ r made)
        (record { by_id = index_rules-Indexes [] rules [] Indexes-nil e; shipped = omega arith })
  | inr (failure, e) ↦ cc (rw (e, from_rules) at h)
]
