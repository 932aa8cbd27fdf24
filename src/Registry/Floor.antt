-- ===== src/Registry/Floor.antt =====
-- The protection floor of `lookup_command`, crates/doover-core/src/registry.rs.
use doover.Base.{
  ℕ, zero, suc, ◌≤◌, String, ◌≡◌, refl, inl, inr, true, Option, none, some, List, [], ◌∷◌, ◌&&◌,
  arith, length, take, ltb, Option-cases, Bool-cases,
}
use doover.Registry.Rules.{effect_rank, Rule, is_protected}
use doover.Registry.Lookup.{
  Candidate, Registry, max_by, max_candidate, candidates, rule_of, best, score_command_match,
  with_floor, lookup_command,
}
use doover.Registry.Best.{Raised, max_by-Raised}

-- `new` may stand for `old`: it has its id, matches as it does, and weakens no protection.
pub record StandsFor (old new : Rule) : Type 0 where
  pub id : new.id ≡ old.id
  pub matcher : new.matcher ≡ old.matcher
  pub scope : new.scope ≡ old.scope
  pub effect : is_protected old.effect ≡ true → effect_rank old.effect ≤ effect_rank new.effect

-- The rules begin with stand-ins for the shipped ones, in order.
abbrev pub BeginsWith : List Rule → List Rule → Type 0
BeginsWith [] rules = Unit
BeginsWith (s ∷ shipped) [] = ⊥
BeginsWith (s ∷ shipped) (r ∷ rules) = StandsFor s r × BeginsWith shipped rules

pub BeginsWith-refl : (shipped : List Rule) → BeginsWith shipped shipped
BeginsWith-refl [] = tt
BeginsWith-refl (s ∷ shipped) = (
  record { id = refl; matcher = refl; scope = refl; effect = λ p. omega arith },
  BeginsWith-refl shipped,
)

module _ (command : String) (subcommand : Option String) (flags : List String) where
  score-StandsFor :
      (old new : Rule)
      → StandsFor old new
      → score_command_match new command subcommand flags
        ≡ score_command_match old command subcommand flags
  unfolding score_command_match
  score-StandsFor old new s = rw (s.matcher, s.scope) refl

  candidates-BeginsWith :
      (shipped rules : List Rule)
      → BeginsWith shipped rules
      → Raised
          (candidates command subcommand flags shipped)
          (candidates command subcommand flags (take (length shipped) rules))
  unfolding candidates
  candidates-BeginsWith [] rules b = tt
  candidates-BeginsWith (s ∷ shipped) [] b = absurd b
  candidates-BeginsWith (s ∷ shipped) (r ∷ rules) b =
      elim (Option-cases (score_command_match s command subcommand flags)) [
        | inl misses ↦
            rw (score-StandsFor s r b.0, candidates)
              (rw (misses, candidates) (candidates-BeginsWith shipped rules b.1))
        | inr (n, hits) ↦
            rw (score-StandsFor s r b.0, candidates)
              (rw (hits, candidates) (refl, b.0.effect, candidates-BeginsWith shipped rules b.1))
      ]

  -- A match among the first rules is a match among all.
  candidates-take :
      (n : ℕ) (rules : List Rule)
      → candidates command subcommand flags rules ≡ []
      → candidates command subcommand flags (take n rules) ≡ []
  unfolding candidates
  candidates-take zero rules h = refl
  candidates-take (suc n) [] h = refl
  candidates-take (suc n) (r ∷ rules) h =
      elim (Option-cases (score_command_match r command subcommand flags)) [
        | inl misses ↦
            rw (misses, candidates) (candidates-take n rules (rw (misses, candidates) at h))
        | inr (_, hits) ↦ cc (rw (hits, candidates) at h)
      ]

  -- A protected winner among the shipped rules is not weakened among their stand-ins.
  pub best-BeginsWith :
      (shipped rules : List Rule) (s : Rule)
      → BeginsWith shipped rules
      → best command subcommand flags shipped ≡ some s
      → is_protected s.effect ≡ true
      → (t : Rule) × (best command subcommand flags (take (length shipped) rules) ≡ some t)
        × (effect_rank s.effect ≤ effect_rank t.effect)
  unfolding best
  best-BeginsWith shipped rules s b found guarded =
      go (candidates command subcommand flags shipped)
        (candidates command subcommand flags (take (length shipped) rules))
        (candidates-BeginsWith shipped rules b) found
    where
      go :
          (xs ys : List Candidate)
          → Raised xs ys
          → rule_of (max_candidate xs) ≡ some s
          → (t : Rule) × (rule_of (max_candidate ys) ≡ some t)
            × (effect_rank s.effect ≤ effect_rank t.effect)
      go [] ys r h = cc
      go (x ∷ xs) [] r h = absurd r
      go (x ∷ xs) (y ∷ ys) r h =
          let winner : (max_by x xs).rule ≡ s = cc in
          (
            (max_by y ys).rule,
            refl,
            rw winner at (max_by-Raised x y xs ys r (rw (← winner) at guarded)),
          )

  max_candidate-none : (xs : List Candidate) → rule_of (max_candidate xs) ≡ none → xs ≡ []
  max_candidate-none [] h = refl
  max_candidate-none (x ∷ xs) h = cc

  best-take :
      (n : ℕ) (rules : List Rule)
      → best command subcommand flags rules ≡ none
      → best command subcommand flags (take n rules) ≡ none
  unfolding best
  best-take n rules h =
      rw
        (candidates-take n rules (max_candidate-none (candidates command subcommand flags rules) h))

  floor_cases :
      (o s : Rule)
      → (t : Rule) × (with_floor (some o) (some s) ≡ some t)
        × (is_protected s.effect ≡ true → effect_rank s.effect ≤ effect_rank t.effect)
  unfolding with_floor
  floor_cases o s =
      elim (Bool-cases
        (is_protected s.effect && ltb (effect_rank o.effect) (effect_rank s.effect))) [
          | inl holds ↦ (s, rw holds, λ p. omega arith)
          | inr weak ↦ (o, rw weak, λ p. ground arith)
        ]

  -- Whatever the rules are: where the best of the shipped ones is protected, the lookup gives a
  -- rule, and one with no weaker effect.
  pub lookup_command-floor :
      (r : Registry) (s : Rule)
      → best command subcommand flags (take r.shipped_count r.rules) ≡ some s
      → is_protected s.effect ≡ true
      → (o : Rule) × (lookup_command r command subcommand flags ≡ some o)
        × (effect_rank s.effect ≤ effect_rank o.effect)
  unfolding lookup_command
  lookup_command-floor r s found guarded =
      elim (Option-cases (best command subcommand flags r.rules)) [
        | inl nothing ↦ cc (best-take r.shipped_count r.rules nothing)
        | inr (o, overall) ↦
            let (t, result, strong) = floor_cases o s in
            (t, rw (overall, found, result), strong guarded)
      ]
