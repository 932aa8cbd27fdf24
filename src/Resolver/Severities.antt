-- ===== src/Resolver/Severities.antt =====
-- What the severity of a resolution says.
use doover.Base.{
  ℕ, zero, suc, ◌≤◌, max, String, true, false, none, ◌≡◌, ◌≢◌, refl, ap, sym, ◌∙◌, inl, inr, ltb,
  arith, Bool-cases, Option-cases, if◌then◌else◌,
}
use doover.Registry.Rules.{Effect}
use doover.Registry.Lookup.{Registry}
use doover.Resolver.Outcome.{
  Out, fresh, Severity, safe, mutating, externalizing, unknown, destructive, irreversible, rank,
  worse, of_effect, mark_unknown, contribute, add, panic, next_walk, Resolution, joined,
}
use doover.Resolver.Scope.{Env}
use doover.Resolver.Walker.{collected, resolve}
use doover.Resolver.Primitives.{IsClosed}
use doover.Resolver.Contributions.{walk-P}

-- The severity is that of the worst rule, or `unknown` if that is worse and something is unknown.
IsBalanced : Out → Type 0
IsBalanced o =
    (rank o.severity ≡ max (rank o.rule_sev) (if o.has_unknown then 3 else 0))
    × (o.rule_sev ≢ unknown)
    × (o.rule_id ≡ none → o.rule_sev ≡ safe)

pub rank-worse : (a b : Severity) → rank (worse a b) ≡ max (rank a) (rank b)
rank-worse a b = elim (Bool-cases (ltb (rank b) (rank a))) [
  | inl more ↦ rw more (ground arith)
  | inr less ↦ rw less (ground arith)
]

of_effect-known : (e : Effect) → of_effect e ≢ unknown
of_effect-known Effect.safe = λ h. cc
of_effect-known Effect.mutating = λ h. cc
of_effect-known Effect.externalizing = λ h. cc
of_effect-known Effect.destructive = λ h. cc
of_effect-known Effect.irreversible = λ h. cc

mark_unknown-IsBalanced : (o : Out) → IsBalanced o → IsBalanced (mark_unknown o)
unfolding IsBalanced mark_unknown
mark_unknown-IsBalanced o (sum, known, first) =
    (ground (arith, rank-worse o.severity unknown, sum), known, first)

contribute-IsBalanced :
    (e : Effect) (id : String) (o : Out) → IsBalanced o → IsBalanced (contribute (of_effect e) id o)
unfolding IsBalanced contribute
contribute-IsBalanced e id o (sum, known, first) = elim (Option-cases o.rule_id) [
  | inl fresh_rule ↦
      let none_before = first fresh_rule in
      rw fresh_rule (
        ground (arith, rank-worse o.severity (of_effect e), sum, ap rank none_before),
        of_effect-known e,
        λ h. cc,
      )
  | inr (old, named) ↦ elim (Bool-cases (ltb (rank o.rule_sev) (rank (of_effect e)))) [
    | inl more ↦
        rw (named, more)
          (
            ground (arith, rank-worse o.severity (of_effect e), sum, more),
            of_effect-known e,
            λ h. cc,
          )
    | inr less ↦
        rw (named, less)
          (ground (arith, rank-worse o.severity (of_effect e), sum, less), known, λ h. cc)
  ]
]

IsBalanced-IsClosed : IsClosed IsBalanced
unfolding IsBalanced add panic next_walk
IsBalanced-IsClosed = record {
  unknown = mark_unknown-IsBalanced;
  added = λ p o n b. b;
  panicked = λ o b. b;
  walked = λ o b. b;
}

fresh-IsBalanced : IsBalanced fresh
unfolding IsBalanced
fresh-IsBalanced = (refl, λ h. cc, λ h. refl)

panic-IsBalanced : (o : Out) → IsBalanced o → IsBalanced (panic o)
unfolding IsBalanced panic
panic-IsBalanced o b = b

-- What the severity of a resolution may be, by its other fields.
pub IsGraded : Resolution → Type 0
IsGraded r =
    (r.has_unknown ≡ true → 3 ≤ rank r.severity)
    × (r.has_unknown ≡ false → r.severity ≢ unknown)
    × (r.has_unknown ≡ false → r.rule_id ≡ none → r.severity ≡ safe)

of_rank : ℕ → Severity
of_rank zero = safe
of_rank (suc zero) = mutating
of_rank (suc (suc zero)) = externalizing
of_rank (suc (suc (suc zero))) = unknown
of_rank (suc (suc (suc (suc zero)))) = destructive
of_rank n = irreversible

of_rank-rank : (a : Severity) → of_rank (rank a) ≡ a
unfolding of_rank
of_rank-rank safe = refl
of_rank-rank mutating = refl
of_rank-rank externalizing = refl
of_rank-rank unknown = refl
of_rank-rank destructive = refl
of_rank-rank irreversible = refl

rank-injective : (a b : Severity) → rank a ≡ rank b → a ≡ b
rank-injective a b h = sym (of_rank-rank a) ∙ ap of_rank h ∙ of_rank-rank b

joined-IsGraded : (o : Out) → IsBalanced o → IsGraded (joined o)
unfolding IsBalanced IsGraded joined
joined-IsGraded o (sum, known, first) = elim (Bool-cases o.panicked) [
  | inl gone ↦ rw gone (λ h. omega arith, λ h. cc, λ h. cc)
  | inr there ↦ rw there (
    λ h. ground (arith, sum, h),
    λ h e. known (rank-injective o.rule_sev unknown (ground (arith, sum, h, ap rank e))),
    λ h e. rank-injective o.severity safe (ground (arith, sum, h, ap rank (first e))),
  )
]

-- A resolution with something unknown is at least as severe as `unknown`. One without is not of that
-- severity, and without a rule it is safe.
pub resolve-IsGraded :
    (env : Env) (registry : Registry) (command : String) → IsGraded (resolve env registry command)
unfolding resolve
resolve-IsGraded env registry command = joined-IsGraded (collected env registry command) (
    walk-P env registry IsBalanced IsBalanced-IsClosed contribute-IsBalanced command
      fresh-IsBalanced (panic-IsBalanced fresh fresh-IsBalanced))
