-- ===== src/Registry/Best.antt =====
-- The winner of `max_by`, and the winners of two lists of rules that match alike.
use Prim.Native.Nat.{Ordering}
use doover.Base.{ℕ, ◌+◌, ◌*◌, ◌≤◌, ◌<◌, ◌≡◌, true, List, [], ◌∷◌, arith, All}
use doover.Registry.Rules.{Effect, effect_rank, is_protected}
use doover.Registry.Lookup.{Candidate, candidate_cmp, greater, max_by}

effect_rank-lt : (e : Effect) → effect_rank e < 5
effect_rank-lt e = ground arith

-- The first two keys of the comparison in one number: the score, then the effect.
abbrev pub weight : Candidate → ℕ
weight c = c.score * 5 + effect_rank c.rule.effect

greater-weight :
    (x y : Candidate) → (weight x ≤ weight (greater x y)) × (weight y ≤ weight (greater x y))
unfolding greater
greater-weight x y = ground (arith, effect_rank-lt x.rule.effect, effect_rank-lt y.rule.effect)

pub max_by-weight :
    (x : Candidate) (ys : List Candidate) → All (λ c. weight c ≤ weight (max_by x ys)) (x ∷ ys)
unfolding max_by
max_by-weight x [] = (omega arith, tt)
max_by-weight x (y ∷ ys) =
    let bounds = max_by-weight (greater x y) ys in
    let steps = greater-weight x y in (omega arith, (omega arith, bounds.1))

greater-All {κ} : (P : Candidate → Type κ) (x y : Candidate) → P x → P y → P (greater x y)
unfolding greater
greater-All P x y px py =
    elim (candidate_cmp x y)
      as (λ o. P (elim o [ Ordering.gt ↦ x | Ordering.lt ↦ y | Ordering.eq ↦ y ])) [
        | Ordering.lt ↦ py
        | Ordering.eq ↦ py
        | Ordering.gt ↦ px
      ]

-- What holds of every candidate holds of the winner.
pub max_by-All {κ} :
    (P : Candidate → Type κ) (x : Candidate) (ys : List Candidate)
    → All P (x ∷ ys)
    → P (max_by x ys)
unfolding max_by
max_by-All P x [] h = h.0
max_by-All P x (y ∷ ys) h = max_by-All P (greater x y) ys (greater-All P x y h.0 h.1.0, h.1.1)

-- One list of candidates against another: the same scores, and no protected effect weakened.
abbrev pub Raised : List Candidate → List Candidate → Type 0
Raised [] [] = Unit
Raised [] (y ∷ ys) = ⊥
Raised (x ∷ xs) [] = ⊥
Raised (x ∷ xs) (y ∷ ys) =
    (y.score ≡ x.score)
    × (is_protected x.rule.effect ≡ true → effect_rank x.rule.effect ≤ effect_rank y.rule.effect)
    × Raised xs ys

-- `c` has a counterpart that weighs at most `top`.
abbrev Covered : ℕ → Candidate → Type 0
Covered top c =
    (d : Candidate) × (d.score ≡ c.score)
    × (is_protected c.rule.effect ≡ true → effect_rank c.rule.effect ≤ effect_rank d.rule.effect)
    × (weight d ≤ top)

Raised-Covered :
    (top : ℕ) (xs ys : List Candidate)
    → Raised xs ys
    → All (λ d. weight d ≤ top) ys
    → All (Covered top) xs
Raised-Covered top [] [] r h = tt
Raised-Covered top [] (y ∷ ys) r h = tt
Raised-Covered top (x ∷ xs) [] r h = absurd r
Raised-Covered top (x ∷ xs) (y ∷ ys) r h = ((y, r.0, r.1, h.0), Raised-Covered top xs ys r.2 h.1)

Raised-scores :
    (n : ℕ) (xs ys : List Candidate)
    → Raised xs ys
    → All (λ c. c.score ≤ n) xs
    → All (λ d. d.score ≤ n) ys
Raised-scores n [] [] r h = tt
Raised-scores n [] (y ∷ ys) r h = absurd r
Raised-scores n (x ∷ xs) [] r h = tt
Raised-scores n (x ∷ xs) (y ∷ ys) r h = (omega arith, Raised-scores n xs ys r.2 h.1)

scores_of_weights :
    (m : Candidate) (xs : List Candidate)
    → All (λ c. weight c ≤ weight m) xs
    → All (λ c. c.score ≤ m.score) xs
scores_of_weights m [] h = tt
scores_of_weights m (x ∷ xs) h =
    (omega (arith, effect_rank-lt m.rule.effect), scores_of_weights m xs h.1)

-- Where the winner of the first list is protected, that of the second is no weaker.
pub max_by-Raised :
    (x y : Candidate) (xs ys : List Candidate)
    → Raised (x ∷ xs) (y ∷ ys)
    → is_protected (max_by x xs).rule.effect ≡ true
    → effect_rank (max_by x xs).rule.effect ≤ effect_rank (max_by y ys).rule.effect
max_by-Raised x y xs ys r guarded =
    let m = max_by x xs in
    let n = max_by y ys in
    let (d, alike, kept, below) =
      max_by-All (Covered (weight n)) x xs
        (Raised-Covered (weight n) (x ∷ xs) (y ∷ ys) r (max_by-weight y ys)) in
    let bounded =
      max_by-All (λ c. c.score ≤ m.score) y ys
        (Raised-scores m.score (x ∷ xs) (y ∷ ys) r
          (scores_of_weights m (x ∷ xs) (max_by-weight x xs))) in
    let stronger = kept guarded in omega arith
