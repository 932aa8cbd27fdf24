-- ===== src/Resolver/Expansion.antt =====
-- The braces that are left when a group is taken away.
use doover.Base.{
  ℕ, suc, ◌+◌, ◌-◌, ◌≤◌, some, List, [], ◌∷◌, ◌++◌, ◌&&◌, ◌≡◌, subst, inl, inr, All, leb, ◌==◌,
  arith, Bool-cases, Option-cases, if◌then◌else◌,
}
use mathlib.Core.Option.{some-injective}
use doover.Resolver.Braces.{Mask, is_active, to_first, scan_group, count_open}

pub count_open-append : (xs ys : List Mask) → count_open (xs ++ ys) ≡ count_open xs + count_open ys
unfolding count_open
count_open-append [] ys = omega arith
count_open-append (x ∷ xs) ys = omega (arith, count_open-append xs ys)

-- The parts of a group, each with what is behind the group, hold no more braces than there were.
unfoldable pub AreBelow : ℕ → List (List Mask) → List Mask → Type 0
AreBelow n parts behind =
    (count_open behind ≤ n) × All (λ part. count_open part + count_open behind ≤ n) parts

pub All-below :
    (n m : ℕ) (parts : List (List Mask)) (behind : List Mask)
    → n ≤ m
    → All (λ part. count_open part + count_open behind ≤ n) parts
    → All (λ part. count_open part + count_open behind ≤ m) parts
All-below n m [] behind le a = tt
All-below n m (p ∷ ps) behind le (h, a) = (omega (arith, le, h), All-below n m ps behind le a)

carry :
    (n : ℕ) (q r : List (List Mask) × List Mask)
    → some q ≡ some r
    → AreBelow n q.0 q.1
    → AreBelow n r.0 r.1
carry n q r h b =
    subst (λ (x : List (List Mask) × List Mask). AreBelow n x.0 x.1) (some-injective q r h) b

to_first-AreBelow :
    (m : Mask) (rest : List Mask) (parts : List (List Mask)) (behind : List Mask)
    → AreBelow (count_open rest) parts behind
    → AreBelow (count_open (m ∷ rest)) (to_first m parts) behind
unfolding AreBelow to_first count_open
to_first-AreBelow m rest [] behind (below, a) = (omega (arith, below), (omega (arith, below), tt))
to_first-AreBelow m rest (first ∷ more) behind (below, (h, a)) = (
  omega (arith, below),
  (
    omega (arith, h),
    All-below (count_open rest) (count_open (m ∷ rest)) more behind (omega arith) a,
  ),
)

pub scan_group-AreBelow :
    (depth : ℕ) (rest : List Mask) (parts : List (List Mask)) (behind : List Mask)
    → scan_group depth rest ≡ some (parts, behind)
    → AreBelow (count_open rest) parts behind
unfolding scan_group count_open AreBelow
scan_group-AreBelow depth [] parts behind h = cc
scan_group-AreBelow depth (m ∷ rest) parts behind h =
    elim (Bool-cases (is_active b'}' m && leb depth 1)) [
      | inl closes ↦
          carry (count_open (m ∷ rest)) ([] ∷ [], rest) (parts, behind) (rw closes at h)
            (omega arith, (omega arith, tt))
      | inr inside ↦
          elim (Option-cases (
            scan_group
              (if is_active b'{' m
                then suc depth
                else if is_active b'}' m
                then depth - 1
                else depth)
              rest)) [
                | inl nothing ↦ cc (rw (inside, nothing) at h)
                | inr ((parts', behind'), e) ↦
                    let (below, a) =
                      scan_group-AreBelow
                        (if is_active b'{' m
                          then suc depth
                          else if is_active b'}' m
                          then depth - 1
                          else depth)
                        rest parts' behind' e in
                    elim (Bool-cases (is_active b',' m && depth == 1)) [
                      | inl comma ↦
                          carry (count_open (m ∷ rest)) ([] ∷ parts', behind') (parts, behind)
                            (rw (inside, e, comma) at h)
                            (
                              omega (arith, below),
                              (
                                omega (arith, below),
                                All-below (count_open rest) (count_open (m ∷ rest)) parts' behind'
                                    (omega arith) a,
                              ),
                            )
                      | inr other ↦
                          carry (count_open (m ∷ rest)) (to_first m parts', behind') (parts, behind)
                            (rw (inside, e, other) at h)
                            (to_first-AreBelow m rest parts' behind' (below, a))
                    ]
              ]
    ]
