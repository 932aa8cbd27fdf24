-- ===== src/Resolver/Fuel.antt =====
-- The recursion of brace expansion ends.
use doover.Base.{
  ℕ, zero, suc, ◌≤◌, ◌<◌, List, [], ◌∷◌, ◌++◌, ◌≢◌, refl, inl, inr, All, length, ltb, arith,
  Bool-cases,
}
use doover.Resolver.Braces.{
  Mask, Group, no_group, too_wide, group_endless, group, first_group, Expansion, words, too_many,
  expansion_endless, no_fuel, and_then, each_option, push_word, expand_rec, count_open,
  expand_braces_masked,
}
use doover.Resolver.Shrinking.{IsShrinking, first_group-IsShrinking}

and_then-no_fuel :
    (e : Expansion) (f : List (List Mask) → Expansion)
    → e ≢ no_fuel
    → ((out : List (List Mask)) → f out ≢ no_fuel)
    → and_then e f ≢ no_fuel
and_then-no_fuel (words out) f h k = k out
and_then-no_fuel too_many f h k = λ e. cc
and_then-no_fuel expansion_endless f h k = λ e. cc
and_then-no_fuel no_fuel f h k = absurd (h refl)

each_option-no_fuel :
    (recur : List (List Mask) → List Mask → Expansion) (before behind : List Mask)
    (options : List (List Mask))
    → All
        (λ option. (out : List (List Mask)) → recur out (before ++ option ++ behind) ≢ no_fuel)
        options
    → (out : List (List Mask)) → each_option recur before behind options out ≢ no_fuel
unfolding each_option
each_option-no_fuel recur before behind [] a out = λ e. cc
each_option-no_fuel recur before behind (o ∷ os) (h, a) out =
    and_then-no_fuel (recur out (before ++ o ++ behind)) (each_option recur before behind os)
      (h out) (each_option-no_fuel recur before behind os a)

push_word-no_fuel :
    (limit : ℕ) (out : List (List Mask)) (w : List Mask) → push_word limit out w ≢ no_fuel
unfolding push_word
push_word-no_fuel limit out w e = elim (Bool-cases (ltb limit (length (out ++ (w ∷ []))))) [
  | inl over ↦ cc (rw over at e)
  | inr under ↦ cc (rw under at e)
]

fuelled :
    (fuel n limit : ℕ) (before behind : List Mask) (options : List (List Mask))
    → n ≤ fuel
    → ((out : List (List Mask)) (w : List Mask)
        → count_open w < fuel
        → expand_rec fuel limit out w ≢ no_fuel)
    → All (λ option. count_open (before ++ option ++ behind) < n) options
    → All
        (λ option.
          (out : List (List Mask))
          → expand_rec fuel limit out (before ++ option ++ behind) ≢ no_fuel)
        options
fuelled fuel n limit before behind [] le ih a = tt
fuelled fuel n limit before behind (o ∷ os) le ih (h, a) = (
  λ out. ih out (before ++ o ++ behind) (omega (arith, le, h)),
  fuelled fuel n limit before behind os le ih a,
)

grouped-no_fuel :
    (fuel limit : ℕ) (out : List (List Mask)) (w : List Mask) (g : Group)
    → count_open w ≤ fuel
    → ((out : List (List Mask)) (w : List Mask)
        → count_open w < fuel
        → expand_rec fuel limit out w ≢ no_fuel)
    → IsShrinking (count_open w) g
    → elim g as (λ _. Expansion) [
      | no_group ↦ push_word limit out w
      | too_wide ↦ too_many
      | group_endless ↦ expansion_endless
      | group before options behind ↦ each_option (expand_rec fuel limit) before behind options out
    ]
      ≢ no_fuel
unfolding IsShrinking
grouped-no_fuel fuel limit out w no_group le ih s = push_word-no_fuel limit out w
grouped-no_fuel fuel limit out w too_wide le ih s = λ e. cc
grouped-no_fuel fuel limit out w group_endless le ih s = λ e. cc
grouped-no_fuel fuel limit out w (group before options behind) le ih s =
    each_option-no_fuel (expand_rec fuel limit) before behind options
      (fuelled fuel (count_open w) limit before behind options le ih (s before options behind refl))
      out

expand_rec-no_fuel :
    (fuel limit : ℕ) (out : List (List Mask)) (w : List Mask)
    → count_open w < fuel
    → expand_rec fuel limit out w ≢ no_fuel
unfolding expand_rec
expand_rec-no_fuel zero limit out w lt = absurd (omega (arith, lt))
expand_rec-no_fuel (suc fuel) limit out w lt = elim (Bool-cases (ltb limit (length out))) [
  | inl over ↦ rw over (λ e. cc)
  | inr under ↦ rw under (
      grouped-no_fuel fuel limit out w (first_group limit w) (omega (arith, lt))
        (expand_rec-no_fuel fuel limit) (first_group-IsShrinking limit w))
]

-- The recursion of brace expansion ends on every word and for every limit: each call takes an unquoted
-- `{` away, so the fuel, one more than the word has of them, is enough. The loop over a single range,
-- which at the ends of `i128` does not end, is `expansion_endless`, and not the fuel's.
pub expand_braces_masked-no_fuel :
    (limit : ℕ) (w : List Mask) → expand_braces_masked limit w ≢ no_fuel
unfolding expand_braces_masked
expand_braces_masked-no_fuel limit w =
    expand_rec-no_fuel (suc (count_open w)) limit [] w (omega arith)
