-- ===== src/Resolver/Limit.antt =====
-- How many words brace expansion gives.
use doover.Base.{
  ℕ, zero, suc, ◌≤◌, false, List, [], ◌∷◌, ◌++◌, ◌≡◌, ◌≢◌, refl, subst, inl, inr, any, length, ltb,
  arith, Bool-cases,
}
use doover.Resolver.Braces.{
  Mask, is_active, Group, no_group, too_wide, group_endless, group, first_group, Expansion, words,
  too_many, expansion_endless, no_fuel, and_then, each_option, push_word, expand_rec, count_open,
  expand_braces_masked,
}

IsWithin : ℕ → Expansion → Type 0
IsWithin limit e = (out : List (List Mask)) → e ≡ words out → length out ≤ limit

words-injective : (a b : List (List Mask)) → words a ≡ words b → a ≡ b
words-injective a b h = cc

words-IsWithin :
    (limit : ℕ) (out : List (List Mask)) → length out ≤ limit → IsWithin limit (words out)
unfolding IsWithin
words-IsWithin limit out le out' h =
    subst (λ (o : List (List Mask)). length o ≤ limit) (words-injective out out' h) le

push_word-IsWithin :
    (limit : ℕ) (out : List (List Mask)) (w : List Mask) → IsWithin limit (push_word limit out w)
unfolding push_word IsWithin
push_word-IsWithin limit out w all h = elim (Bool-cases (ltb limit (length (out ++ (w ∷ []))))) [
  | inl over ↦ cc (rw over at h)
  | inr under ↦ words-IsWithin limit (out ++ (w ∷ [])) (ground (arith, under)) all (rw under at h)
]

and_then-IsWithin :
    (limit : ℕ) (e : Expansion) (f : List (List Mask) → Expansion)
    → IsWithin limit e
    → ((out : List (List Mask)) → length out ≤ limit → IsWithin limit (f out))
    → IsWithin limit (and_then e f)
unfolding IsWithin
and_then-IsWithin limit (words o) f h k out e = k o (h o refl) out e
and_then-IsWithin limit too_many f h k out e = cc
and_then-IsWithin limit expansion_endless f h k out e = cc
and_then-IsWithin limit no_fuel f h k out e = cc

each_option-IsWithin :
    (limit : ℕ) (recur : List (List Mask) → List Mask → Expansion) (before behind : List Mask)
    (options : List (List Mask))
    → ((out : List (List Mask)) (w : List Mask) → IsWithin limit (recur out w))
    → (out : List (List Mask)) → length out ≤ limit
    → IsWithin limit (each_option recur before behind options out)
unfolding each_option
each_option-IsWithin limit recur before behind [] h out le = words-IsWithin limit out le
each_option-IsWithin limit recur before behind (o ∷ os) h out le =
    and_then-IsWithin limit (recur out (before ++ o ++ behind)) (each_option recur before behind os)
      (h out (before ++ o ++ behind)) (each_option-IsWithin limit recur before behind os h)

no_words :
    (limit : ℕ) (e : Expansion) → ((out : List (List Mask)) → e ≢ words out) → IsWithin limit e
unfolding IsWithin
no_words limit e never out h = absurd (never out h)

grouped-IsWithin :
    (fuel limit : ℕ) (out : List (List Mask)) (w : List Mask) (g : Group)
    → length out ≤ limit
    → ((out : List (List Mask)) (w : List Mask) → IsWithin limit (expand_rec fuel limit out w))
    → IsWithin limit (elim g [
      | no_group ↦ push_word limit out w
      | too_wide ↦ too_many
      | group_endless ↦ expansion_endless
      | group before options behind ↦ each_option (expand_rec fuel limit) before behind options out
    ])
grouped-IsWithin fuel limit out w no_group le ih = push_word-IsWithin limit out w
grouped-IsWithin fuel limit out w too_wide le ih = no_words limit too_many (λ o e. cc)
grouped-IsWithin fuel limit out w group_endless le ih = no_words limit expansion_endless (λ o e. cc)
grouped-IsWithin fuel limit out w (group before options behind) le ih =
    each_option-IsWithin limit (expand_rec fuel limit) before behind options ih out le

expand_rec-IsWithin :
    (fuel limit : ℕ) (out : List (List Mask)) (w : List Mask)
    → IsWithin limit (expand_rec fuel limit out w)
unfolding expand_rec
expand_rec-IsWithin zero limit out w = no_words limit no_fuel (λ o e. cc)
expand_rec-IsWithin (suc fuel) limit out w = elim (Bool-cases (ltb limit (length out))) [
  | inl over ↦ rw over (no_words limit too_many (λ o e. cc))
  | inr under ↦ rw under (
      grouped-IsWithin fuel limit out w (first_group limit w) (ground (arith, under))
        (expand_rec-IsWithin fuel limit))
]

-- A brace expansion that gives words gives no more than the limit.
pub expand_braces_masked-length :
    (limit : ℕ) (w : List Mask) (out : List (List Mask))
    → expand_braces_masked limit w ≡ words out
    → length out ≤ limit
unfolding expand_braces_masked IsWithin
expand_braces_masked-length limit w out h =
    expand_rec-IsWithin (suc (count_open w)) limit [] w out h

first_group-no_group :
    (limit : ℕ) (w : List Mask) → any w (is_active b'{') ≡ false → first_group limit w ≡ no_group
unfolding first_group
first_group-no_group limit [] h = refl
first_group-no_group limit (m ∷ w) h = elim (Bool-cases (is_active b'{' m)) [
  | inl opens ↦ cc (rw opens at h)
  | inr other ↦ rw (other, first_group-no_group limit w (rw other at h)) refl
]

-- A word without an unquoted `{` stands for itself, whatever its quoted braces are.
pub expand_braces_masked-literal :
    (limit : ℕ) (w : List Mask)
    → any w (is_active b'{') ≡ false
    → 1 ≤ limit
    → expand_braces_masked limit w ≡ words (w ∷ [])
unfolding expand_braces_masked push_word
expand_braces_masked-literal limit w h le = rw (first_group-no_group limit w h) (ground (arith, le))
