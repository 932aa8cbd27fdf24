-- ===== src/Resolver/Choices.antt =====
-- Brace expansion against the choices that it stands for.
use doover.Base.{ℕ, List, [], ◌∷◌, ◌++◌, ◌≡◌}
use doover.Resolver.Braces.{Mask, no_group, group, first_group, Expansion, words}

-- A word of the expansion: the word itself where no group expands, else one for each option of the
-- first group, in their order.
mutual
  pub data Expands (limit : ℕ) : List Mask → List (List Mask) → Type 0 where
    literal : (w : List Mask) → first_group limit w ≡ no_group → Expands limit w (w ∷ [])
    choices :
        (w before : List Mask) (options : List (List Mask)) (behind : List Mask)
        (all_words : List (List Mask))
        → first_group limit w ≡ group before options behind
        → ExpandsEach limit before behind options all_words
        → Expands limit w all_words

  pub data ExpandsEach (limit : ℕ)
      : List Mask → List Mask → List (List Mask) → List (List Mask) → Type 0 where
    no_more : (before behind : List Mask) → ExpandsEach limit before behind [] []
    more :
        (before behind option : List Mask) (options : List (List Mask))
        (here later : List (List Mask))
        → Expands limit (before ++ option ++ behind) here
        → ExpandsEach limit before behind options later
        → ExpandsEach limit before behind (option ∷ options) (here ++ later)

-- What an expansion adds to the words before it.
Adds : ((List (List Mask)) → Type 0) → List (List Mask) → Expansion → Type 0
Adds P out e =
    (out' : List (List Mask))
    → e ≡ words out'
    → (added : List (List Mask)) × (out' ≡ out ++ added) × P added
