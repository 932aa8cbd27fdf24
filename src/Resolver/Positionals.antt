-- ===== src/Resolver/Positionals.antt =====
-- No positional of a command is lost but the value of a flag that takes one.
use doover.Base.{
  String, ◌≡◌, ◌⊎◌, refl, ap, inl, inr, true, false, none, some, Option, List, [], ◌∷◌, ◌++◌, any,
  str_eq, split_once, Bool-cases, Option-cases,
}
use doover.Base.Chars.{text}
use doover.Resolver.Words.{Word, word_text}
use doover.Resolver.Tokens.{
  Tok, flag, pos, Consume, no_value, drop_value, path_value, Split, add_pos, add_flag_path,
  consume_of, attached_value, split_tokens, word_of,
}

IsIn : Word → List Word → Type 0
IsIn w [] = ⊥
IsIn w (x ∷ xs) = (w ≡ x) ⊎ IsIn w xs

-- The word is among the positionals or among the paths that flags carry.
pub IsHeld : Word → Split → Type 0
IsHeld w s = IsIn w s.positionals ⊎ IsIn w s.flag_paths

-- The flag has no value attached, carries no path, and takes a value that is none.
pub IsDropping : List String → List String → Word → Type 0
IsDropping path_flags flag_args f =
    (split_once b'=' (text (word_text f)) ≡ none)
    × (any path_flags (λ pf. str_eq pf (text (word_text f))) ≡ false)
    × (any flag_args (λ fa. str_eq fa (text (word_text f))) ≡ true)

-- The last token is such a flag.
pub EndsDropping : List String → List String → List Tok → Type 0
EndsDropping path_flags flag_args front =
    (before : List Tok) × (f : Word) × (front ≡ before ++ (flag f ∷ []))
    × IsDropping path_flags flag_args f

add_pos-IsHeld : (w u : Word) (s : Split) → IsHeld w s → IsHeld w (add_pos u s)
unfolding IsHeld IsIn
add_pos-IsHeld w u s (inl h) = inl (inr h)
add_pos-IsHeld w u s (inr h) = inr h

add_flag_path-IsHeld : (w u : Word) (s : Split) → IsHeld w s → IsHeld w (add_flag_path u s)
unfolding IsHeld IsIn
add_flag_path-IsHeld w u s (inl h) = inl h
add_flag_path-IsHeld w u s (inr h) = inr (inr h)

with_value-IsHeld :
    (w : Word) (value : Option Word) (s : Split)
    → IsHeld w s
    → IsHeld w (elim value as (λ _. Split) [ none ↦ s | some u ↦ add_flag_path u s ])
with_value-IsHeld w none s h = h
with_value-IsHeld w (some u) s h = add_flag_path-IsHeld w u s h

module _ (path_flags flag_args : List String) where
  consume_of-IsDropping :
      (f : Word)
      → consume_of path_flags flag_args (text (word_text f)) ≡ drop_value
      → IsDropping path_flags flag_args f
  unfolding consume_of IsDropping
  consume_of-IsDropping f h = elim (Option-cases (split_once b'=' (text (word_text f)))) [
    | inr (name, e) ↦ cc (rw (e, consume_of) at h)
    | inl bare ↦ elim (Bool-cases (any path_flags (λ pf. str_eq pf (text (word_text f))))) [
      | inl carries ↦ cc (rw (bare, carries, consume_of) at h)
      | inr other ↦ elim (Bool-cases (any flag_args (λ fa. str_eq fa (text (word_text f))))) [
        | inl takes ↦ (bare, other, takes)
        | inr none_taken ↦ cc (rw (bare, other, none_taken, consume_of) at h)
      ]
    ]
  ]

  -- What becomes of the word, behind a token that says what the first one is.
  abbrev Fate : Word → Consume → List Tok → List Tok → Type 0
  Fate w c front back =
      IsHeld w (split_tokens path_flags flag_args c (front ++ pos w ∷ back))
      ⊎ (EndsDropping path_flags flag_args front ⊎ ((c ≡ drop_value) × (front ≡ [])))

  longer :
      (tok : Tok) (front : List Tok)
      → EndsDropping path_flags flag_args front
      → EndsDropping path_flags flag_args (tok ∷ front)
  unfolding EndsDropping
  longer tok front (before, f, e, d) = (tok ∷ before, f, ap (λ ts. tok ∷ ts) e, d)

  behind :
      (w : Word) (tok : Tok) (c : Consume) (front back : List Tok) (s : Split)
      → (IsHeld w (split_tokens path_flags flag_args no_value (front ++ pos w ∷ back)) → IsHeld w s)
      → Fate w no_value front back
      → IsHeld w s
        ⊎ (EndsDropping path_flags flag_args (tok ∷ front)
            ⊎ ((c ≡ drop_value) × (tok ∷ front ≡ [])))
  behind w tok c front back s lift (inl held) = inl (lift held)
  behind w tok c front back s lift (inr (inl ends)) = inr (inl (longer tok front ends))
  behind w tok c front back s lift (inr (inr (e, k))) = cc e

  behind_flag :
      (w f : Word) (front back : List Tok)
      → Fate w (consume_of path_flags flag_args (text (word_text f))) front back
      → Fate w no_value (flag f ∷ front) back
  unfolding split_tokens EndsDropping
  behind_flag w f front back (inl held) =
      inl (with_value-IsHeld w (attached_value path_flags flag_args f) _ held)
  behind_flag w f front back (inr (inl ends)) = inr (inl (longer (flag f) front ends))
  behind_flag w f front back (inr (inr (drops, alone))) =
      inr (inl ([], f, ap (λ ts. flag f ∷ ts) alone, consume_of-IsDropping f drops))

  fate : (w : Word) (c : Consume) (front back : List Tok) → Fate w c front back
  unfolding split_tokens IsHeld IsIn
  fate w no_value [] back = inl (inl (inl refl))
  fate w path_value [] back = inl (inr (inl refl))
  fate w drop_value [] back = inr (inr (refl, refl))
  fate w path_value (tok ∷ front) back =
      behind w tok path_value front back
        (add_flag_path (word_of tok)
          (split_tokens path_flags flag_args no_value (front ++ pos w ∷ back)))
        (add_flag_path-IsHeld w (word_of tok)
          (split_tokens path_flags flag_args no_value (front ++ pos w ∷ back)))
        (fate w no_value front back)
  fate w drop_value (tok ∷ front) back =
      behind w tok drop_value front back
        (split_tokens path_flags flag_args no_value (front ++ pos w ∷ back)) (λ h. h)
        (fate w no_value front back)
  fate w no_value (pos u ∷ front) back =
      behind w (pos u) no_value front back
        (add_pos u (split_tokens path_flags flag_args no_value (front ++ pos w ∷ back)))
        (add_pos-IsHeld w u (split_tokens path_flags flag_args no_value (front ++ pos w ∷ back)))
        (fate w no_value front back)
  fate w no_value (flag f ∷ front) back =
      behind_flag w f front back
        (fate w (consume_of path_flags flag_args (text (word_text f))) front back)

  -- Wherever a positional stands among the tokens, it is captured, as a positional or as the path of
  -- the flag before it, unless the token right before it is a flag without a value attached that
  -- carries no path and takes a value.
  pub split_tokens-positional :
      (w : Word) (front back : List Tok)
      → IsHeld w (split_tokens path_flags flag_args no_value (front ++ pos w ∷ back))
        ⊎ EndsDropping path_flags flag_args front
  split_tokens-positional w front back = elim (fate w no_value front back) [
    | inl held ↦ inl held
    | inr (inl ends) ↦ inr ends
    | inr (inr (e, k)) ↦ cc e
  ]
