-- ===== src/Resolver/Counted.antt =====
-- A path that `add_path` counts is a path in the set that it adds to.
use doover.Base.{
  ℕ, zero, suc, ◌+◌, Bool, true, false, not, Option, List, [], ◌∷◌, ◌&&◌, ◌||◌, ◌≡◌, ◌⊎◌, refl, inl,
  inr, ltb, ◌==◌, arith, Bool-cases, Option-cases, if◌then◌else◌, ◌++◌, any,
}
use doover.Base.Chars.{Text, chars, is_empty, ends_with}
use doover.Paths.{FilePath}
use doover.Snapshot.Same.{path_eq, path_leb}
use doover.Resolver.Braces.{
  Mask, plain, Expansion, words, too_many, expansion_endless, no_fuel, expand_braces_masked,
}
use doover.Resolver.Lexical.{normalize_lexical, path_of}
use doover.Resolver.Outcome.{Out, mark_unknown, add, insert_path, panic, next_walk}
use doover.Resolver.Words.{Word, masked_chars, has_expandable}
use doover.Resolver.Scope.{
  Env, link_target, insert_chain, insert_scoped, base_of, literal_of, base_pattern, pattern_of,
  collect, allowed, add_glob, add_based, add_single, add_variants, add_path, max_glob_matches,
  max_brace_expansion, glob_budget, is_glob_char,
}
use doover.Resolver.Primitives.{IsClosed, add_single-P}

-- Something is unknown, or there is a path; or the thread is gone.
unfoldable pub is_accounted : Out → Bool
is_accounted o = o.has_unknown || (not (is_empty o.paths) || o.panicked)

unfoldable pub IsAccounted : Out → Type 0
IsAccounted o = is_accounted o ≡ true

-- A path counted is a path there.
unfoldable pub IsCounted : Out × ℕ → Type 0
IsCounted (o, n) = (n ≡ 0) ⊎ IsAccounted o

pub mark_unknown-IsAccounted : (o : Out) → IsAccounted (mark_unknown o)
unfolding IsAccounted mark_unknown is_accounted
mark_unknown-IsAccounted o = refl

insert_path-full : (p : FilePath) (qs : List FilePath) → is_empty (insert_path p qs) ≡ false
unfolding insert_path
insert_path-full p [] = refl
insert_path-full p (q ∷ qs) = elim (Bool-cases (path_eq p q)) [
  | inl same ↦ rw same refl
  | inr other ↦ elim (Bool-cases (path_leb p q)) [
    | inl before ↦ rw (other, before) refl
    | inr behind ↦ rw (other, behind) refl
  ]
]

pub add-IsAccounted : (p : FilePath) (o : Out) → IsAccounted (add p o)
unfolding IsAccounted add is_accounted
add-IsAccounted p o = elim (Bool-cases o.has_unknown) [
  | inl marked ↦ rw marked refl
  | inr clean ↦ rw (clean, insert_path-full p o.paths) refl
]

pub panic-IsAccounted : (o : Out) → IsAccounted (panic o)
unfolding IsAccounted panic is_accounted
panic-IsAccounted o = elim (Bool-cases o.has_unknown) [
  | inl marked ↦ rw marked refl
  | inr clean ↦ elim (Bool-cases (is_empty o.paths)) [
    | inl bare ↦ rw (clean, bare) refl
    | inr full ↦ rw (clean, full) refl
  ]
]

pub IsAccounted-IsClosed : IsClosed IsAccounted
unfolding IsAccounted panic next_walk is_accounted
IsAccounted-IsClosed = record {
  unknown = λ o a. mark_unknown-IsAccounted o;
  added = λ p o n a. add-IsAccounted p o;
  panicked = λ o a. panic-IsAccounted o;
  walked = λ o a. a;
}

pub both-IsCounted :
    (o o' : Out) (n k : ℕ)
    → IsCounted (o, n)
    → (IsAccounted o → IsAccounted o')
    → IsCounted (o', k)
    → IsCounted (o', n + k)
unfolding IsCounted
both-IsCounted o o' n k (inr a) keeps counted = inr (keeps a)
both-IsCounted o o' n k (inl e) keeps (inr a) = inr a
both-IsCounted o o' n k (inl e) keeps (inl e') = inl (omega (arith, e, e'))

pub counted-IsAccounted : (o : Out) (n : ℕ) → IsCounted (o, n) → (n == 0) ≡ false → IsAccounted o
unfolding IsCounted
counted-IsAccounted o n (inr a) h = a
counted-IsAccounted o n (inl e) h = ground (arith, e, h)

module _ (env : Env) where
  insert_chain-IsAccounted :
      (hops : ℕ) (deref : Bool) (cur : FilePath) (o : Out)
      → IsAccounted (insert_chain env hops deref cur o)
  unfolding insert_chain
  insert_chain-IsAccounted zero deref cur o = add-IsAccounted cur o
  insert_chain-IsAccounted (suc hops) deref cur o =
      let here = add-IsAccounted cur o in
      elim (Bool-cases (deref && env.is_symlink cur)) [
        | inr stays ↦ rw stays here
        | inl link ↦ elim (Option-cases (env.read_link cur)) [
          | inl unreadable ↦ rw (link, unreadable) here
          | inr (target, e) ↦ elim (Option-cases (link_target cur target)) [
            | inl nowhere ↦ rw (link, e, nowhere) here
            | inr (next, found) ↦ elim (Bool-cases (any (add cur o).paths (λ q. path_eq q next))) [
              | inl seen ↦ rw (link, e, found, seen) here
              | inr unseen ↦
                  rw (link, e, found, unseen) (insert_chain-IsAccounted hops deref next (add cur o))
            ]
          ]
        ]
      ]

  pub insert_scoped-IsAccounted :
      (path : FilePath) (deref : Bool) (o : Out) → IsAccounted (insert_scoped env path deref o)
  unfolding insert_scoped
  insert_scoped-IsAccounted path deref o = insert_chain-IsAccounted 8 deref path o

  collect-IsCounted :
      (writes : Bool) (ms : List Text) (timed_out : Bool) (n : ℕ) (o : Out)
      → IsCounted (o, n)
      → IsCounted (collect env writes ms timed_out n o)
  unfolding collect IsCounted
  collect-IsCounted writes [] true n o c = inr (mark_unknown-IsAccounted o)
  collect-IsCounted writes [] false n o c = c
  collect-IsCounted writes (m ∷ ms) timed_out n o c =
      let path = normalize_lexical (path_of m) in
      elim (Bool-cases (ltb max_glob_matches (suc n))) [
        | inl full ↦ rw full (inr (mark_unknown-IsAccounted o))
        | inr room ↦ rw room (
            collect-IsCounted writes ms timed_out (suc n) (insert_scoped env path writes o)
              (inr (insert_scoped-IsAccounted path writes o)))
      ]

  add_glob-IsCounted :
      (rem : List Mask) (base : Option FilePath) (writes : Bool) (o : Out)
      → IsCounted (add_glob env rem base writes o)
  unfolding add_glob IsCounted
  add_glob-IsCounted rem base writes o =
      let walk =
        env.glob (glob_budget env.parse_u64 env.glob_ms) o.walks
          (base_pattern env base ++ pattern_of env rem) in
      elim (Bool-cases (env.is_pattern (base_pattern env base ++ pattern_of env rem))) [
        | inl valid ↦ rw valid (
            collect-IsCounted writes (allowed env base (plain rem) walk.received) walk.timed_out 0
              (next_walk o) (inl refl))
        | inr invalid ↦
            rw invalid (inr (insert_scoped-IsAccounted (literal_of env base (plain rem)) writes o))
      ]

  add_based-IsCounted :
      (rem : List Mask) (base : Option FilePath) (globs writes : Bool) (o : Out)
      → IsCounted (add_based env rem base globs writes o)
  unfolding add_based IsCounted
  add_based-IsCounted rem base globs writes o =
      elim (Bool-cases (globs && any rem (λ (m : Mask). m.1 && is_glob_char m.0))) [
        | inl pattern_word ↦ rw pattern_word (add_glob-IsCounted rem base writes o)
        | inr literal_word ↦ rw literal_word (
            inr (
              insert_scoped-IsAccounted (literal_of env base (plain rem))
                (writes || ends_with (plain rem) (chars "/") || ends_with (plain rem) (chars "/."))
                o))
      ]

  add_single-IsCounted :
      (word : List Mask) (tilde globs : Bool) (cur : Option FilePath) (writes : Bool) (o : Out)
      → IsCounted (add_single env word tilde globs cur writes o)
  unfolding add_single IsCounted
  add_single-IsCounted word tilde globs cur writes o =
      elim (Bool-cases (is_empty word && not tilde)) [
        | inl nothing ↦ rw nothing (inl refl)
        | inr something ↦ elim (Bool-cases (ends_with (plain word) (chars "/.."))) [
          | inl above ↦ rw (something, above) (inl refl)
          | inr below ↦ elim (Option-cases (base_of env word tilde cur)) [
            | inl lost ↦ rw (something, below, lost) (inl refl)
            | inr ((base, rem), e) ↦
                rw (something, below, e) (add_based-IsCounted rem base globs writes o)
          ]
        ]
      ]

  add_variants-IsCounted :
      (list : List (List Mask)) (tilde globs : Bool) (cur : Option FilePath) (writes : Bool)
      (o : Out) (n : ℕ)
      → IsCounted (o, n)
      → IsCounted (add_variants env list tilde globs cur writes (o, n))
  unfolding add_variants
  add_variants-IsCounted [] tilde globs cur writes o n c = c
  add_variants-IsCounted (word ∷ list) tilde globs cur writes o n c =
      let added = add_single env word tilde globs cur writes o in
      add_variants-IsCounted list tilde globs cur writes added.0 (n + added.1) (
        both-IsCounted o added.0 n added.1 c
          (add_single-P env IsAccounted IsAccounted-IsClosed word tilde globs cur writes o)
          (add_single-IsCounted word tilde globs cur writes o))

  pub add_path-IsCounted :
      (word : Word) (globs : Bool) (cur : Option FilePath) (writes : Bool) (o : Out)
      → IsCounted (add_path env word globs cur writes o)
  unfolding add_path IsCounted
  add_path-IsCounted word globs cur writes o =
      elim (Bool-cases (is_empty word.segs && not word.tilde_home)) [
        | inl nothing ↦ rw nothing (inl refl)
        | inr something ↦ rw something (
            expanded (
              if has_expandable b'{' word
              then expand_braces_masked max_brace_expansion (masked_chars word)
              else words (masked_chars word ∷ [])))
      ]
    where
      expanded :
          (variants : Expansion)
          → IsCounted (elim variants as (λ _. Out × ℕ) [
            | words list ↦ add_variants env list word.tilde_home globs cur writes (o, 0)
            | too_many ↦ (mark_unknown o, 0)
            | expansion_endless ↦ (panic o, 0)
            | no_fuel ↦ (panic o, 0)
          ])
      expanded (words list) =
          add_variants-IsCounted list word.tilde_home globs cur writes o 0 (inl refl)
      expanded too_many = inl refl
      expanded expansion_endless = inl refl
      expanded no_fuel = inl refl
