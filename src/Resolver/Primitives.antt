-- ===== src/Resolver/Primitives.antt =====
-- What the primitives of scoping keep, its operations keep: marking, adding a normalized path,
-- counting a glob, giving up.
use doover.Base.{
  ℕ, zero, suc, ◌+◌, Bool, true, false, not, Option, none, some, List, [], ◌∷◌, ◌&&◌, ◌||◌, ◌++◌,
  inl, inr, ◌≡◌, subst, any, ltb, Bool-cases, Option-cases, if◌then◌else◌,
}
use mathlib.Core.Option.{some-injective}
use doover.Base.Chars.{Text, chars, is_empty, ends_with, trim_start}
use doover.Paths.{FilePath}
use doover.Snapshot.Same.{path_eq}
use doover.Resolver.Braces.{
  Mask, plain, Expansion, words, too_many, expansion_endless, no_fuel, expand_braces_masked,
}
use doover.Resolver.Lexical.{
  is_absolute, is_absolute_text, join_path, normalize_lexical, parent, path_of,
}
use doover.Resolver.Normal.{IsNormal, normalize_lexical-IsNormal}
use doover.Resolver.Outcome.{Out, mark_unknown, add, panic, next_walk}
use doover.Resolver.Words.{Word, word_text, masked_chars, has_expandable}
use doover.Resolver.Scope.{
  Env, link_target, insert_chain, insert_scoped, base_of, literal_of, base_pattern, pattern_of,
  collect, allowed, add_glob, add_based, add_single, add_variants, add_path, resolve_literal,
  max_glob_matches, max_brace_expansion, glob_budget, is_glob_char,
}

pub record IsClosed (P : Out → Type 0) : Type 0 where
  pub unknown : (o : Out) → P o → P (mark_unknown o)
  pub added : (p : FilePath) (o : Out) → IsNormal p → P o → P (add p o)
  pub panicked : (o : Out) → P o → P (panic o)
  pub walked : (o : Out) → P o → P (next_walk o)

result-IsNormal : (q p : FilePath) → some (normalize_lexical q) ≡ some p → IsNormal p
result-IsNormal q p h = subst IsNormal (some-injective _ _ h) (normalize_lexical-IsNormal q)

link_target-IsNormal : (cur target p : FilePath) → link_target cur target ≡ some p → IsNormal p
unfolding link_target
link_target-IsNormal cur target p h = elim (Bool-cases (is_absolute target)) [
  | inl absolute ↦ result-IsNormal target p (rw absolute at h)
  | inr relative ↦ elim (Option-cases (parent cur)) [
    | inl top ↦ cc (rw (relative, top) at h)
    | inr (dir, e) ↦ result-IsNormal (join_path dir target) p (rw (relative, e) at h)
  ]
]

literal_of-IsNormal :
    (env : Env) (base : Option FilePath) (rem : Text) → IsNormal (literal_of env base rem)
unfolding literal_of
literal_of-IsNormal env none rem = normalize_lexical-IsNormal (path_of rem)
literal_of-IsNormal env (some b) rem = normalize_lexical-IsNormal (join_path b (path_of rem))

choice-IsNormal :
    (o o' : Out) (homely absolute : Bool) (p q r : FilePath) (in_dir : FilePath → FilePath)
    → IsNormal q
    → IsNormal r
    → ((dir : FilePath) → IsNormal (in_dir dir))
    → (cur : Option FilePath)
    → (if◌then◌else◌ {A = Out × Option FilePath} homely
        (o, some q)
        (if absolute
          then (o, some r)
          else elim cur [ none ↦ (o', none) | some dir ↦ (o, some (in_dir dir)) ])).1
      ≡ some p
    → IsNormal p
choice-IsNormal o o' true absolute p q r in_dir a b c cur h =
    subst IsNormal (some-injective _ _ h) a
choice-IsNormal o o' false true p q r in_dir a b c cur h = subst IsNormal (some-injective _ _ h) b
choice-IsNormal o o' false false p q r in_dir a b c none h = cc
choice-IsNormal o o' false false p q r in_dir a b c (some dir) h =
    subst IsNormal (some-injective _ _ h) (c dir)

pub resolve_literal-IsNormal :
    (env : Env) (word : Word) (cur : Option FilePath) (o : Out) (p : FilePath)
    → (resolve_literal env word cur o).1 ≡ some p
    → IsNormal p
unfolding resolve_literal
resolve_literal-IsNormal env word cur o p h =
    choice-IsNormal o (mark_unknown o) word.tilde_home (is_absolute_text (word_text word)) p
      (literal_of env (some env.home) (trim_start b'/' (word_text word)))
      (literal_of env none (word_text word)) (λ dir. literal_of env (some dir) (word_text word))
      (literal_of-IsNormal env (some env.home) (trim_start b'/' (word_text word)))
      (literal_of-IsNormal env none (word_text word))
      (λ dir. literal_of-IsNormal env (some dir) (word_text word)) cur h

module _ (env : Env) (P : Out → Type 0) (closed : IsClosed P) where
  insert_chain-P :
      (hops : ℕ) (deref : Bool) (cur : FilePath) (o : Out)
      → IsNormal cur
      → P o
      → P (insert_chain env hops deref cur o)
  unfolding insert_chain
  insert_chain-P zero deref cur o n p = closed.added cur o n p
  insert_chain-P (suc hops) deref cur o n p =
      let here = closed.added cur o n p in
      elim (Bool-cases (deref && env.is_symlink cur)) [
        | inr stays ↦ rw stays here
        | inl link ↦ elim (Option-cases (env.read_link cur)) [
          | inl unreadable ↦ rw (link, unreadable) here
          | inr (target, e) ↦ elim (Option-cases (link_target cur target)) [
            | inl nowhere ↦ rw (link, e, nowhere) here
            | inr (next, found) ↦ elim (Bool-cases (any (add cur o).paths (λ q. path_eq q next))) [
              | inl seen ↦ rw (link, e, found, seen) here
              | inr unseen ↦
                  rw (link, e, found, unseen)
                    (insert_chain-P hops deref next (add cur o)
                      (link_target-IsNormal cur target next found) here)
            ]
          ]
        ]
      ]

  pub insert_scoped-P :
      (path : FilePath) (deref : Bool) (o : Out)
      → IsNormal path
      → P o
      → P (insert_scoped env path deref o)
  unfolding insert_scoped
  insert_scoped-P path deref o n p = insert_chain-P 8 deref path o n p

  collect-P :
      (writes : Bool) (ms : List Text) (timed_out : Bool) (n : ℕ) (o : Out)
      → P o
      → P (collect env writes ms timed_out n o).0
  unfolding collect
  collect-P writes [] true n o p = closed.unknown o p
  collect-P writes [] false n o p = p
  collect-P writes (m ∷ ms) timed_out n o p = elim (Bool-cases (ltb max_glob_matches (suc n))) [
    | inl full ↦ rw full (closed.unknown o p)
    | inr room ↦ rw room (
        collect-P writes ms timed_out (suc n) _ (
          insert_scoped-P (normalize_lexical (path_of m)) writes o
            (normalize_lexical-IsNormal (path_of m)) p))
  ]

  add_glob-P :
      (rem : List Mask) (base : Option FilePath) (writes : Bool) (o : Out)
      → P o
      → P (add_glob env rem base writes o).0
  unfolding add_glob
  add_glob-P rem base writes o p =
      let walk =
        env.glob (glob_budget env.parse_u64 env.glob_ms) o.walks
          (base_pattern env base ++ pattern_of env rem) in
      elim (Bool-cases (env.is_pattern (base_pattern env base ++ pattern_of env rem))) [
        | inl valid ↦ rw valid (
            collect-P writes (allowed env base (plain rem) walk.received) walk.timed_out 0
              (next_walk o) (closed.walked o p))
        | inr invalid ↦ rw invalid (
            insert_scoped-P (literal_of env base (plain rem)) writes o
              (literal_of-IsNormal env base (plain rem)) p)
      ]

  add_based-P :
      (rem : List Mask) (base : Option FilePath) (globs writes : Bool) (o : Out)
      → P o
      → P (add_based env rem base globs writes o).0
  unfolding add_based
  add_based-P rem base globs writes o p =
      elim (Bool-cases (globs && any rem (λ (m : Mask). m.1 && is_glob_char m.0))) [
        | inl pattern_word ↦ rw pattern_word (add_glob-P rem base writes o p)
        | inr literal_word ↦ rw literal_word (
            insert_scoped-P (literal_of env base (plain rem))
              (writes || ends_with (plain rem) (chars "/") || ends_with (plain rem) (chars "/.")) o
              (literal_of-IsNormal env base (plain rem)) p)
      ]

  pub add_single-P :
      (word : List Mask) (tilde globs : Bool) (cur : Option FilePath) (writes : Bool) (o : Out)
      → P o
      → P (add_single env word tilde globs cur writes o).0
  unfolding add_single
  add_single-P word tilde globs cur writes o p = elim (Bool-cases (is_empty word && not tilde)) [
    | inl nothing ↦ rw nothing p
    | inr something ↦ elim (Bool-cases (ends_with (plain word) (chars "/.."))) [
      | inl above ↦ rw (something, above) (closed.unknown o p)
      | inr below ↦ elim (Option-cases (base_of env word tilde cur)) [
        | inl lost ↦ rw (something, below, lost) (closed.unknown o p)
        | inr ((base, rem), e) ↦ rw (something, below, e) (add_based-P rem base globs writes o p)
      ]
    ]
  ]

  add_variants-P :
      (list : List (List Mask)) (tilde globs : Bool) (cur : Option FilePath) (writes : Bool)
      (o : Out) (n : ℕ)
      → P o
      → P (add_variants env list tilde globs cur writes (o, n)).0
  unfolding add_variants
  add_variants-P [] tilde globs cur writes o n p = p
  add_variants-P (word ∷ list) tilde globs cur writes o n p =
      let added = add_single env word tilde globs cur writes o in
      add_variants-P list tilde globs cur writes added.0 (n + added.1)
        (add_single-P word tilde globs cur writes o p)

  pub add_path-P :
      (word : Word) (globs : Bool) (cur : Option FilePath) (writes : Bool) (o : Out)
      → P o
      → P (add_path env word globs cur writes o).0
  unfolding add_path
  add_path-P word globs cur writes o p =
      elim (Bool-cases (is_empty word.segs && not word.tilde_home)) [
        | inl nothing ↦ rw nothing p
        | inr something ↦ rw something (
            expanded (
              if has_expandable b'{' word
              then expand_braces_masked max_brace_expansion (masked_chars word)
              else words (masked_chars word ∷ [])))
      ]
    where
      expanded :
          (variants : Expansion)
          → P
              (elim variants as (λ _. Out × ℕ) [
                | words list ↦ add_variants env list word.tilde_home globs cur writes (o, 0)
                | too_many ↦ (mark_unknown o, 0)
                | expansion_endless ↦ (panic o, 0)
                | no_fuel ↦ (panic o, 0)
              ]).0
      expanded (words list) = add_variants-P list word.tilde_home globs cur writes o 0 p
      expanded too_many = closed.unknown o p
      expanded expansion_endless = closed.panicked o p
      expanded no_fuel = closed.panicked o p

  pub resolve_literal-P :
      (word : Word) (cur : Option FilePath) (o : Out) → P o → P (resolve_literal env word cur o).0
  unfolding resolve_literal
  resolve_literal-P word cur o p = elim (Bool-cases word.tilde_home) [
    | inl homely ↦ rw homely p
    | inr plain_word ↦ elim (Bool-cases (is_absolute_text (word_text word))) [
      | inl absolute ↦ rw (plain_word, absolute) p
      | inr relative ↦ elim (Option-cases cur) [
        | inl lost ↦ rw (plain_word, relative, lost) (closed.unknown o p)
        | inr (dir, e) ↦ rw (plain_word, relative, e) p
      ]
    ]
  ]
