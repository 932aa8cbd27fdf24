-- ===== src/Resolver/Scope.antt =====
-- crates/doover-core/src/resolver.rs: what `Walker` does with a path word: `add_path`, `add_single`,
-- `insert_scoped`, `resolve_literal`, over the file system and the crates that it calls.
use Prim.Native.Char.{Char}
use doover.Base.{
  ℕ, zero, suc, ◌+◌, Bool, true, false, not, Option, none, some, List, [], ◌∷◌, ◌++◌, ◌&&◌, ◌||◌,
  String, any, filter, ltb, ◌==◌, if◌then◌else◌,
}
use doover.Base.Chars.{
  Text, chars, is_char, is_empty, begins_with, ends_with, split_at, trim_start, trim_end,
}
use doover.Paths.{FilePath}
use doover.Snapshot.Same.{path_eq}
use doover.Resolver.Braces.{
  Mask, plain, expand_braces_masked, words, too_many, expansion_endless, no_fuel,
}
use doover.Resolver.Lexical.{
  path_of, path_text, is_absolute, is_absolute_text, join_path, normalize_lexical, parent,
  glob_match_allowed,
}
use doover.Resolver.Outcome.{Out, mark_unknown, add, panic, next_walk}
use doover.Resolver.Syntax.{Parsed, Pieces}
use doover.Resolver.Words.{Word, word_text, masked_chars, has_expandable, drop, text_length}

-- The matches that the walker thread sends in time, and whether the budget ran out behind them.
pub record Walk : Type 0 where
  pub received : List Text
  pub timed_out : Bool

-- The shell parser, the `glob` crate, the file system and the context, as `resolve` finds them. The
-- walk of a pattern has a time budget, and may depend on when it is asked for; `parse_u64` trims its text
-- and parses it, and `glob_ms` is the environment variable.
pub record Env : Type 0 where
  pub parse : String → Parsed
  pub parse_word : Text → Option Pieces
  pub is_symlink : FilePath → Bool
  pub read_link : FilePath → Option FilePath
  pub exists : FilePath → Bool
  pub escape : Text → Text
  pub is_pattern : Text → Bool
  pub glob : Option ℕ → ℕ → Text → Walk
  pub parse_u64 : String → Option ℕ
  pub glob_ms : Option String
  pub cwd : FilePath
  pub home : FilePath

abbrev pub max_brace_expansion : ℕ
max_brace_expansion = 1024

abbrev pub max_glob_matches : ℕ
max_glob_matches = 10000

-- In milliseconds; none is without a limit.
unfoldable pub glob_budget : (String → Option ℕ) → Option String → Option ℕ
glob_budget parse_u64 none = some 2000
glob_budget parse_u64 (some v) = elim (parse_u64 v) [
  | none ↦ some 2000
  | some ms ↦ if ms == 0 then none else some ms
]

-- `GLOB_CHARS.contains`
abbrev pub is_glob_char : Char → Bool
is_glob_char c = is_char b'*' c || is_char b'?' c || is_char b'[' c

-- The slashes at the front of a word, quoted or not, are left out.
unfoldable pub without_slashes : List Mask → List Mask
without_slashes [] = []
without_slashes (m ∷ rem) =
    let later = without_slashes rem in if is_char b'/' m.0 then later else m ∷ rem

-- `trim_matches('/')`
abbrev pub trim_slashes : Text → Text
trim_slashes t = trim_end b'/' (trim_start b'/' t)

-- `m_str.strip_prefix(p).unwrap_or(&m_str)`
abbrev pub without_prefix : Text → Text → Text
without_prefix p m = if begins_with m p then drop (text_length p) m else m

-- Where the target of a link at the path lies.
unfoldable pub link_target : FilePath → FilePath → Option FilePath
unfolding normalize_lexical join_path parent
link_target cur target =
    if is_absolute target then some (normalize_lexical target) else elim (parent cur) [
      | none ↦ none
      | some dir ↦ some (normalize_lexical (join_path dir target))
    ]

abbrev pub or_else {ℓ κ} : {A : Type ℓ} {B : Type κ} → Option A → B → (A → B) → B
or_else none b f = b
or_else (some a) b f = f a

module _ (env : Env) where
  -- The loop of `insert_scoped`, with the hops that are left.
  unfoldable pub insert_chain : ℕ → Bool → FilePath → Out → Out
  unfolding add link_target
  insert_chain zero deref cur o = add cur o
  insert_chain (suc hops) deref cur o =
      let added = add cur o in
      let next = λ (p : FilePath). insert_chain hops deref p added in
      if deref && env.is_symlink cur
      then or_else (env.read_link cur) added (λ target.
        or_else (link_target cur target) added
          (λ resolved. if any added.paths (λ p. path_eq p resolved) then added else next resolved))
      else added

  unfoldable pub insert_scoped : FilePath → Bool → Out → Out
  unfolding insert_chain
  insert_scoped path deref o = insert_chain 8 deref path o

  -- The base directory of a word and the rest of it; none without a working directory.
  unfoldable pub base_of : List Mask → Bool → Option FilePath → Option (Option FilePath × List Mask)
  unfolding without_slashes
  base_of word true cur = some (some env.home, without_slashes word)
  base_of word false cur =
      if is_absolute_text (plain word)
      then some (none, word)
      else elim cur [ none ↦ none | some dir ↦ some (some dir, word) ]

  unfoldable pub literal_of : Option FilePath → Text → FilePath
  unfolding normalize_lexical join_path path_of
  literal_of none rem = normalize_lexical (path_of rem)
  literal_of (some b) rem = normalize_lexical (join_path b (path_of rem))

  -- The pattern of the rest: quoted metacharacters are escaped.
  unfoldable pub pattern_of : List Mask → Text
  pattern_of [] = []
  pattern_of ((c, exp) ∷ rem) =
      (if not exp && is_glob_char c then env.escape (c ∷ []) else c ∷ []) ++ pattern_of rem

  abbrev pub base_pattern : Option FilePath → Text
  base_pattern none = []
  base_pattern (some b) = env.escape (path_text b) ++ chars "/"

  -- The loop over the matches received.
  unfoldable pub collect : Bool → List Text → Bool → ℕ → Out → Out × ℕ
  unfolding mark_unknown insert_scoped normalize_lexical path_of
  collect write_target [] timed_out n o = (if timed_out then mark_unknown o else o, n)
  collect write_target (m ∷ ms) timed_out n o =
      let rest =
        collect write_target ms timed_out (suc n)
          (insert_scoped (normalize_lexical (path_of m)) write_target o) in
      if ltb max_glob_matches (suc n) then (mark_unknown o, n) else rest

  -- The matches that the walker thread lets through.
  unfoldable pub allowed : Option FilePath → Text → List Text → List Text
  unfolding glob_match_allowed begins_with drop text_length trim_start trim_end split_at path_text
  allowed base rem = filter (λ m.
      glob_match_allowed
        (elim base [
          | none ↦ trim_start b'/' m
          | some b ↦ without_prefix (path_text b ++ chars "/") m
        ])
        (split_at b'/' (trim_slashes rem)))

  -- The expansion of a glob pattern.
  unfoldable pub add_glob : List Mask → Option FilePath → Bool → Out → Out × ℕ
  unfolding collect allowed pattern_of path_text insert_scoped literal_of next_walk glob_budget
  add_glob rem base write_target o =
      let pattern = base_pattern base ++ pattern_of rem in
      if env.is_pattern pattern
      then (let walk = env.glob (glob_budget env.parse_u64 env.glob_ms) o.walks pattern in
          collect write_target (allowed base (plain rem) walk.received) walk.timed_out 0
            (next_walk o))
      else (insert_scoped (literal_of base (plain rem)) write_target o, 1)

  -- A word with its base: its literal, or its matches.
  unfoldable pub add_based : List Mask → Option FilePath → Bool → Bool → Out → Out × ℕ
  unfolding add_glob insert_scoped literal_of ends_with
  add_based rem base globs write_target o =
      if globs && any rem (λ (m : Mask). m.1 && is_glob_char m.0)
      then add_glob rem base write_target o
      else (
        insert_scoped (literal_of base (plain rem))
            (write_target
              || ends_with (plain rem) (chars "/")
              || ends_with (plain rem) (chars "/."))
            o,
        1,
      )

  unfoldable pub add_single : List Mask → Bool → Bool → Option FilePath → Bool → Out → Out × ℕ
  unfolding add_based base_of mark_unknown ends_with
  add_single word tilde_home globs cur write_target o =
      if is_empty word && not tilde_home
      then (o, 0)
      else if ends_with (plain word) (chars "/..")
      then (mark_unknown o, 0)
      else elim (base_of word tilde_home cur) [
        | none ↦ (mark_unknown o, 0)
        | some (base, rem) ↦ add_based rem base globs write_target o
      ]

  -- The loop over the brace expansions, the number of paths added so far given.
  unfoldable pub add_variants :
      List (List Mask) → Bool → Bool → Option FilePath → Bool → Out × ℕ → Out × ℕ
  unfolding add_single
  add_variants [] tilde_home globs cur write_target (o, total) = (o, total)
  add_variants (word ∷ rest) tilde_home globs cur write_target (o, total) =
      let added = add_single word tilde_home globs cur write_target o in
      add_variants rest tilde_home globs cur write_target (added.0, total + added.1)

  -- `no_fuel` does not occur.
  unfoldable pub add_path : Word → Bool → Option FilePath → Bool → Out → Out × ℕ
  unfolding add_variants masked_chars has_expandable expand_braces_masked mark_unknown panic
  add_path word globs cur write_target o =
      let variants =
        if has_expandable b'{' word
        then expand_braces_masked max_brace_expansion (masked_chars word)
        else words (masked_chars word ∷ []) in
      if is_empty word.segs && not word.tilde_home then (o, 0) else elim variants [
        | words list ↦ add_variants list word.tilde_home globs cur write_target (o, 0)
        | too_many ↦ (mark_unknown o, 0)
        | expansion_endless ↦ (panic o, 0)
        | no_fuel ↦ (panic o, 0)
      ]

  unfoldable pub resolve_literal : Word → Option FilePath → Out → Out × Option FilePath
  unfolding word_text trim_start literal_of mark_unknown
  resolve_literal word cur o =
      if word.tilde_home
      then (o, some (literal_of (some env.home) (trim_start b'/' (word_text word))))
      else if is_absolute_text (word_text word)
      then (o, some (literal_of none (word_text word)))
      else elim cur [
        | none ↦ (mark_unknown o, none)
        | some dir ↦ (o, some (literal_of (some dir) (word_text word)))
      ]
