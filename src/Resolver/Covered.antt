-- ===== src/Resolver/Covered.antt =====
-- Where a resolution is destructive, something is there to be captured, or it says that something is
-- unknown.
use doover.Base.{
  ℕ, ◌+◌, String, Bool, true, false, Option, none, some, List, [], ◌∷◌, ◌≡◌, ◌≢◌, ◌⊎◌, refl, inl,
  inr, leb, ltb, ◌==◌, Bool-cases, Option-cases,
}
use doover.Base.Chars.{is_empty}
use doover.Paths.{FilePath}
use doover.Registry.Rules.{
  Effect, Rule, ScopeSpec, PathSource, positional, positional_last, redirect_target, repo, no_paths,
}
use doover.Registry.Lookup.{Registry}
use doover.Resolver.Lexical.{find_repo_root, is_absolute_text}
use doover.Resolver.Outcome.{
  Out, fresh, Severity, rank, worse, of_effect, mark_unknown, contribute, takes_over, panic,
  next_walk, joined,
}
use doover.Resolver.Words.{Word, word_text, drop}
use doover.Resolver.Scope.{Env, add_path, resolve_literal}
use doover.Resolver.Redirects.{write_target, add_literal}
use doover.Resolver.Tokens.{Tok, Split, path_flags_of, flag_args_of, split_tokens, no_value}
use doover.Resolver.Commands.{
  last, skip_of, add_paths, add_repo, source_paths, extract_scope, apply_rule,
}
use doover.Resolver.Walker.{collected, resolve}
use doover.Resolver.Primitives.{IsClosed, add_path-P}
use doover.Resolver.Handlers.{handle_redirect-P, handle_simple-P}
use doover.Resolver.Contributions.{extract_scope-P}
use doover.Resolver.Along.{collected-P}
use doover.Resolver.Counted.{
  is_accounted, IsAccounted, IsCounted, mark_unknown-IsAccounted, add-IsAccounted,
  panic-IsAccounted, counted-IsAccounted, IsAccounted-IsClosed, both-IsCounted,
  insert_scoped-IsAccounted, add_path-IsCounted,
}

-- Destructive or worse.
abbrev pub is_destructive : Severity → Bool
is_destructive s = leb 4 (rank s)

IsCovered : Out → Type 0
IsCovered o = is_destructive o.severity ≡ true → IsAccounted o

accounted-IsCovered : (o : Out) → IsAccounted o → IsCovered o
unfolding IsCovered
accounted-IsCovered o a = λ d. a

IsCovered-IsClosed : IsClosed IsCovered
unfolding IsCovered next_walk IsAccounted is_accounted
IsCovered-IsClosed = record {
  unknown = λ o c d. mark_unknown-IsAccounted o;
  added = λ p o n c d. add-IsAccounted p o;
  panicked = λ o c d. panic-IsAccounted o;
  walked = λ o c. c;
}

worse-is_destructive :
    (a b : Severity)
    → is_destructive b ≡ false
    → is_destructive (worse a b) ≡ true
    → is_destructive a ≡ true
worse-is_destructive a b mild d = elim (Bool-cases (ltb (rank b) (rank a))) [
  | inl more ↦ rw more at d
  | inr less ↦ cc (rw less at d)
]

contribute-IsCovered :
    (e : Effect) (id : String) (o : Out)
    → is_destructive (of_effect e) ≡ false
    → IsCovered o
    → IsCovered (contribute (of_effect e) id o)
unfolding IsCovered contribute IsAccounted is_accounted
contribute-IsCovered e id o mild c =
    elim (Bool-cases (takes_over o.rule_id (of_effect e) o.rule_sev)) [
      | inl over ↦ rw over (λ d. c (worse-is_destructive o.severity (of_effect e) mild d))
      | inr under ↦ rw under (λ d. c (worse-is_destructive o.severity (of_effect e) mild d))
    ]

module _ (env : Env) (registry : Registry) where
  resolve_literal-IsAccounted :
      (word : Word) (cur : Option FilePath) (o : Out)
      → (resolve_literal env word cur o).1 ≡ none
      → IsAccounted (resolve_literal env word cur o).0
  unfolding resolve_literal
  resolve_literal-IsAccounted word cur o h = elim (Bool-cases word.tilde_home) [
    | inl homely ↦ cc (rw homely at h)
    | inr plain_word ↦ elim (Bool-cases (is_absolute_text (word_text word))) [
      | inl absolute ↦ cc (rw (plain_word, absolute) at h)
      | inr relative ↦ elim (Option-cases cur) [
        | inl lost ↦ rw (plain_word, relative, lost) (mark_unknown-IsAccounted o)
        | inr (dir, e) ↦ cc (rw (plain_word, relative, e) at h)
      ]
    ]
  ]

  add_literal-IsAccounted :
      (word : Word) (cur : Option FilePath) (o : Out) → IsAccounted (add_literal env word cur o)
  unfolding add_literal
  add_literal-IsAccounted word cur o = elim (Option-cases (resolve_literal env word cur o).1) [
    | inl nowhere ↦ rw (nowhere, add_literal) (resolve_literal-IsAccounted word cur o nowhere)
    | inr (target, e) ↦
        rw (e, add_literal)
          (insert_scoped-IsAccounted env target true (resolve_literal env word cur o).0)
  ]

  add_paths-IsCounted :
      (ws : List Word) (globs : Bool) (cur : Option FilePath) (writes : Bool) (o : Out) (n : ℕ)
      → IsCounted (o, n)
      → IsCounted (add_paths env registry ws globs cur writes (o, n))
  unfolding add_paths
  add_paths-IsCounted [] globs cur writes o n c = c
  add_paths-IsCounted (w ∷ ws) globs cur writes o n c =
      let added = add_path env w globs cur writes o in
      add_paths-IsCounted ws globs cur writes added.0 (n + added.1) (
        both-IsCounted o added.0 n added.1 c
          (add_path-P env IsAccounted IsAccounted-IsClosed w globs cur writes o)
          (add_path-IsCounted env w globs cur writes o))

  add_repo-IsCounted : (cur : Option FilePath) (o : Out) → IsCounted (add_repo env registry cur o)
  unfolding add_repo IsCounted
  add_repo-IsCounted none o = inl refl
  add_repo-IsCounted (some dir) o = elim (Option-cases (find_repo_root env.exists dir)) [
    | inl nowhere ↦ rw (nowhere, add_repo) (inl refl)
    | inr (root, e) ↦ rw (e, add_repo) (inr (insert_scoped-IsAccounted env root false o))
  ]

  source_paths-IsCounted :
      (source : PathSource) (globs : Bool) (args : List Word) (cur : Option FilePath) (o : Out)
      → IsCounted (source_paths env registry source globs args cur o)
  unfolding source_paths IsCounted
  source_paths-IsCounted positional globs args cur o =
      add_paths-IsCounted args globs cur false o 0 (inl refl)
  source_paths-IsCounted positional_last globs args cur o = elim (Option-cases (last args)) [
    | inl nothing ↦ rw (nothing, source_paths) (inl refl)
    | inr (word, e) ↦ rw (e, source_paths) (add_path-IsCounted env word globs cur false o)
  ]
  source_paths-IsCounted repo globs args cur o = add_repo-IsCounted cur o
  source_paths-IsCounted redirect_target globs args cur o = inl refl
  source_paths-IsCounted no_paths globs args cur o = inl refl

  extract_scope-IsCounted :
      (rule : Rule) (split : Split) (cur : Option FilePath) (o : Out)
      → IsCounted (extract_scope env registry rule split cur o)
  unfolding extract_scope IsCounted
  extract_scope-IsCounted rule split cur o = scoped rule.scope
    where
      scoped :
          (s : Option ScopeSpec)
          → IsCounted (elim s as (λ _. Out × ℕ) [
            | none ↦ (o, 0)
            | some scope ↦ add_paths env registry split.flag_paths scope.globs cur true (
                source_paths env registry scope.paths scope.globs
                  (drop (skip_of rule scope) split.positionals)
                  cur
                  o)
          ])
      scoped none = inl refl
      scoped (some scope) =
          let args = drop (skip_of rule scope) split.positionals in
          let sourced = source_paths env registry scope.paths scope.globs args cur o in
          add_paths-IsCounted split.flag_paths scope.globs cur true sourced.0 sourced.1
            (source_paths-IsCounted scope.paths scope.globs args cur o)

  apply_rule-IsCovered :
      (rule : Rule) (toks : List Tok) (cur : Option FilePath) (o : Out)
      → IsCovered o
      → IsCovered (apply_rule env registry rule toks cur o)
  unfolding apply_rule IsCounted
  apply_rule-IsCovered rule toks cur o c =
      let split = split_tokens (path_flags_of rule) (flag_args_of rule) no_value toks in
      let charged = contribute (of_effect rule.effect) rule.id o in
      let scoped = extract_scope env registry rule split cur charged in
      elim (Bool-cases (is_destructive (of_effect rule.effect))) [
        | inr mild ↦ rw mild (
            extract_scope-P env registry IsCovered IsCovered-IsClosed rule split cur charged
              (contribute-IsCovered rule.effect rule.id o mild c))
        | inl harsh ↦ elim (extract_scope-IsCounted rule split cur charged) [
          | inl bare ↦
              rw (harsh, bare)
                (accounted-IsCovered (mark_unknown scoped.0) (mark_unknown-IsAccounted scoped.0))
          | inr there ↦ elim (Bool-cases (scoped.1 == 0)) [
            | inl bare ↦
                rw (harsh, bare)
                  (accounted-IsCovered (mark_unknown scoped.0) (mark_unknown-IsAccounted scoped.0))
            | inr some_added ↦ rw (harsh, some_added) (accounted-IsCovered scoped.0 there)
          ]
        ]
      ]

  write_target-IsCovered :
      (rule : Rule) (word : Word) (cur : Option FilePath) (o : Out)
      → IsCovered o
      → IsCovered (write_target env rule word cur o)
  unfolding write_target
  write_target-IsCovered rule word cur o c =
      let charged = contribute (of_effect rule.effect) rule.id o in
      let added = add_path env word true cur true charged in
      elim (Bool-cases (added.1 == 0)) [
        | inl none_added ↦ rw none_added (
            accounted-IsCovered (add_literal env word cur added.0)
              (add_literal-IsAccounted word cur added.0))
        | inr some_added ↦ rw some_added (
            accounted-IsCovered added.0 (
              counted-IsAccounted added.0 added.1
                (add_path-IsCounted env word true cur true charged) some_added))
      ]

joined-IsCovered :
    (o : Out)
    → IsCovered o
    → is_destructive (joined o).severity ≡ true
    → ((joined o).has_unknown ≡ true) ⊎ ((joined o).paths ≢ [])
unfolding IsCovered joined IsAccounted is_accounted
joined-IsCovered o c d = elim (Bool-cases o.panicked) [
  | inl gone ↦ rw gone (inl refl)
  | inr there ↦ elim (Bool-cases o.has_unknown) [
    | inl marked ↦ rw there (inl marked)
    | inr clean ↦ elim (Bool-cases (is_empty o.paths)) [
      | inl bare ↦ cc (rw (clean, bare, there) at (c (rw there at d)))
      | inr full ↦ rw there (inr (λ e. cc (rw e at full)))
    ]
  ]
]

fresh-IsCovered : IsCovered fresh
unfolding IsCovered
fresh-IsCovered d = cc

-- A resolution that is destructive or worse has a path in its scope, or it says that something is
-- unknown: no destructive command line passes with nothing to capture and no warning.
pub resolve-covered :
    (env : Env) (registry : Registry) (command : String)
    → is_destructive (resolve env registry command).severity ≡ true
    → ((resolve env registry command).has_unknown ≡ true)
      ⊎ ((resolve env registry command).paths ≢ [])
unfolding resolve
resolve-covered env registry command d =
    joined-IsCovered (collected env registry command)
      (collected-P env registry IsCovered
        (handle_simple-P env registry IsCovered IsCovered-IsClosed
          (write_target-IsCovered env registry) (apply_rule-IsCovered env registry))
        (handle_redirect-P env registry IsCovered IsCovered-IsClosed
          (write_target-IsCovered env registry))
        (λ o c. accounted-IsCovered (mark_unknown o) (mark_unknown-IsAccounted o)) command
        fresh-IsCovered (accounted-IsCovered (panic fresh) (panic-IsAccounted fresh)))
      d
