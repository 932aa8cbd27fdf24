-- ===== src/Resolver/Contributions.antt =====
-- The two places that contribute a rule: `redirect_to` and `handle_simple`. What the contribution of a
-- rule keeps as well, a whole walk keeps.
use mathlib.Core.Option.{some-injective}
use doover.Base.{
  ℕ, ◌+◌, String, Bool, true, false, Option, none, some, List, [], ◌∷◌, ◌&&◌, inl, inr, ◌≡◌, subst,
  leb, ◌==◌, Bool-cases, Option-cases,
}
use doover.Paths.{FilePath}
use doover.Registry.Rules.{
  Effect, Rule, ScopeSpec, PathSource, positional, positional_last, redirect_target, repo, no_paths,
}
use doover.Registry.Lookup.{Registry}
use doover.Resolver.Lexical.{find_repo_root, repo_above, normalize_lexical, reverse_onto}
use doover.Resolver.Normal.{IsNormal, normalize_lexical-IsNormal}
use doover.Resolver.Outcome.{Out, fresh, contribute, of_effect, rank, panic}
use doover.Resolver.Words.{Word, drop}
use doover.Resolver.Scope.{Env, add_path}
use doover.Resolver.Redirects.{write_target}
use doover.Resolver.Tokens.{Tok, Split, path_flags_of, flag_args_of, split_tokens, no_value}
use doover.Resolver.Commands.{
  last, skip_of, add_paths, add_repo, source_paths, extract_scope, apply_rule,
}
use doover.Resolver.Walker.{collected}
use doover.Resolver.Primitives.{IsClosed, insert_scoped-P, add_path-P}
use doover.Resolver.Handlers.{add_literal-P, handle_redirect-P, handle_simple-P}
use doover.Resolver.Along.{collected-P}

find_repo_root-IsNormal :
    (exists : FilePath → Bool) (start root : FilePath)
    → find_repo_root exists start ≡ some root
    → IsNormal root
unfolding find_repo_root
find_repo_root-IsNormal exists start root h =
    elim (Option-cases (repo_above exists (reverse_onto start []))) [
      | inl nowhere ↦ cc (rw (nowhere, find_repo_root) at h)
      | inr (above, e) ↦
          subst IsNormal
            (some-injective (normalize_lexical above) root (rw (e, find_repo_root) at h))
            (normalize_lexical-IsNormal above)
    ]

module _ (env : Env) (registry : Registry) (P : Out → Type 0) (closed : IsClosed P) where
  pub add_paths-P :
      (ws : List Word) (globs : Bool) (cur : Option FilePath) (writes : Bool) (o : Out) (n : ℕ)
      → P o
      → P (add_paths env registry ws globs cur writes (o, n)).0
  unfolding add_paths
  add_paths-P [] globs cur writes o n p = p
  add_paths-P (w ∷ ws) globs cur writes o n p =
      let added = add_path env w globs cur writes o in
      add_paths-P ws globs cur writes added.0 (n + added.1)
        (add_path-P env P closed w globs cur writes o p)

  add_repo-P : (cur : Option FilePath) (o : Out) → P o → P (add_repo env registry cur o).0
  unfolding add_repo
  add_repo-P none o p = p
  add_repo-P (some dir) o p = elim (Option-cases (find_repo_root env.exists dir)) [
    | inl nowhere ↦ rw (nowhere, add_repo) p
    | inr (root, e) ↦
        rw (e, add_repo)
          (insert_scoped-P env P closed root false o (find_repo_root-IsNormal env.exists dir root e)
            p)
  ]

  source_paths-P :
      (source : PathSource) (globs : Bool) (args : List Word) (cur : Option FilePath) (o : Out)
      → P o
      → P (source_paths env registry source globs args cur o).0
  unfolding source_paths
  source_paths-P positional globs args cur o p = add_paths-P args globs cur false o 0 p
  source_paths-P positional_last globs args cur o p = elim (Option-cases (last args)) [
    | inl nothing ↦ rw (nothing, source_paths) p
    | inr (word, e) ↦ rw (e, source_paths) (add_path-P env P closed word globs cur false o p)
  ]
  source_paths-P repo globs args cur o p = add_repo-P cur o p
  source_paths-P redirect_target globs args cur o p = p
  source_paths-P no_paths globs args cur o p = p

  pub extract_scope-P :
      (rule : Rule) (split : Split) (cur : Option FilePath) (o : Out)
      → P o
      → P (extract_scope env registry rule split cur o).0
  unfolding extract_scope
  extract_scope-P rule split cur o p = scoped rule.scope
    where
      scoped :
          (s : Option ScopeSpec)
          → P
              (elim s as (λ _. Out × ℕ) [
                | none ↦ (o, 0)
                | some scope ↦ add_paths env registry split.flag_paths scope.globs cur true (
                    source_paths env registry scope.paths scope.globs
                      (drop (skip_of rule scope) split.positionals)
                      cur
                      o)
              ]).0
      scoped none = p
      scoped (some scope) =
          let args = drop (skip_of rule scope) split.positionals in
          let sourced = source_paths env registry scope.paths scope.globs args cur o in
          add_paths-P split.flag_paths scope.globs cur true sourced.0 sourced.1
            (source_paths-P scope.paths scope.globs args cur o p)

  module _
      (contribute-P : (e : Effect) (id : String) (o : Out)
        → P o
        → P (contribute (of_effect e) id o)) where
    apply_rule-P :
        (rule : Rule) (toks : List Tok) (cur : Option FilePath) (o : Out)
        → P o
        → P (apply_rule env registry rule toks cur o)
    unfolding apply_rule
    apply_rule-P rule toks cur o p =
        let split = split_tokens (path_flags_of rule) (flag_args_of rule) no_value toks in
        let charged = contribute (of_effect rule.effect) rule.id o in
        let scoped = extract_scope env registry rule split cur charged in
        let q = extract_scope-P rule split cur charged (contribute-P rule.effect rule.id o p) in
        elim (Bool-cases (leb 4 (rank (of_effect rule.effect)) && scoped.1 == 0)) [
          | inl bare ↦ rw bare (closed.unknown scoped.0 q)
          | inr covered ↦ rw covered q
        ]

    write_target-P :
        (rule : Rule) (word : Word) (cur : Option FilePath) (o : Out)
        → P o
        → P (write_target env rule word cur o)
    unfolding write_target
    write_target-P rule word cur o p =
        let charged = contribute (of_effect rule.effect) rule.id o in
        let added = add_path env word true cur true charged in
        let q =
          add_path-P env P closed word true cur true charged
            (contribute-P rule.effect rule.id o p) in
        elim (Bool-cases (added.1 == 0)) [
          | inl none_added ↦ rw none_added (add_literal-P env registry P closed word cur added.0 q)
          | inr some_added ↦ rw some_added q
        ]

    pub walk-P : (command : String) → P fresh → P (panic fresh) → P (collected env registry command)
    walk-P command p broken =
        collected-P env registry P
          (handle_simple-P env registry P closed write_target-P apply_rule-P)
          (handle_redirect-P env registry P closed write_target-P) closed.unknown command p broken
