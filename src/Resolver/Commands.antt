-- ===== src/Resolver/Commands.antt =====
-- crates/doover-core/src/resolver.rs: `handle_simple`, `handle_prefix_suffix_items` and
-- `extract_scope` of `Walker`.
use doover.Base.{
  ℕ, ◌+◌, String, Bool, true, false, Option, none, some, List, [], ◌∷◌, ◌&&◌, any, leb, ◌==◌,
  if◌then◌else◌, str_eq,
}
use doover.Base.Chars.{Text, text}
use doover.Paths.{FilePath}
use doover.Registry.Rules.{
  Rule, ScopeSpec, PathSource, positional, positional_last, redirect_target, repo, no_paths,
  is_some,
}
use doover.Registry.Lookup.{Registry, lookup_command}
use doover.Resolver.Lexical.{find_repo_root}
use doover.Resolver.Outcome.{Out, rank, mark_unknown, contribute, of_effect}
use doover.Resolver.Syntax.{
  PrefixOrSuffixItem, io_redirect, word_item, assignment_word, process_substitution, SimpleCommand,
}
use doover.Resolver.Words.{Word, word_text, drop}
use doover.Resolver.Scope.{Env, add_path, insert_scoped}
use doover.Resolver.Redirects.{
  ArgVal, lit, opaque, mark_if, extract_word, word_can_execute, handle_redirect, handle_cd,
}
use doover.Resolver.Tokens.{
  Tok, Split, tokens_of, is_opaque, flags_of, first_pos, path_flags_of, flag_args_of, split_tokens,
  no_value,
}

abbrev pub opaque_commands : List String
opaque_commands =
    "eval" ∷ "source" ∷ "." ∷ "exec" ∷ "sh" ∷ "bash" ∷ "zsh" ∷ "dash" ∷ "ksh" ∷ "fish" ∷ "xargs"
    ∷ "sudo" ∷ "doas" ∷ "env" ∷ "nohup" ∷ "nice" ∷ "time" ∷ "timeout" ∷ "command" ∷ "builtin"
    ∷ "script" ∷ "watch" ∷ []

abbrev pub is_opaque_command : String → Bool
is_opaque_command name = any opaque_commands (λ c. str_eq c name)

abbrev pub last {ℓ} : {A : Type ℓ} → List A → Option A
last [] = none
last (x ∷ []) = some x
last (x ∷ y ∷ xs) = last (y ∷ xs)

-- An additional count.
abbrev pub plus : Out × ℕ → Out × ℕ → Out × ℕ
plus before after = (after.0, before.1 + after.1)

abbrev pub skip_of : Rule → ScopeSpec → ℕ
skip_of rule scope = (if is_some rule.matcher.subcommand then 1 else 0) + scope.skip

module _ (env : Env) (registry : Registry) where
  unfoldable pub add_paths : List Word → Bool → Option FilePath → Bool → Out × ℕ → Out × ℕ
  unfolding add_path
  add_paths [] globs cur write_target (o, n) = (o, n)
  add_paths (w ∷ ws) globs cur write_target (o, n) =
      let added = add_path env w globs cur write_target o in
      add_paths ws globs cur write_target (added.0, n + added.1)

  unfoldable pub add_repo : Option FilePath → Out → Out × ℕ
  unfolding find_repo_root insert_scoped
  add_repo none o = (o, 0)
  add_repo (some dir) o = elim (find_repo_root env.exists dir) [
    | none ↦ (o, 0)
    | some root ↦ (insert_scoped env root false o, 1)
  ]

  -- The paths of the positionals that are left.
  unfoldable pub source_paths : PathSource → Bool → List Word → Option FilePath → Out → Out × ℕ
  unfolding add_paths add_path add_repo
  source_paths positional globs args cur o = add_paths args globs cur false (o, 0)
  source_paths positional_last globs args cur o = elim (last args) [
    | none ↦ (o, 0)
    | some word ↦ add_path env word globs cur false o
  ]
  source_paths repo globs args cur o = add_repo cur o
  source_paths redirect_target globs args cur o = (o, 0)
  source_paths no_paths globs args cur o = (o, 0)

  -- `extract_scope`, and the values of the path flags behind it.
  unfoldable pub extract_scope : Rule → Split → Option FilePath → Out → Out × ℕ
  unfolding source_paths drop add_paths
  extract_scope rule split cur o = elim rule.scope [
    | none ↦ (o, 0)
    | some scope ↦
        add_paths split.flag_paths scope.globs cur true
          (source_paths scope.paths scope.globs (drop (skip_of rule scope) split.positionals) cur o)
  ]

  -- A destructive action without a path is unknown.
  unfoldable pub apply_rule : Rule → List Tok → Option FilePath → Out → Out
  unfolding extract_scope split_tokens contribute mark_unknown
  apply_rule rule toks cur o =
      let sev = of_effect rule.effect in
      let split = split_tokens (path_flags_of rule) (flag_args_of rule) no_value toks in
      let scoped = extract_scope rule split cur (contribute sev rule.id o) in
      if leb 4 (rank sev) && scoped.1 == 0 then mark_unknown scoped.0 else scoped.0

  unfoldable pub run_command : String → List ArgVal → Option FilePath → Out → Out
  unfolding tokens_of flags_of first_pos lookup_command apply_rule mark_unknown
  run_command name args cur o =
      let toks = tokens_of false args in
      let marked = mark_if (any args is_opaque) o in
      elim (lookup_command registry name (first_pos toks) (flags_of toks)) [
        | none ↦ mark_unknown marked
        | some rule ↦ apply_rule rule toks cur marked
      ]

  -- An item, and the argument that it is.
  unfoldable pub handle_item : PrefixOrSuffixItem → Option FilePath → Out → Out
  unfolding handle_redirect word_can_execute mark_unknown
  handle_item (word_item word) cur o = o
  handle_item (io_redirect redirect) cur o = handle_redirect env registry redirect cur o
  handle_item (assignment_word word) cur o = mark_if (word_can_execute env word) o
  handle_item process_substitution cur o = mark_unknown o

  unfoldable pub handle_items : List PrefixOrSuffixItem → Option FilePath → Out → Out
  unfolding handle_item
  handle_items [] cur o = o
  handle_items (i ∷ is) cur o = handle_items is cur (handle_item i cur o)

  -- The arguments that the items of a suffix push.
  unfoldable pub args_of : List PrefixOrSuffixItem → List ArgVal
  unfolding extract_word
  args_of [] = []
  args_of (word_item word ∷ is) = elim (extract_word env word) [
    | none ↦ opaque ∷ args_of is
    | some w ↦ lit w ∷ args_of is
  ]
  args_of (io_redirect redirect ∷ is) = args_of is
  args_of (assignment_word word ∷ is) = args_of is
  args_of (process_substitution ∷ is) = args_of is

  -- A command with its name.
  unfoldable pub run_named : Text → List ArgVal → Option FilePath → Out → Out × Option FilePath
  unfolding extract_word word_text handle_cd run_command mark_unknown
  run_named raw args cur o = elim (extract_word env raw) [
    | none ↦ (mark_unknown o, cur)
    | some name ↦
        if name.tilde_home
        then (mark_unknown o, cur)
        else if str_eq (text (word_text name)) "cd"
        then handle_cd env args cur o
        else if is_opaque_command (text (word_text name))
        then (mark_unknown o, cur)
        else (run_command (text (word_text name)) args cur o, cur)
  ]

  unfoldable pub handle_simple : SimpleCommand → Option FilePath → Out → Out × Option FilePath
  unfolding handle_items args_of run_named
  handle_simple command cur o =
      let redirected = handle_items command.suffix cur (handle_items command.prefix cur o) in
      elim command.word_or_name [
        | none ↦ (redirected, cur)
        | some raw ↦ run_named raw (args_of command.suffix) cur redirected
      ]
