-- ===== src/Resolver/Redirects.antt =====
-- crates/doover-core/src/resolver.rs: `extract_word`, `word_can_execute`, `redirect_to`,
-- `handle_redirect` and `handle_cd` of `Walker`.
use doover.Base.{
  String, Bool, true, false, not, Option, none, some, List, ◌&&◌, ◌||◌, all, find, ltb, ◌==◌,
  if◌then◌else◌,
}
use doover.Base.Chars.{Text, chars, is_empty, begins_with, same_text}
use doover.Paths.{FilePath}
use doover.Registry.Rules.{Rule}
use doover.Registry.Lookup.{Registry, lookup_redirect}
use doover.Resolver.Ranges.{is_digit}
use doover.Resolver.Lexical.{normalize_lexical}
use doover.Resolver.Outcome.{Out, mark_unknown, contribute, of_effect}
use doover.Resolver.Syntax.{
  read, write, append, read_and_write, clobber, duplicate_input, duplicate_output,
  IoFileRedirectTarget, filename, fd, duplicate, process_substitution_target, IoRedirect,
  file_redirect, output_and_error, here_string, here_document,
}
use doover.Resolver.Words.{Word, word_text, pieces_to_word, scan, text_length}
use doover.Resolver.Scope.{Env, add_path, insert_scoped, resolve_literal}

pub data ArgVal : Type 0 where
  lit : Word → ArgVal
  opaque : ArgVal

-- `len() > 1 && starts_with('-')`
abbrev pub is_flag_text : Text → Bool
is_flag_text t = ltb 1 (text_length t) && begins_with t (chars "-")

-- `is_fd_form`, of the word's text.
unfoldable pub is_fd_text : Text → Bool
unfolding same_text
is_fd_text t = same_text t (chars "-") || (not (is_empty t) && all t is_digit)

abbrev pub mark_if : Bool → Out → Out
mark_if b o = if b then mark_unknown o else o

module _ (env : Env) where
  unfoldable pub extract_word : Text → Option Word
  unfolding pieces_to_word
  extract_word raw = elim (env.parse_word raw) [ none ↦ none | some ps ↦ pieces_to_word ps 0 ]

  unfoldable pub word_can_execute : Text → Bool
  unfolding scan
  word_can_execute raw = elim (env.parse_word raw) [ none ↦ true | some ps ↦ scan ps raw 0 ]

  abbrev pub is_fd_form : Option Word → Bool
  is_fd_form none = false
  is_fd_form (some w) = is_fd_text (word_text w)

  -- The literal of a target that no glob expanded.
  unfoldable pub add_literal : Word → Option FilePath → Out → Out
  unfolding resolve_literal insert_scoped
  add_literal word cur o =
      let resolved = resolve_literal env word cur o in
      elim resolved.1 [ none ↦ resolved.0 | some p ↦ insert_scoped env p true resolved.0 ]

  -- The target's paths, under a rule.
  unfoldable pub write_target : Rule → Word → Option FilePath → Out → Out
  unfolding contribute add_path add_literal
  write_target rule word cur o =
      let added = add_path env word true cur true (contribute (of_effect rule.effect) rule.id o) in
      if added.1 == 0 then add_literal word cur added.0 else added.0

  unfoldable pub redirect_to : Registry → String → Text → Option FilePath → Out → Out
  unfolding extract_word write_target lookup_redirect word_text mark_unknown
  redirect_to registry op raw cur o = elim (extract_word raw) [
    | none ↦ mark_unknown o
    | some word ↦
        if is_empty (word_text word) && not word.tilde_home
        then o
        else elim (lookup_redirect registry op) [
          | none ↦ mark_unknown o
          | some rule ↦ write_target rule word cur o
        ]
  ]

  -- A redirect of a kind that writes: `op` by what the target is.
  unfoldable pub write_redirect :
      Registry → String → IoFileRedirectTarget → Option FilePath → Out → Out
  unfolding redirect_to mark_unknown
  write_redirect registry op (filename word) cur o = redirect_to registry op word cur o
  write_redirect registry op fd cur o = o
  write_redirect registry op (duplicate word) cur o = o
  write_redirect registry op process_substitution_target cur o = mark_unknown o

  unfoldable pub read_redirect : IoFileRedirectTarget → Out → Out
  unfolding word_can_execute mark_unknown
  read_redirect (filename word) o = mark_if (word_can_execute word) o
  read_redirect _ o = o

  unfoldable pub duplicate_to : Registry → Text → Option FilePath → Out → Out
  unfolding extract_word is_fd_text redirect_to
  duplicate_to registry word cur o =
      if is_fd_form (extract_word word) then o else redirect_to registry ">" word cur o

  unfoldable pub duplicate_redirect : Registry → IoFileRedirectTarget → Option FilePath → Out → Out
  unfolding duplicate_to
  duplicate_redirect registry (filename word) cur o = duplicate_to registry word cur o
  duplicate_redirect registry (duplicate word) cur o = duplicate_to registry word cur o
  duplicate_redirect registry _ cur o = o

  unfoldable pub handle_redirect : Registry → IoRedirect → Option FilePath → Out → Out
  unfolding write_redirect read_redirect duplicate_redirect redirect_to word_can_execute
      mark_unknown
  handle_redirect registry (file_redirect write target) cur o =
      write_redirect registry ">" target cur o
  handle_redirect registry (file_redirect clobber target) cur o =
      write_redirect registry ">" target cur o
  handle_redirect registry (file_redirect read_and_write target) cur o =
      write_redirect registry ">" target cur o
  handle_redirect registry (file_redirect append target) cur o =
      write_redirect registry ">>" target cur o
  handle_redirect registry (file_redirect read target) cur o = read_redirect target o
  handle_redirect registry (file_redirect duplicate_input target) cur o = read_redirect target o
  handle_redirect registry (file_redirect duplicate_output target) cur o =
      duplicate_redirect registry target cur o
  handle_redirect registry (output_and_error word appends) cur o =
      redirect_to registry (if appends then ">>" else ">") word cur o
  handle_redirect registry (here_string word) cur o = mark_if (word_can_execute word) o
  handle_redirect registry (here_document expands doc) cur o =
      mark_if (expands && word_can_execute doc) o

  -- The argument that `cd` goes by.
  unfoldable pub is_cd_target : ArgVal → Bool
  unfolding word_text text_length begins_with same_text
  is_cd_target opaque = true
  is_cd_target (lit w) =
      not (is_flag_text (word_text w)) && not (same_text (word_text w) (chars "--"))

  unfoldable pub handle_cd : List ArgVal → Option FilePath → Out → Out × Option FilePath
  unfolding is_cd_target normalize_lexical same_text word_text resolve_literal mark_unknown
  handle_cd args cur o = elim (find is_cd_target args) [
    | none ↦ (o, some (normalize_lexical env.home))
    | some opaque ↦ (mark_unknown o, none)
    | some (lit w) ↦
        if same_text (word_text w) (chars "-")
        then (mark_unknown o, none)
        else resolve_literal env w cur o
  ]
