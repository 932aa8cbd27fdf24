-- ===== src/Resolver/Handlers.antt =====
-- From the primitives, and from the two places that contribute a rule, to the handlers of commands and
-- of redirects.
use doover.Base.{
  String, Bool, true, false, not, Option, List, [], ◌∷◌, ◌&&◌, inl, inr, any, find, str_eq,
  Bool-cases, Option-cases,
}
use doover.Base.Chars.{Text, text, chars, is_empty, same_text}
use doover.Paths.{FilePath}
use doover.Registry.Rules.{Rule}
use doover.Registry.Lookup.{Registry, lookup_command, lookup_redirect}
use doover.Resolver.Outcome.{Out}
use doover.Resolver.Syntax.{
  read, write, append, read_and_write, clobber, duplicate_input, duplicate_output,
  IoFileRedirectTarget, filename, fd, duplicate, process_substitution_target, IoRedirect,
  file_redirect, output_and_error, here_string, here_document, PrefixOrSuffixItem, io_redirect,
  word_item, assignment_word, process_substitution, SimpleCommand,
}
use doover.Resolver.Words.{Word, word_text}
use doover.Resolver.Scope.{Env, resolve_literal}
use doover.Resolver.Redirects.{
  ArgVal, lit, opaque, mark_if, extract_word, word_can_execute, is_fd_form, add_literal,
  write_target, redirect_to, write_redirect, read_redirect, duplicate_to, duplicate_redirect,
  handle_redirect, is_cd_target, handle_cd,
}
use doover.Resolver.Tokens.{Tok, tokens_of, is_opaque, flags_of, first_pos}
use doover.Resolver.Commands.{
  is_opaque_command, apply_rule, run_command, handle_item, handle_items, args_of, run_named,
  handle_simple,
}
use doover.Resolver.Primitives.{
  IsClosed, resolve_literal-IsNormal, insert_scoped-P, resolve_literal-P,
}

module _ (env : Env) (registry : Registry) (P : Out → Type 0) (closed : IsClosed P) where
  mark_if-P : (b : Bool) (o : Out) → P o → P (mark_if b o)
  mark_if-P true o p = closed.unknown o p
  mark_if-P false o p = p

  pub add_literal-P :
      (word : Word) (cur : Option FilePath) (o : Out) → P o → P (add_literal env word cur o)
  unfolding add_literal resolve_literal
  add_literal-P word cur o p =
      let resolved = resolve_literal-P env P closed word cur o p in
      elim (Option-cases (resolve_literal env word cur o).1) [
        | inl nowhere ↦ rw (nowhere, add_literal) resolved
        | inr (target, e) ↦
            rw (e, add_literal)
              (insert_scoped-P env P closed target true (resolve_literal env word cur o).0
                (resolve_literal-IsNormal env word cur o target e) resolved)
      ]

  handle_cd-P :
      (args : List ArgVal) (cur : Option FilePath) (o : Out) → P o → P (handle_cd env args cur o).0
  unfolding handle_cd
  handle_cd-P args cur o p = elim (Option-cases (find (is_cd_target env) args)) [
    | inl nothing ↦ rw (nothing, handle_cd) p
    | inr (opaque, e) ↦ rw (e, handle_cd) (closed.unknown o p)
    | inr (lit w, e) ↦ elim (Bool-cases (same_text (word_text w) (chars "-"))) [
      | inl back ↦ rw (e, back, handle_cd) (closed.unknown o p)
      | inr onward ↦ rw (e, onward, handle_cd) (resolve_literal-P env P closed w cur o p)
    ]
  ]

  module _
      (write-P : (rule : Rule) (word : Word) (cur : Option FilePath) (o : Out)
        → P o
        → P (write_target env rule word cur o)) where
    redirect_to-P :
        (op : String) (raw : Text) (cur : Option FilePath) (o : Out)
        → P o
        → P (redirect_to env registry op raw cur o)
    unfolding redirect_to
    redirect_to-P op raw cur o p = elim (Option-cases (extract_word env raw)) [
      | inl dynamic ↦ rw (dynamic, redirect_to) (closed.unknown o p)
      | inr (word, e) ↦ elim (Bool-cases (is_empty (word_text word) && not word.tilde_home)) [
        | inl nothing ↦ rw (e, nothing, redirect_to) p
        | inr something ↦ elim (Option-cases (lookup_redirect registry op)) [
          | inl unruled ↦ rw (e, something, unruled, redirect_to) (closed.unknown o p)
          | inr (rule, ruled) ↦ rw (e, something, ruled, redirect_to) (write-P rule word cur o p)
        ]
      ]
    ]

    write_redirect-P :
        (op : String) (target : IoFileRedirectTarget) (cur : Option FilePath) (o : Out)
        → P o
        → P (write_redirect env registry op target cur o)
    unfolding write_redirect
    write_redirect-P op (filename word) cur o p = redirect_to-P op word cur o p
    write_redirect-P op fd cur o p = p
    write_redirect-P op (duplicate word) cur o p = p
    write_redirect-P op process_substitution_target cur o p = closed.unknown o p

    read_redirect-P :
        (target : IoFileRedirectTarget) (o : Out) → P o → P (read_redirect env target o)
    unfolding read_redirect
    read_redirect-P (filename word) o p = mark_if-P (word_can_execute env word) o p
    read_redirect-P fd o p = p
    read_redirect-P (duplicate word) o p = p
    read_redirect-P process_substitution_target o p = p

    duplicate_to-P :
        (word : Text) (cur : Option FilePath) (o : Out)
        → P o
        → P (duplicate_to env registry word cur o)
    unfolding duplicate_to
    duplicate_to-P word cur o p = elim (Bool-cases (is_fd_form env (extract_word env word))) [
      | inl digits ↦ rw digits p
      | inr named ↦ rw named (redirect_to-P ">" word cur o p)
    ]

    duplicate_redirect-P :
        (target : IoFileRedirectTarget) (cur : Option FilePath) (o : Out)
        → P o
        → P (duplicate_redirect env registry target cur o)
    unfolding duplicate_redirect
    duplicate_redirect-P (filename word) cur o p = duplicate_to-P word cur o p
    duplicate_redirect-P (duplicate word) cur o p = duplicate_to-P word cur o p
    duplicate_redirect-P fd cur o p = p
    duplicate_redirect-P process_substitution_target cur o p = p

    pub handle_redirect-P :
        (r : IoRedirect) (cur : Option FilePath) (o : Out)
        → P o
        → P (handle_redirect env registry r cur o)
    unfolding handle_redirect
    handle_redirect-P (file_redirect write target) cur o p = write_redirect-P ">" target cur o p
    handle_redirect-P (file_redirect clobber target) cur o p = write_redirect-P ">" target cur o p
    handle_redirect-P (file_redirect read_and_write target) cur o p =
        write_redirect-P ">" target cur o p
    handle_redirect-P (file_redirect append target) cur o p = write_redirect-P ">>" target cur o p
    handle_redirect-P (file_redirect read target) cur o p = read_redirect-P target o p
    handle_redirect-P (file_redirect duplicate_input target) cur o p = read_redirect-P target o p
    handle_redirect-P (file_redirect duplicate_output target) cur o p =
        duplicate_redirect-P target cur o p
    handle_redirect-P (output_and_error word true) cur o p = redirect_to-P ">>" word cur o p
    handle_redirect-P (output_and_error word false) cur o p = redirect_to-P ">" word cur o p
    handle_redirect-P (here_string word) cur o p = mark_if-P (word_can_execute env word) o p
    handle_redirect-P (here_document expands doc) cur o p =
        mark_if-P (expands && word_can_execute env doc) o p

    handle_item-P :
        (i : PrefixOrSuffixItem) (cur : Option FilePath) (o : Out)
        → P o
        → P (handle_item env registry i cur o)
    unfolding handle_item
    handle_item-P (word_item word) cur o p = p
    handle_item-P (io_redirect redirect) cur o p = handle_redirect-P redirect cur o p
    handle_item-P (assignment_word word) cur o p = mark_if-P (word_can_execute env word) o p
    handle_item-P process_substitution cur o p = closed.unknown o p

    handle_items-P :
        (is : List PrefixOrSuffixItem) (cur : Option FilePath) (o : Out)
        → P o
        → P (handle_items env registry is cur o)
    unfolding handle_items
    handle_items-P [] cur o p = p
    handle_items-P (i ∷ is) cur o p =
        handle_items-P is cur (handle_item env registry i cur o) (handle_item-P i cur o p)

    module _
        (apply-P : (rule : Rule) (toks : List Tok) (cur : Option FilePath) (o : Out)
          → P o
          → P (apply_rule env registry rule toks cur o)) where
      run_command-P :
          (name : String) (args : List ArgVal) (cur : Option FilePath) (o : Out)
          → P o
          → P (run_command env registry name args cur o)
      unfolding run_command
      run_command-P name args cur o p =
          let toks = tokens_of false args in
          let marked = mark_if-P (any args is_opaque) o p in
          elim (Option-cases (lookup_command registry name (first_pos toks) (flags_of toks))) [
            | inl unruled ↦
                rw (unruled, run_command) (closed.unknown (mark_if (any args is_opaque) o) marked)
            | inr (rule, e) ↦
                rw (e, run_command) (apply-P rule toks cur (mark_if (any args is_opaque) o) marked)
          ]

      run_named-P :
          (raw : Text) (args : List ArgVal) (cur : Option FilePath) (o : Out)
          → P o
          → P (run_named env registry raw args cur o).0
      unfolding run_named
      run_named-P raw args cur o p = elim (Option-cases (extract_word env raw)) [
        | inl dynamic ↦ rw (dynamic, run_named) (closed.unknown o p)
        | inr (name, e) ↦ elim (Bool-cases name.tilde_home) [
          | inl homely ↦ rw (e, homely, run_named) (closed.unknown o p)
          | inr plain_name ↦ elim (Bool-cases (str_eq (text (word_text name)) "cd")) [
            | inl moves ↦ rw (e, plain_name, moves, run_named) (handle_cd-P args cur o p)
            | inr stays ↦ elim (Bool-cases (is_opaque_command (text (word_text name)))) [
              | inl hidden ↦ rw (e, plain_name, stays, hidden, run_named) (closed.unknown o p)
              | inr known ↦
                  rw (e, plain_name, stays, known, run_named)
                    (run_command-P (text (word_text name)) args cur o p)
            ]
          ]
        ]
      ]

      pub handle_simple-P :
          (c : SimpleCommand) (cur : Option FilePath) (o : Out)
          → P o
          → P (handle_simple env registry c cur o).0
      unfolding handle_simple
      handle_simple-P c cur o p =
          let redirected =
            handle_items-P c.suffix cur (handle_items env registry c.prefix cur o)
              (handle_items-P c.prefix cur o p) in
          elim (Option-cases c.word_or_name) [
            | inl nothing ↦ rw nothing redirected
            | inr (raw, e) ↦ rw e (
                run_named-P raw (args_of env registry c.suffix) cur
                  (handle_items env registry c.suffix cur
                    (handle_items env registry c.prefix cur o))
                  redirected)
          ]
