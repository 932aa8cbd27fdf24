-- ===== src/Resolver/Along.antt =====
-- What the handlers of commands and of redirects keep, the walk over a command line keeps.
use doover.Base.{ℕ, suc, String, Option, some, List, [], ◌∷◌, inl, inr, ltb, Bool-cases}
use doover.Paths.{FilePath}
use doover.Registry.Lookup.{Registry}
use doover.Resolver.Lexical.{normalize_lexical}
use doover.Resolver.Outcome.{Out, fresh, mark_unknown, panic}
use doover.Resolver.Syntax.{
  IoRedirect, SimpleCommand, Command, simple, compound, function, extended_test, CompoundCommand,
  subshell, brace_group, control_flow, Pipeline, end_of_pipeline, segment, Branches,
  end_of_branches, branch, CompoundList, end_of_list, item, program, parse_error, parser_panics,
}
use doover.Resolver.Scope.{Env}
use doover.Resolver.Redirects.{handle_redirect}
use doover.Resolver.Commands.{handle_simple}
use doover.Resolver.Walker.{
  State, capped, isolated, mark, max_walk_depth, handle_redirects, run_simple, walk_command,
  walk_compound, walk_pipeline, walk_segments, walk_branches, walk_items, walk_compound_list,
  walk_all, collected,
}

module _ (env : Env) (registry : Registry) (P : Out → Type 0)
    (simple-P : (c : SimpleCommand) (cur : Option FilePath) (o : Out)
      → P o
      → P (handle_simple env registry c cur o).0)
    (redirect-P : (r : IoRedirect) (cur : Option FilePath) (o : Out)
      → P o
      → P (handle_redirect env registry r cur o))
    (unknown-P : (o : Out) → P o → P (mark_unknown o)) where
  handle_redirects-P :
      (rs : List IoRedirect) (st : State) → P st.0 → P (handle_redirects env registry rs st).0
  unfolding handle_redirects
  handle_redirects-P [] st p = p
  handle_redirects-P (r ∷ rs) (o, cur) p =
      handle_redirects-P rs (handle_redirect env registry r cur o, cur) (redirect-P r cur o p)

  run_simple-P : (c : SimpleCommand) (st : State) → P st.0 → P (run_simple env registry c st).0
  unfolding run_simple
  run_simple-P c (o, cur) p = simple-P c cur o p

  mark-P : (st : State) → P st.0 → P (mark st).0
  mark-P (o, cur) p = unknown-P o p

  capped-P :
      (depth : ℕ) (before walked : State)
      → P before.0
      → P walked.0
      → P (capped depth before walked).0
  unfolding capped
  capped-P depth before walked p q = elim (Bool-cases (ltb max_walk_depth depth)) [
    | inl deep ↦ rw deep (mark-P before p)
    | inr fine ↦ rw fine q
  ]

  mutual
    unfolding walk_command

    walk_command-P :
        (c : Command) (depth : ℕ) (st : State) → P st.0 → P (walk_command env registry c depth st).0
    walk_command-P (simple c) depth st p = run_simple-P c st p
    walk_command-P (compound c redirects) depth st p =
        handle_redirects-P redirects (walk_compound env registry c depth st)
          (walk_compound-P c depth st p)
    walk_command-P function depth st p = p
    walk_command-P (extended_test redirects) depth st p = handle_redirects-P redirects st p

    walk_compound-P :
        (c : CompoundCommand) (depth : ℕ) (st : State)
        → P st.0
        → P (walk_compound env registry c depth st).0
    walk_compound-P (subshell l) depth st p =
        capped-P (suc depth) st (walk_items env registry l (suc depth) st) p
          (walk_items-P l (suc depth) st p)
    walk_compound-P (brace_group l) depth st p =
        capped-P (suc depth) st (walk_items env registry l (suc depth) st) p
          (walk_items-P l (suc depth) st p)
    walk_compound-P control_flow depth st p = mark-P st p

    walk_pipeline-P :
        (c : Pipeline) (depth : ℕ) (st : State)
        → P st.0
        → P (walk_pipeline env registry c depth st).0
    walk_pipeline-P end_of_pipeline depth st p = p
    walk_pipeline-P (segment c end_of_pipeline) depth st p = walk_command-P c depth st p
    walk_pipeline-P (segment c (segment d q)) depth st p =
        walk_segments-P (segment d q) depth (isolated st (walk_command env registry c depth st))
          (walk_command-P c depth st p)

    walk_segments-P :
        (c : Pipeline) (depth : ℕ) (st : State)
        → P st.0
        → P (walk_segments env registry c depth st).0
    walk_segments-P end_of_pipeline depth st p = p
    walk_segments-P (segment c q) depth st p =
        walk_segments-P q depth (isolated st (walk_command env registry c depth st))
          (walk_command-P c depth st p)

    walk_branches-P :
        (c : Branches) (depth : ℕ) (st : State)
        → P st.0
        → P (walk_branches env registry c depth st).0
    walk_branches-P end_of_branches depth st p = p
    walk_branches-P (branch q bs) depth st p =
        walk_branches-P bs depth (walk_pipeline env registry q depth st)
          (walk_pipeline-P q depth st p)

    walk_items-P :
        (c : CompoundList) (depth : ℕ) (st : State)
        → P st.0
        → P (walk_items env registry c depth st).0
    walk_items-P end_of_list depth st p = p
    walk_items-P (item q bs l) depth st p =
        walk_items-P l depth
          (walk_branches env registry bs depth (walk_pipeline env registry q depth st))
          (walk_branches-P bs depth (walk_pipeline env registry q depth st)
            (walk_pipeline-P q depth st p))

  walk_all-P : (ls : List CompoundList) (st : State) → P st.0 → P (walk_all env registry ls st).0
  unfolding walk_all walk_compound_list
  walk_all-P [] st p = p
  walk_all-P (l ∷ ls) st p =
      walk_all-P ls (walk_compound_list env registry l 0 st)
        (capped-P 0 st (walk_items env registry l 0 st) p (walk_items-P l 0 st p))

  pub collected-P :
      (command : String) → P fresh → P (panic fresh) → P (collected env registry command)
  unfolding collected
  collected-P command p broken =
      elim (env.parse command)
        as (λ r. P (elim r [
          | program lists ↦
              (walk_all env registry lists (fresh, some (normalize_lexical env.cwd))).0
          | parse_error ↦ mark_unknown fresh
          | parser_panics ↦ panic fresh
        ])) [
          | program lists ↦ walk_all-P lists (fresh, some (normalize_lexical env.cwd)) p
          | parse_error ↦ unknown-P fresh p
          | parser_panics ↦ broken
        ]
