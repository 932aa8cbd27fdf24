-- ===== src/Resolver/Walker.antt =====
-- crates/doover-core/src/resolver.rs: the walk over a command line, and `resolve`.
use doover.Base.{ℕ, suc, String, Option, some, List, [], ◌∷◌, ltb, if◌then◌else◌}
use doover.Paths.{FilePath}
use doover.Registry.Lookup.{Registry}
use doover.Resolver.Lexical.{normalize_lexical}
use doover.Resolver.Outcome.{Out, fresh, mark_unknown, panic, Resolution, joined}
use doover.Resolver.Syntax.{
  IoRedirect, SimpleCommand, Command, simple, compound, function, extended_test, CompoundCommand,
  subshell, brace_group, control_flow, Pipeline, end_of_pipeline, segment, Branches,
  end_of_branches, branch, CompoundList, end_of_list, item, program, parse_error, parser_panics,
}
use doover.Resolver.Scope.{Env}
use doover.Resolver.Redirects.{handle_redirect}
use doover.Resolver.Commands.{handle_simple}

-- What was collected, and the working directory, where it is known.
abbrev pub State : Type 0
State = Out × Option FilePath

abbrev pub max_walk_depth : ℕ
max_walk_depth = 256

abbrev pub mark : State → State
mark (o, cur) = (mark_unknown o, cur)

-- A walk of a list at the given depth, unless that is too deep.
unfoldable pub capped : ℕ → State → State → State
unfolding mark_unknown
capped depth before walked = if ltb max_walk_depth depth then mark before else walked

-- The working directory of before.
abbrev pub isolated : State → State → State
isolated before after = (after.0, before.1)

module _ (env : Env) (registry : Registry) where
  unfoldable pub handle_redirects : List IoRedirect → State → State
  unfolding handle_redirect
  handle_redirects [] st = st
  handle_redirects (r ∷ rs) (o, cur) =
      handle_redirects rs (handle_redirect env registry r cur o, cur)

  unfoldable pub run_simple : SimpleCommand → State → State
  unfolding handle_simple
  run_simple c (o, cur) = handle_simple env registry c cur o

  unfoldable mutual
    unfolding run_simple handle_redirects capped mark_unknown

    pub walk_command : Command → ℕ → State → State
    walk_command (simple c) depth st = run_simple c st
    walk_command (compound c redirects) depth st =
        handle_redirects redirects (walk_compound c depth st)
    walk_command function depth st = st
    walk_command (extended_test redirects) depth st = handle_redirects redirects st

    pub walk_compound : CompoundCommand → ℕ → State → State
    walk_compound (subshell l) depth st =
        isolated st (capped (suc depth) st (walk_items l (suc depth) st))
    walk_compound (brace_group l) depth st = capped (suc depth) st (walk_items l (suc depth) st)
    walk_compound control_flow depth st = mark st

    -- A single command keeps its changes of the working directory.
    pub walk_pipeline : Pipeline → ℕ → State → State
    walk_pipeline end_of_pipeline depth st = st
    walk_pipeline (segment c end_of_pipeline) depth st = walk_command c depth st
    walk_pipeline (segment c (segment d p)) depth st =
        walk_segments (segment d p) depth (isolated st (walk_command c depth st))

    pub walk_segments : Pipeline → ℕ → State → State
    walk_segments end_of_pipeline depth st = st
    walk_segments (segment c p) depth st =
        walk_segments p depth (isolated st (walk_command c depth st))

    pub walk_branches : Branches → ℕ → State → State
    walk_branches end_of_branches depth st = st
    walk_branches (branch p bs) depth st = walk_branches bs depth (walk_pipeline p depth st)

    pub walk_items : CompoundList → ℕ → State → State
    walk_items end_of_list depth st = st
    walk_items (item p bs l) depth st =
        walk_items l depth (walk_branches bs depth (walk_pipeline p depth st))

  unfoldable pub walk_compound_list : CompoundList → ℕ → State → State
  unfolding capped walk_command
  walk_compound_list l depth st = capped depth st (walk_items l depth st)

  -- The loop over the complete commands.
  unfoldable pub walk_all : List CompoundList → State → State
  unfolding walk_compound_list
  walk_all [] st = st
  walk_all (l ∷ ls) st = walk_all ls (walk_compound_list l 0 st)

  -- What the walk leaves in `out`.
  unfoldable pub collected : String → Out
  unfolding walk_all normalize_lexical mark_unknown panic
  collected command = elim (env.parse command) [
    | program lists ↦ (walk_all lists (fresh, some (normalize_lexical env.cwd))).0
    | parse_error ↦ mark_unknown fresh
    | parser_panics ↦ panic fresh
  ]

  unfoldable pub resolve : String → Resolution
  unfolding collected joined
  resolve command = joined (collected command)
