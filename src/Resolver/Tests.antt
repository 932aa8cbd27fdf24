-- ===== src/Resolver/Tests.antt =====
-- The resolver at concrete command lines.
use doover.Base.{
  ℕ, ◌≤◌, String, str_eq, true, false, Option, none, some, List, [], ◌∷◌, ◌++◌, ◌≡◌, ◌≢◌, ◌↔◌, ◌⊎◌,
  refl, All, map, length, arith, if◌then◌else◌, get_elem?, filter,
}
use doover.Base.Chars.{Text, chars, begins_with}
use doover.Paths.{root_dir, parent_dir, cur_dir, normal, FilePath}
use doover.Registry.Rules.{Effect, Rule, snapshot_restore, positional, is_protected}
use doover.Registry.Lookup.{Registry, with_floor, best}
use doover.Snapshot.Same.{path_eq, path_leb, component_cmp, component_rank}
use doover.Resolver.Ranges.{range_endless, parse_range}
use doover.Resolver.Braces.{Mask, words, no_fuel, expand_braces_masked}
use doover.Resolver.Lexical.{path_of, normalize_lexical, glob_match_allowed, is_filled}
use doover.Resolver.Outcome.{insert_path, destructive}
use doover.Resolver.Syntax.{
  simple, segment, end_of_pipeline, end_of_branches, item, end_of_list, program, parse_error, piece,
  text_piece, last_piece, word_item, file_redirect, write, filename, Parsed, CompoundList,
  PrefixOrSuffixItem, compound, subshell, Command, branch,
}
use doover.Resolver.Words.{Word}
use doover.Resolver.Scope.{Env}
use doover.Resolver.Tokens.{flag, pos, split_tokens, no_value}
use doover.Resolver.Walker.{resolve}
use doover.Resolver.Positionals.{IsHeld, EndsDropping, split_tokens-positional}
use doover.Resolver.Normal.{
  IsNormal, is_normal, are_names, normalize_lexical-IsNormal, normalize_lexical-cancels,
}
use doover.Resolver.Severities.{IsGraded, resolve-IsGraded}
use doover.Resolver.Covered.{is_destructive, resolve-covered}
use doover.Resolver.Normalized.{resolve-AreNormal}
use doover.Resolver.Fuel.{expand_braces_masked-no_fuel}
use doover.Resolver.Limit.{expand_braces_masked-length, expand_braces_masked-literal}
use doover.Resolver.Hidden.{filled_parts, is_visible, glob_match_allowed_iff}

abbrev no_scope_rule : String → Option String → Option String → Effect → Rule
no_scope_rule id command redirect effect = record {
  id = id;
  matcher = record { command = command; subcommand = none; flags_any = none; redirect = redirect };
  effect = effect;
  scope = some (record {
    paths = positional;
    globs = true;
    skip = 0;
    flag_args = [];
    path_flags = "-o" ∷ [];
    recursive_flags = [];
  });
  undo = snapshot_restore;
  notes = none;
}

abbrev rules : List Rule
rules =
    no_scope_rule "rm" (some "rm") none Effect.destructive
    ∷ no_scope_rule "sort" (some "sort") none Effect.mutating
    ∷ no_scope_rule "write" none (some ">") Effect.destructive
    ∷ []

abbrev registry : Registry
registry = record { rules = rules; index = []; shipped_count = 3 }

abbrev command_of : List String → List PrefixOrSuffixItem → Command
command_of [] redirects = simple (record { prefix = redirects; word_or_name = none; suffix = [] })
command_of (name ∷ args) redirects = simple (record {
  prefix = [];
  word_or_name = some (chars name);
  suffix = map (λ a. word_item (chars a)) args ++ redirects;
})

abbrev alone : Command → CompoundList
alone c = item (segment c end_of_pipeline) end_of_branches end_of_list

-- `cd sub && rm -rf a/../b{1,2} /x/./y`
abbrev removal : CompoundList
removal =
    item (segment (command_of ("cd" ∷ "sub" ∷ []) []) end_of_pipeline)
      (branch
        (segment (command_of ("rm" ∷ "-rf" ∷ "a/../b{1,2}" ∷ "/x/./y" ∷ []) []) end_of_pipeline)
        end_of_branches)
      end_of_list

-- `(cd /tmp; sudo rm z) > log`
abbrev hidden_removal : CompoundList
hidden_removal = alone (
    compound
      (subshell (
        item (segment (command_of ("cd" ∷ "/tmp" ∷ []) []) end_of_pipeline) end_of_branches
          (alone (command_of ("sudo" ∷ "rm" ∷ "z" ∷ []) []))))
      (file_redirect write (filename (chars "log")) ∷ []))

abbrev parse : String → Parsed
parse command =
    if str_eq command "removal"
    then program (removal ∷ [])
    else if str_eq command "hidden"
    then program (hidden_removal ∷ [])
    else parse_error

abbrev env : Env
env = record {
  parse = parse;
  parse_word = λ raw. some (piece (text_piece raw) last_piece);
  is_symlink = λ p. false;
  read_link = λ p. none;
  exists = λ p. false;
  escape = λ t. t;
  is_pattern = λ t. true;
  glob = λ budget n pattern. record { received = []; timed_out = false };
  parse_u64 = λ s. none;
  glob_ms = none;
  cwd = root_dir ∷ normal "work" ∷ [];
  home = root_dir ∷ normal "home" ∷ [];
}

resolve_removal : resolve env registry "removal" ≡ record {
  severity = destructive;
  paths =
      (root_dir ∷ normal "work" ∷ normal "sub" ∷ normal "b1" ∷ [])
      ∷ (root_dir ∷ normal "work" ∷ normal "sub" ∷ normal "b2" ∷ [])
      ∷ (root_dir ∷ normal "x" ∷ normal "y" ∷ [])
      ∷ [];
  rule_id = some "rm";
  has_unknown = false;
}
unfolding resolve with_floor best is_protected insert_path path_eq path_leb component_cmp
    component_rank
resolve_removal = refl

resolve_hidden : resolve env registry "hidden" ≡ record {
  severity = destructive;
  paths = (root_dir ∷ normal "work" ∷ normal "log" ∷ []) ∷ [];
  rule_id = some "write";
  has_unknown = true;
}
unfolding resolve insert_path
resolve_hidden = refl

-- A second `..` takes the first one away, and one at the root stays.
normalize_lexical_dots :
    (normalize_lexical (path_of (chars "../..")) ≡ [])
    × (normalize_lexical (path_of (chars "/../etc")) ≡ root_dir ∷ parent_dir ∷ normal "etc" ∷ [])
unfolding normalize_lexical path_of
normalize_lexical_dots = (refl, refl)

-- The last value of an `i128` has none behind it.
parse_range_last :
    parse_range 1024
      (chars "170141183460469231731687303715884105727..170141183460469231731687303715884105727")
    ≡ range_endless
unfolding parse_range begins_with
parse_range_last = refl

resolve-IsGraded_example : IsGraded (resolve env registry "hidden")
resolve-IsGraded_example = resolve-IsGraded env registry "hidden"

removal-destructive : is_destructive (resolve env registry "removal").severity ≡ true
unfolding resolve with_floor best is_protected
removal-destructive = refl

resolve-covered_example :
    ((resolve env registry "removal").has_unknown ≡ true)
    ⊎ ((resolve env registry "removal").paths ≢ [])
resolve-covered_example = resolve-covered env registry "removal" removal-destructive

resolve-AreNormal_example : All IsNormal (resolve env registry "removal").paths
resolve-AreNormal_example = resolve-AreNormal env registry "removal"

abbrev dotted : FilePath
dotted = root_dir ∷ normal "a" ∷ parent_dir ∷ parent_dir ∷ cur_dir ∷ normal "b" ∷ []

normalize_lexical-IsNormal_example : IsNormal (normalize_lexical dotted)
normalize_lexical-IsNormal_example = normalize_lexical-IsNormal dotted

normalize_lexical-cancels_example :
    (normalize_lexical (normal "a" ∷ []) ≡ normal "a" ∷ [])
    × IsNormal (normalize_lexical dotted)
    × (normalize_lexical (dotted ++ cur_dir ∷ dotted) ≡ normalize_lexical (dotted ++ dotted))
    × (normalize_lexical (dotted ++ normal "x" ∷ parent_dir ∷ dotted)
        ≡ normalize_lexical (dotted ++ dotted))
unfolding is_normal are_names
normalize_lexical-cancels_example =
    normalize_lexical-cancels (normal "a" ∷ []) dotted dotted "x" refl

abbrev unquoted : Text → List Mask
unquoted = map (λ c. (c, true))

-- `'{a,b}'{c,d{1..3}}`
abbrev half_quoted : List Mask
half_quoted = map (λ c. (c, false)) (chars "{a,b}") ++ unquoted (chars "{c,d{1..3}}")

expand_half_quoted :
    expand_braces_masked 1024 half_quoted
    ≡ words (
        (map (λ c. (c, false)) (chars "{a,b}") ++ unquoted (chars "c"))
        ∷ (map (λ c. (c, false)) (chars "{a,b}") ++ unquoted (chars "d1"))
        ∷ (map (λ c. (c, false)) (chars "{a,b}") ++ unquoted (chars "d2"))
        ∷ (map (λ c. (c, false)) (chars "{a,b}") ++ unquoted (chars "d3"))
        ∷ [])
unfolding expand_braces_masked parse_range begins_with
expand_half_quoted = refl

expand_braces_masked-no_fuel_example : expand_braces_masked 1024 half_quoted ≢ no_fuel
expand_braces_masked-no_fuel_example = expand_braces_masked-no_fuel 1024 half_quoted

abbrev two_words : List (List Mask)
two_words = unquoted (chars "ab") ∷ unquoted (chars "ac") ∷ []

two_words-expanded : expand_braces_masked 2 (unquoted (chars "a{b,c}")) ≡ words two_words
unfolding expand_braces_masked
two_words-expanded = refl

expand_braces_masked-length_example : length two_words ≤ 2
expand_braces_masked-length_example =
    expand_braces_masked-length 2 (unquoted (chars "a{b,c}")) two_words two_words-expanded

abbrev quoted_word : List Mask
quoted_word = map (λ c. (c, false)) (chars "{a,b}") ++ unquoted (chars "x}")

expand_braces_masked-literal_example :
    expand_braces_masked 1024 quoted_word ≡ words (quoted_word ∷ [])
expand_braces_masked-literal_example =
    expand_braces_masked-literal 1024 quoted_word refl (omega arith)

glob_match_allowed_iff_example :
    (glob_match_allowed (chars ".git/x") (chars "*" ∷ chars "x" ∷ []) ≡ true) ↔ (
      (k : ℕ) (comp : Text)
      → get_elem? (filled_parts (chars ".git/x")) k ≡ some comp
      → is_visible (filter is_filled (chars "*" ∷ chars "x" ∷ [])) k comp ≡ true)
glob_match_allowed_iff_example =
    glob_match_allowed_iff (chars ".git/x") (chars "*" ∷ chars "x" ∷ [])

abbrev word_of_text : String → Word
word_of_text s = record { segs = (chars s, true) ∷ []; tilde_home = false }

abbrev output_flag : Word
output_flag = word_of_text "-o"

split_tokens-positional_example :
    IsHeld (word_of_text "in") (
      split_tokens
        ("-o" ∷ [])
        []
        no_value
        (flag output_flag ∷ flag (word_of_text "-weird") ∷ pos (word_of_text "in") ∷ []))
    ⊎ EndsDropping ("-o" ∷ []) [] (flag output_flag ∷ flag (word_of_text "-weird") ∷ [])
split_tokens-positional_example =
    split_tokens-positional ("-o" ∷ []) [] (word_of_text "in")
      (flag output_flag ∷ flag (word_of_text "-weird") ∷ []) []
