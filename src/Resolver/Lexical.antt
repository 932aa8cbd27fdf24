-- ===== src/Resolver/Lexical.antt =====
-- crates/doover-core/src/resolver.rs: paths as texts, `normalize_lexical`, `find_repo_root` and
-- `glob_match_allowed`.
use doover.Base.{
  ℕ, suc, Bool, true, false, not, Option, none, some, List, [], ◌∷◌, ◌++◌, ◌&&◌, ◌||◌, filter,
  get_elem?, if◌then◌else◌,
}
use doover.Base.Chars.{Text, chars, text, is_char, is_empty, begins_with, same_text, split_at}
use doover.Paths.{Component, root_dir, cur_dir, parent_dir, normal, FilePath}

-- The components of the pieces between the slashes: `.` counts at the front only.
unfoldable pub piece_components : Bool → List Text → FilePath
unfolding same_text
piece_components first [] = []
piece_components first (p ∷ ps) =
    let rest = piece_components false ps in
    if is_empty p
    then rest
    else if same_text p (chars ".")
    then (if first then cur_dir ∷ rest else rest)
    else if same_text p (chars "..")
    then parent_dir ∷ rest
    else normal (text p) ∷ rest

abbrev pub is_absolute_text : Text → Bool
is_absolute_text [] = false
is_absolute_text (c ∷ t) = is_char b'/' c

-- `Path::new(s).components()`
unfoldable pub path_of : Text → FilePath
unfolding piece_components split_at
path_of t =
    if is_absolute_text t
    then root_dir ∷ piece_components false (split_at b'/' t)
    else piece_components true (split_at b'/' t)

abbrev pub component_text : Component → Text
component_text root_dir = chars "/"
component_text cur_dir = chars "."
component_text parent_dir = chars ".."
component_text (normal s) = chars s

-- Components with a slash between each two.
unfoldable pub slashed : FilePath → Text
slashed [] = []
slashed (c ∷ []) = component_text c
slashed (c ∷ d ∷ p) = component_text c ++ chars "/" ++ slashed (d ∷ p)

-- `to_string_lossy` of a path
unfoldable pub path_text : FilePath → Text
unfolding slashed
path_text (root_dir ∷ p) = chars "/" ++ slashed p
path_text p = slashed p

abbrev pub is_absolute : FilePath → Bool
is_absolute (root_dir ∷ p) = true
is_absolute p = false

-- A leading `.` is a component only where nothing stands before it.
abbrev pub without_dot : FilePath → FilePath
without_dot (cur_dir ∷ p) = p
without_dot p = p

-- `Path::join`
unfoldable pub join_path : FilePath → FilePath → FilePath
join_path [] p = p
join_path (c ∷ b) p = if is_absolute p then p else (c ∷ b) ++ without_dot p

-- A step of `normalize_lexical`. The path built so far has its last component first; `pop` fails at
-- the root and at the empty path.
unfoldable pub push_component : FilePath → Component → FilePath
push_component out cur_dir = out
push_component [] parent_dir = parent_dir ∷ []
push_component (root_dir ∷ out) parent_dir = parent_dir ∷ root_dir ∷ out
push_component (c ∷ out) parent_dir = out
push_component out root_dir = root_dir ∷ []
push_component out (normal s) = normal s ∷ out

unfoldable pub push_all : FilePath → FilePath → FilePath
push_all out [] = out
push_all out (c ∷ p) = push_all (push_component out c) p

unfoldable pub reverse_onto {ℓ} : {A : Type ℓ} → List A → List A → List A
reverse_onto [] ys = ys
reverse_onto (x ∷ xs) ys = reverse_onto xs (x ∷ ys)

unfoldable pub normalize_lexical : FilePath → FilePath
unfolding push_all push_component reverse_onto
normalize_lexical p = reverse_onto (push_all [] p) []

-- `Path::parent`, of a path with its last component first.
abbrev pub up_from : FilePath → Option FilePath
up_from [] = none
up_from (root_dir ∷ p) = none
up_from (c ∷ p) = some p

-- `Path::parent`
unfoldable pub parent : FilePath → Option FilePath
unfolding reverse_onto
parent p = elim (up_from (reverse_onto p [])) [ none ↦ none | some q ↦ some (reverse_onto q []) ]

-- The first of the ancestors that holds a `.git`; its last component comes first.
unfoldable pub repo_above : (FilePath → Bool) → FilePath → Option FilePath
unfolding reverse_onto
repo_above exists [] = if exists (normal ".git" ∷ []) then some [] else none
repo_above exists (root_dir ∷ p) =
    let here = reverse_onto (root_dir ∷ p) [] in
    if exists (here ++ (normal ".git" ∷ [])) then some here else none
repo_above exists (c ∷ p) =
    let above = repo_above exists p in
    let here = reverse_onto (c ∷ p) [] in
    if exists (here ++ (normal ".git" ∷ [])) then some here else above

unfoldable pub find_repo_root : (FilePath → Bool) → FilePath → Option FilePath
unfolding repo_above reverse_onto normalize_lexical
find_repo_root exists start = elim (repo_above exists (reverse_onto start [])) [
  | none ↦ none
  | some root ↦ some (normalize_lexical root)
]

-- Whether the pattern component at a position begins with a dot.
unfoldable pub is_dotted_at : List Text → ℕ → Bool
unfolding begins_with
is_dotted_at pats i = elim (get_elem? pats i) [ none ↦ false | some p ↦ begins_with p (chars ".") ]

unfoldable pub allowed_from : List Text → ℕ → List Text → Bool
unfolding same_text begins_with is_dotted_at
allowed_from pats i [] = true
allowed_from pats i (comp ∷ comps) =
    let later = allowed_from pats (suc i) comps in
    if same_text comp (chars ".") || same_text comp (chars "..")
    then false
    else if begins_with comp (chars ".") && not (is_dotted_at pats i)
    then false
    else later

abbrev pub is_filled : Text → Bool
is_filled t = not (is_empty t)

unfoldable pub glob_match_allowed : Text → List Text → Bool
unfolding allowed_from split_at
glob_match_allowed relative pat_components =
    allowed_from (filter is_filled pat_components) 0 (filter is_filled (split_at b'/' relative))
