-- ===== src/Resolver/Tokens.antt =====
-- crates/doover-core/src/resolver.rs: the arguments of a simple command as `handle_simple` sorts them:
-- flags, positionals, and the values that flags carry.
use Prim.Native.String.{len}
use doover.Base.{
  suc, String, Bool, true, false, not, Option, none, some, List, [], ◌∷◌, ◌&&◌, ◌||◌, any, find,
  ltb, ◌==◌, if◌then◌else◌, str_eq, starts_with, split_once,
}
use doover.Base.Chars.{text, chars, begins_with, same_text}
use doover.Registry.Rules.{Rule}
use doover.Resolver.Words.{Word, word_text, split_off, text_length}
use doover.Resolver.Redirects.{ArgVal, lit, opaque, is_flag_text}

pub data Tok : Type 0 where
  flag : Word → Tok
  pos : Word → Tok

-- What the token behind a flag is: `no_value`, `drop_value`, `path_value`.
pub data Consume : Type 0 where
  no_value drop_value path_value : Consume

-- The tokens of the literal arguments; the flag says that `--` came before.
unfoldable pub tokens_of : Bool → List ArgVal → List Tok
unfolding word_text text_length begins_with same_text
tokens_of dashed [] = []
tokens_of dashed (opaque ∷ args) = tokens_of dashed args
tokens_of dashed (lit w ∷ args) =
    let behind_dashes = tokens_of true args in
    let rest = tokens_of dashed args in
    if not dashed && same_text (word_text w) (chars "--")
    then behind_dashes
    else if not dashed && is_flag_text (word_text w)
    then flag w ∷ rest
    else pos w ∷ rest

abbrev pub is_opaque : ArgVal → Bool
is_opaque opaque = true
is_opaque (lit w) = false

unfoldable pub flags_of : List Tok → List String
unfolding word_text
flags_of [] = []
flags_of (flag w ∷ toks) = text (word_text w) ∷ flags_of toks
flags_of (pos w ∷ toks) = flags_of toks

-- The text of the first positional: the subcommand that the lookup is given.
unfoldable pub first_pos : List Tok → Option String
unfolding word_text
first_pos [] = none
first_pos (flag w ∷ toks) = first_pos toks
first_pos (pos w ∷ toks) = some (text (word_text w))

abbrev pub path_flags_of : Rule → List String
path_flags_of rule = elim rule.scope [ none ↦ [] | some s ↦ s.path_flags ]

abbrev pub flag_args_of : Rule → List String
flag_args_of rule = elim rule.scope [ none ↦ [] | some s ↦ s.flag_args ]

abbrev pub is_short : String → Bool
is_short f = len f == 2 && starts_with f "-" && not (starts_with f "--")

-- A short flag with its value attached.
abbrev pub is_attached : String → String → Bool
is_attached t f = is_short f && starts_with t f && ltb 2 (len t)

-- The positionals and the path values behind a token.
pub record Split : Type 0 where
  pub positionals : List Word
  pub flag_paths : List Word

abbrev pub add_pos : Word → Split → Split
add_pos w s = record s { positionals = w ∷ s.positionals }

abbrev pub add_flag_path : Word → Split → Split
add_flag_path w s = record s { flag_paths = w ∷ s.flag_paths }

-- What a flag says of the token behind it.
unfoldable pub consume_of : List String → List String → String → Consume
unfolding split_once
consume_of path_flags flag_args t = elim (split_once b'=' t) [
  | some name ↦ no_value
  | none ↦
      if any path_flags (λ pf. str_eq pf t)
      then path_value
      else if any flag_args (λ fa. str_eq fa t)
      then drop_value
      else no_value
]

-- The value that a flag carries itself, if it is a path.
unfoldable pub attached_value : List String → List String → Word → Option Word
unfolding split_once split_off text_length word_text
attached_value path_flags flag_args w =
    let t = text (word_text w) in
    elim (split_once b'=' t) [
      | some name ↦
          if any path_flags (λ pf. str_eq pf name)
          then some (split_off (suc (text_length (chars name))) w)
          else none
      | none ↦
          if any path_flags (λ pf. str_eq pf t) || any flag_args (λ fa. str_eq fa t)
          then none
          else elim (find (is_attached t) path_flags) [
            | none ↦ none
            | some pf ↦ some (split_off (text_length (chars pf)) w)
          ]
    ]

abbrev pub word_of : Tok → Word
word_of (flag w) = w
word_of (pos w) = w

-- The loop over the tokens.
unfoldable pub split_tokens : List String → List String → Consume → List Tok → Split
unfolding consume_of attached_value word_text
split_tokens path_flags flag_args consume [] = record { positionals = []; flag_paths = [] }
split_tokens path_flags flag_args path_value (tok ∷ toks) =
    add_flag_path (word_of tok) (split_tokens path_flags flag_args no_value toks)
split_tokens path_flags flag_args drop_value (tok ∷ toks) =
    split_tokens path_flags flag_args no_value toks
split_tokens path_flags flag_args no_value (pos w ∷ toks) =
    add_pos w (split_tokens path_flags flag_args no_value toks)
split_tokens path_flags flag_args no_value (flag w ∷ toks) =
    let rest =
      split_tokens path_flags flag_args (consume_of path_flags flag_args (text (word_text w)))
        toks in
    elim (attached_value path_flags flag_args w) [
      | none ↦ rest
      | some value ↦ add_flag_path value rest
    ]
