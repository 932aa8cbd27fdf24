-- ===== src/Resolver/Words.antt =====
-- crates/doover-core/src/resolver.rs: `Word`, `pieces_to_word` and `word_can_execute`.
use Prim.Native.Char.{Char}
use doover.Base.{
  ℕ, zero, suc, ◌+◌, ◌-◌, Bool, true, false, Option, none, some, List, [], ◌∷◌, ◌++◌, ◌&&◌, ◌||◌,
  any, map, ltb, if◌then◌else◌,
}
use doover.Base.Chars.{Text, chars, is_char, begins_with}
use doover.Resolver.Braces.{Mask}
use doover.Resolver.Syntax.{
  WordPiece, Pieces, last_piece, piece, text_piece, single_quoted_text, ansi_c_quoted_text,
  double_quoted_sequence, gettext_double_quoted_sequence, tilde_home_expansion,
  other_tilde_expansion, parameter_expansion, command_substitution, backquoted_command_substitution,
  escape_sequence, arithmetic_expression,
}

-- The segments of a word, each with whether it is unquoted.
pub record Word : Type 0 where
  pub segs : List (Text × Bool)
  pub tilde_home : Bool

unfoldable pub segs_text : List (Text × Bool) → Text
segs_text [] = []
segs_text ((s, exp) ∷ segs) = s ++ segs_text segs

unfoldable pub word_text : Word → Text
unfolding segs_text
word_text w = segs_text w.segs

unfoldable pub masked_segs : List (Text × Bool) → List Mask
masked_segs [] = []
masked_segs ((s, exp) ∷ segs) = map (λ (c : Char). (c, exp)) s ++ masked_segs segs

unfoldable pub masked_chars : Word → List Mask
unfolding masked_segs
masked_chars w = masked_segs w.segs

unfoldable pub has_expandable : ℕ → Word → Bool
has_expandable ch w = any w.segs (λ (seg : Text × Bool). seg.1 && any seg.0 (is_char ch))

unfoldable pub drop {ℓ} : {A : Type ℓ} → ℕ → List A → List A
drop zero xs = xs
drop (suc n) [] = []
drop (suc n) (x ∷ xs) = drop n xs

unfoldable pub text_length : Text → ℕ
text_length [] = 0
text_length (c ∷ s) = suc (text_length s)

-- `split_off_bytes`, the offsets counted in characters: the source cuts behind a whole character.
unfoldable pub split_segs : ℕ → ℕ → List (Text × Bool) → List (Text × Bool)
unfolding drop text_length
split_segs consumed at [] = []
split_segs consumed at ((s, exp) ∷ segs) =
    let end = consumed + text_length s in
    let rest = split_segs end at segs in
    if ltb at end then (drop (at - consumed) s, exp) ∷ rest else rest

unfoldable pub split_off : ℕ → Word → Word
unfolding split_segs
split_off at w = record { segs = split_segs 0 at w.segs; tilde_home = false }

abbrev pub max_literal_depth : ℕ
max_literal_depth = 64

abbrev pub add_seg : Text → Bool → Option Word → Option Word
add_seg s exp none = none
add_seg s exp (some w) = some (record w { segs = (s, exp) ∷ w.segs })

abbrev pub add_tilde : Option Word → Option Word
add_tilde none = none
add_tilde (some w) = some (record w { tilde_home = true })

-- `s.strip_prefix('\\').unwrap_or(s)`
abbrev pub without_backslash : Text → Text
without_backslash [] = []
without_backslash (c ∷ s) = if is_char b'\\' c then s else c ∷ s

-- The segment of a quoted sequence, in front of the rest.
unfoldable pub quoted : Option Word → Option Word → Option Word
unfolding word_text
quoted none rest = none
quoted (some lit) rest = if lit.tilde_home then none else add_seg (word_text lit) false rest

abbrev pub within_depth : ℕ → Option Word → Option Word
within_depth depth w = if ltb max_literal_depth depth then none else w

-- The flag says that the piece is the first of its word.
unfoldable mutual
  unfolding quoted

  pub piece_to_word : WordPiece → Bool → ℕ → Option Word → Option Word
  piece_to_word (text_piece s) first depth rest = add_seg s true rest
  piece_to_word (single_quoted_text s) first depth rest = add_seg s false rest
  piece_to_word (ansi_c_quoted_text s) first depth rest = add_seg s false rest
  piece_to_word (double_quoted_sequence inner) first depth rest =
      quoted (within_depth (suc depth) (rest_to_word inner true (suc depth))) rest
  piece_to_word (gettext_double_quoted_sequence inner) first depth rest =
      quoted (within_depth (suc depth) (rest_to_word inner true (suc depth))) rest
  piece_to_word (escape_sequence s) first depth rest = add_seg (without_backslash s) false rest
  piece_to_word tilde_home_expansion true depth rest = add_tilde rest
  piece_to_word tilde_home_expansion false depth rest = none
  piece_to_word other_tilde_expansion first depth rest = none
  piece_to_word parameter_expansion first depth rest = none
  piece_to_word command_substitution first depth rest = none
  piece_to_word backquoted_command_substitution first depth rest = none
  piece_to_word arithmetic_expression first depth rest = none

  pub rest_to_word : Pieces → Bool → ℕ → Option Word
  rest_to_word last_piece first depth = some (record { segs = []; tilde_home = false })
  rest_to_word (piece p ps) first depth = piece_to_word p first depth (rest_to_word ps false depth)

unfoldable pub pieces_to_word : Pieces → ℕ → Option Word
unfolding piece_to_word
pieces_to_word ps depth = within_depth depth (rest_to_word ps true depth)

-- `raw.contains(p)`
unfoldable pub contains : Text → Text → Bool
unfolding begins_with
contains [] p = begins_with [] p
contains (c ∷ s) p = begins_with (c ∷ s) p || contains s p

-- The function `scan` of `word_can_execute`.
unfoldable mutual
  unfolding contains

  pub piece_executes : WordPiece → Text → ℕ → Bool
  piece_executes command_substitution raw depth = true
  piece_executes backquoted_command_substitution raw depth = true
  piece_executes (double_quoted_sequence inner) raw depth =
      ltb max_literal_depth (suc depth) || any_executes inner raw (suc depth)
  piece_executes (gettext_double_quoted_sequence inner) raw depth =
      ltb max_literal_depth (suc depth) || any_executes inner raw (suc depth)
  piece_executes parameter_expansion raw depth =
      contains raw (chars "$(") || contains raw (chars "`")
  piece_executes arithmetic_expression raw depth =
      contains raw (chars "$(") || contains raw (chars "`")
  piece_executes _ raw depth = false

  pub any_executes : Pieces → Text → ℕ → Bool
  any_executes last_piece raw depth = false
  any_executes (piece p ps) raw depth = piece_executes p raw depth || any_executes ps raw depth

unfoldable pub scan : Pieces → Text → ℕ → Bool
unfolding piece_executes
scan ps raw depth = ltb max_literal_depth depth || any_executes ps raw depth
