-- ===== src/Base/Chars.antt =====
-- Texts as lists of characters, where the source walks `chars()`.
use Prim.Native.Char.{Char, code}
use Prim.Native.Nat.{ℕ}
use Prim.Native.String.{String}
use mathlib.Core.Bool.{Bool, true, false, ◌&&◌}
use mathlib.Core.List.{List, [], ◌∷◌}
use doover.Base.Tests.{◌==◌, if◌then◌else◌}

abbrev pub Text : Type 0
Text = List Char

abbrev pub chars : String → Text
chars String.[] = []
chars (String.◌∷◌ c s) = c ∷ chars s

abbrev pub text : Text → String
text [] = String.[]
text (c ∷ s) = String.◌∷◌ c (text s)

-- Equality of a character with one given by its code point.
abbrev pub is_char : ℕ → Char → Bool
is_char n c = code c == n

abbrev pub is_empty {ℓ} : {A : Type ℓ} → List A → Bool
is_empty [] = true
is_empty (x ∷ xs) = false

-- `s.starts_with(p)`
unfoldable pub begins_with : Text → Text → Bool
begins_with s [] = true
begins_with [] (d ∷ p) = false
begins_with (c ∷ s) (d ∷ p) = (code c == code d) && begins_with s p

unfoldable pub same_text : Text → Text → Bool
same_text [] [] = true
same_text (c ∷ s) (d ∷ t) = (code c == code d) && same_text s t
same_text _ _ = false

-- `s.ends_with(p)`
unfoldable pub ends_with : Text → Text → Bool
unfolding same_text
ends_with [] p = is_empty p
ends_with (c ∷ s) p = let later = ends_with s p in if same_text (c ∷ s) p then true else later

-- `s.split(sep)` for one character.
unfoldable pub split_at : ℕ → Text → List Text
split_at sep [] = [] ∷ []
split_at sep (c ∷ s) =
    if is_char sep c
    then [] ∷ split_at sep s
    else elim (split_at sep s) [ [] ↦ (c ∷ []) ∷ [] | first ∷ rest ↦ (c ∷ first) ∷ rest ]

-- `s.trim_start_matches(c)`
unfoldable pub trim_start : ℕ → Text → Text
trim_start sep [] = []
trim_start sep (c ∷ s) = let later = trim_start sep s in if is_char sep c then later else c ∷ s

unfoldable pub trim_end : ℕ → Text → Text
trim_end sep [] = []
trim_end sep (c ∷ s) = elim (trim_end sep s) [
  | [] ↦ if is_char sep c then [] else c ∷ []
  | d ∷ rest ↦ c ∷ d ∷ rest
]
