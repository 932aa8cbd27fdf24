-- ===== src/Base/Text.antt =====
-- The operations on strings that the source uses.
use Prim.Native.Nat.{ℕ}
use Prim.Native.Char.{code}
use Prim.Native.String.{String}
use mathlib.Core.Path.{◌≡◌, refl}
use mathlib.Core.Bool.{Bool, true, false, ◌&&◌, ◌||◌}
use mathlib.Core.Option.{Option, none, some}
use doover.Base.Tests.{leb, ◌==◌}

-- `char::is_whitespace`: the code points with the White_Space property.
is_whitespace : ℕ → Bool
is_whitespace c =
    (leb 9 c && leb c 13)
    || c == 32
    || c == 0x85
    || c == 0xa0
    || c == 0x1680
    || (leb 0x2000 c && leb c 0x200a)
    || c == 0x2028
    || c == 0x2029
    || c == 0x202f
    || c == 0x205f
    || c == 0x3000

-- `s.trim().is_empty()`
unfoldable pub is_blank : String → Bool
unfolding is_whitespace
is_blank String.[] = true
is_blank (String.◌∷◌ c s) = is_whitespace (code c) && is_blank s

-- The part before the first `sep`: the first half of `s.split_once(sep)`.
unfoldable pub split_once : ℕ → String → Option String
split_once sep String.[] = none
split_once sep (String.◌∷◌ c s) = elim (code c == sep) [
  | true ↦ some String.[]
  | false ↦ elim (split_once sep s) [ none ↦ none | some name ↦ some (String.◌∷◌ c name) ]
]

split_once_long : split_once b'=' "--out=x=y" ≡ some "--out"
unfolding split_once
split_once_long = refl

is_blank_spaces : is_blank " \u{a0} " ≡ true
unfolding is_blank
is_blank_spaces = refl
