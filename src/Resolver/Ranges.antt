-- ===== src/Resolver/Ranges.antt =====
-- crates/doover-core/src/resolver.rs: `parse_range`, over integers given by sign and magnitude.
use Prim.Native.Char.{Char, code}
use doover.Base.{
  ℕ, zero, suc, ◌+◌, ◌-◌, ◌*◌, ◌%◌, Bool, true, false, Option, none, some, List, [], ◌∷◌, ◌++◌,
  get_elem?, ◌&&◌, ◌||◌, ltb, leb, map, if◌then◌else◌,
}
use doover.Base.Chars.{Text, chars, is_char, begins_with}
use Prim.Native.Nat.{◌/◌}

pub data ℤ : Type 0 where
  pos : ℕ → ℤ
  negsuc : ℕ → ℤ

unfoldable pub ℤ_leb : ℤ → ℤ → Bool
ℤ_leb (pos a) (pos b) = leb a b
ℤ_leb (pos a) (negsuc b) = false
ℤ_leb (negsuc a) (pos b) = true
ℤ_leb (negsuc a) (negsuc b) = leb b a

-- The distance of two values, before any wrap.
unfoldable pub distance : ℤ → ℤ → ℕ
distance (pos a) (pos b) = (a - b) + (b - a)
distance (pos a) (negsuc b) = a + suc b
distance (negsuc a) (pos b) = suc a + b
distance (negsuc a) (negsuc b) = (a - b) + (b - a)

abbrev pub up : ℤ → ℤ
up (pos n) = pos (suc n)
up (negsuc zero) = pos 0
up (negsuc (suc n)) = negsuc n

abbrev pub down : ℤ → ℤ
down (pos zero) = negsuc 0
down (pos (suc n)) = pos n
down (negsuc n) = negsuc (suc n)

-- The given number of values from the first on, by steps of one.
unfoldable pub steps : Bool → ℕ → ℤ → List ℤ
steps rising zero a = []
steps rising (suc n) a = a ∷ steps rising n (if rising then up a else down a)

-- `i128::MAX`, and the numbers below it in magnitude.
abbrev pub i128_max : ℕ
i128_max = 170141183460469231731687303715884105727

-- `a - b` is an `i128`.
unfoldable pub difference_fits : ℤ → ℤ → Bool
unfolding distance ℤ_leb
difference_fits a b = leb (distance a b) (if ℤ_leb b a then i128_max else suc i128_max)

-- So is the value behind the last one, in the direction of the loop.
unfoldable pub end_fits : Bool → ℤ → Bool
unfolding ℤ_leb
end_fits rising b = if rising then ℤ_leb b (pos (i128_max - 1)) else ℤ_leb (negsuc (i128_max - 1)) b

-- `(a - b).unsigned_abs()`, where a difference that is no `i128` wraps.
unfoldable pub wrapped_distance : ℤ → ℤ → ℕ
unfolding distance difference_fits
wrapped_distance a b =
    if difference_fits a b
    then distance a b
    else 340282366920938463463374607431768211456 - distance a b

-- What a range stands for. `range_endless` is a loop that the release build, which wraps, never
-- leaves (the step behind the last value is no `i128`) or that pushes more than `i128_max` values
-- (the difference was none, and its wrapped count is small). With overflow checks, both panic.
pub data RangeParse : Type 0 where
  not_a_range : RangeParse
  range_overflow : RangeParse
  range_endless : RangeParse
  range_of : List Text → RangeParse

-- The closure `make`: an overflow if the count exceeds the limit.
unfoldable pub make_range : ℕ → (ℤ → Text) → ℤ → ℤ → RangeParse
unfolding steps wrapped_distance ℤ_leb difference_fits end_fits
make_range limit fmt a b =
    let count = suc (wrapped_distance a b) in
    let rising = ℤ_leb a b in
    if ltb limit count
    then range_overflow
    else if difference_fits a b && end_fits rising b
    then range_of (map fmt (steps rising count a))
    else range_endless

-- `inner.split("..")`
unfoldable pub split_dots : Text → List Text
split_dots [] = [] ∷ []
split_dots (c ∷ []) = (c ∷ []) ∷ []
split_dots (c ∷ d ∷ s) =
    let behind = split_dots s in
    let here = split_dots (d ∷ s) in
    if is_char b'.' c && is_char b'.' d
    then [] ∷ behind
    else elim here [ [] ↦ (c ∷ []) ∷ [] | first ∷ rest ↦ (c ∷ first) ∷ rest ]

abbrev pub is_digit : Char → Bool
is_digit c = leb b'0' (code c) && leb (code c) b'9'

-- The value of a text of digits behind the value of the digits read.
unfoldable pub digits_from : ℕ → Text → Option ℕ
digits_from n [] = some n
digits_from n (c ∷ s) =
    let rest = digits_from (n * 10 + (code c - b'0')) s in if is_digit c then rest else none

unfoldable pub parse_digits : Text → Option ℕ
unfolding digits_from
parse_digits [] = none
parse_digits (c ∷ s) = digits_from 0 (c ∷ s)

abbrev pub in_i128 : Bool → Option ℕ → Option ℤ
in_i128 negative none = none
in_i128 false (some n) = if leb n i128_max then some (pos n) else none
in_i128 true (some zero) = some (pos 0)
in_i128 true (some (suc n)) = if leb n i128_max then some (negsuc n) else none

-- `parse::<i128>()`: an optional sign and digits, in range.
unfoldable pub parse_i128 : Text → Option ℤ
unfolding parse_digits
parse_i128 [] = none
parse_i128 (c ∷ s) =
    if is_char b'-' c
    then in_i128 true (parse_digits s)
    else if is_char b'+' c
    then in_i128 false (parse_digits s)
    else in_i128 false (parse_digits (c ∷ s))

-- The character of a text at a position, as a text.
unfoldable pub pick : Text → ℕ → Text
pick t n = elim (get_elem? t n) [ none ↦ [] | some c ↦ c ∷ [] ]

-- The decimal digits of a number. The first argument bounds their number.
unfoldable pub digits : ℕ → ℕ → Text
unfolding pick
digits zero n = []
digits (suc f) n =
    let front = digits f (n / 10) in
    if ltb n 10 then pick (chars "0123456789") n else front ++ pick (chars "0123456789") (n % 10)

-- `to_string` of a number.
unfoldable pub ℤ_text : ℤ → Text
unfolding digits
ℤ_text (pos n) = digits (suc n) n
ℤ_text (negsuc n) = chars "-" ++ digits (suc (suc n)) (suc n)

abbrev pub has_two {ℓ} : {A : Type ℓ} → List A → Bool
has_two (x ∷ y ∷ rest) = true
has_two _ = false

unfoldable pub is_padded : Text → Bool
is_padded t = (begins_with t (chars "0") && has_two t) || begins_with t (chars "-0")

abbrev pub is_alphabetic : Char → Bool
is_alphabetic c =
    (leb b'a' (code c) && leb (code c) b'z') || (leb b'A' (code c) && leb (code c) b'Z')

-- `((n as u8) as char).to_string()`, between `A` and `z`.
unfoldable pub letter : ℤ → Text
unfolding pick
letter (pos n) =
    pick (chars "ABCDEFGHIJKLMNOPQRSTUVWXYZ[\\]^_`abcdefghijklmnopqrstuvwxyz") (n - b'A')
letter (negsuc n) = []

unfoldable pub letters : ℕ → Text → Text → RangeParse
unfolding make_range letter
letters limit (c ∷ []) (d ∷ []) =
    if is_alphabetic c && is_alphabetic d
    then make_range limit letter (pos (code c)) (pos (code d))
    else not_a_range
letters limit s t = not_a_range

unfoldable pub parse_range : ℕ → Text → RangeParse
unfolding split_dots parse_i128 is_padded make_range letters ℤ_text
parse_range limit inner = elim (split_dots inner) [
  | [] ↦ not_a_range
  | s ∷ [] ↦ not_a_range
  | s ∷ t ∷ [] ↦ elim (parse_i128 s) [
    | none ↦ letters limit s t
    | some a ↦ elim (parse_i128 t) [
      | none ↦ letters limit s t
      | some b ↦ if is_padded s || is_padded t then range_overflow else make_range limit ℤ_text a b
    ]
  ]
  | s ∷ t ∷ step ∷ [] ↦ elim (parse_i128 step) [ none ↦ not_a_range | some n ↦ range_overflow ]
  | s ∷ t ∷ step ∷ more ∷ rest ↦ not_a_range
]
