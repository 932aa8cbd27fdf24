-- ===== src/Resolver/Unbraced.antt =====
-- What a range stands for has no brace in it.
use doover.Base.{
  ℕ, zero, suc, ◌-◌, ◌%◌, Bool, true, not, Option, none, some, List, [], ◌∷◌, ◌++◌, ◌&&◌, ◌||◌, ◌≡◌,
  refl, subst, inl, inr, All, map, ltb, arith, Bool-cases, if◌then◌else◌,
}
use Prim.Native.Nat.{◌/◌}
use Prim.Native.Char.{Char, code}
use doover.Base.Chars.{Text, chars, is_char}
use doover.Resolver.Ranges.{
  ℤ, pos, negsuc, pick, digits, ℤ_text, letter, letters, steps, wrapped_distance, ℤ_leb,
  difference_fits, end_fits, make_range, split_dots, parse_i128, is_padded, is_alphabetic,
  parse_range, RangeParse, not_a_range, range_overflow, range_of,
}
use doover.Resolver.Braces.{count_open}

pub has_no_open : Text → Bool
has_no_open [] = true
has_no_open (c ∷ s) = not (is_char b'{' c) && has_no_open s

pub has_no_open-count_open :
    (t : Text) → has_no_open t ≡ true → count_open (map (λ (c : Char). (c, true)) t) ≡ 0
unfolding has_no_open count_open
has_no_open-count_open [] h = refl
has_no_open-count_open (c ∷ t) h = elim (Bool-cases (is_char b'{' c)) [
  | inl opens ↦ cc (rw opens at h)
  | inr other ↦ rw other (omega (arith, has_no_open-count_open t (rw other at h)))
]

has_no_open-append :
    (s t : Text) → has_no_open s ≡ true → has_no_open t ≡ true → has_no_open (s ++ t) ≡ true
unfolding has_no_open
has_no_open-append [] t h k = k
has_no_open-append (c ∷ s) t h k = elim (Bool-cases (is_char b'{' c)) [
  | inl opens ↦ cc (rw opens at h)
  | inr other ↦ rw other (has_no_open-append s t (rw other at h) k)
]

has_no_open-pick : (t : Text) (n : ℕ) → has_no_open t ≡ true → has_no_open (pick t n) ≡ true
unfolding has_no_open pick
has_no_open-pick [] n h = refl
has_no_open-pick (c ∷ t) zero h = elim (Bool-cases (is_char b'{' c)) [
  | inl opens ↦ cc (rw opens at h)
  | inr other ↦ rw other refl
]
has_no_open-pick (c ∷ t) (suc n) h = elim (Bool-cases (is_char b'{' c)) [
  | inl opens ↦ cc (rw opens at h)
  | inr other ↦ has_no_open-pick t n (rw other at h)
]

digits-has_no_open : (f n : ℕ) → has_no_open (digits f n) ≡ true
unfolding has_no_open digits
digits-has_no_open zero n = refl
digits-has_no_open (suc f) n = elim (Bool-cases (ltb n 10)) [
  | inl last_one ↦ rw last_one (has_no_open-pick (chars "0123456789") n refl)
  | inr more ↦ rw more (
      has_no_open-append (digits f (n / 10)) (pick (chars "0123456789") (n % 10))
        (digits-has_no_open f (n / 10)) (has_no_open-pick (chars "0123456789") (n % 10) refl))
]

ℤ_text-has_no_open : (n : ℤ) → has_no_open (ℤ_text n) ≡ true
unfolding ℤ_text has_no_open
ℤ_text-has_no_open (pos n) = digits-has_no_open (suc n) n
ℤ_text-has_no_open (negsuc n) = digits-has_no_open (suc (suc n)) (suc n)

letter-has_no_open : (n : ℤ) → has_no_open (letter n) ≡ true
unfolding letter has_no_open
letter-has_no_open (pos n) =
    has_no_open-pick (chars "ABCDEFGHIJKLMNOPQRSTUVWXYZ[\\]^_`abcdefghijklmnopqrstuvwxyz")
      (n - b'A') refl
letter-has_no_open (negsuc n) = refl

unfoldable pub HaveNoOpen : RangeParse → Type 0
HaveNoOpen r = (ts : List Text) → r ≡ range_of ts → All (λ t. has_no_open t ≡ true) ts

map-All :
    (fmt : ℤ → Text)
    → ((n : ℤ) → has_no_open (fmt n) ≡ true)
    → (ns : List ℤ) → All (λ t. has_no_open t ≡ true) (map fmt ns)
map-All fmt h [] = tt
map-All fmt h (n ∷ ns) = (h n, map-All fmt h ns)

range_of-injective : (s t : List Text) → range_of s ≡ range_of t → s ≡ t
range_of-injective s t h = cc

make_range-HaveNoOpen :
    (limit : ℕ) (fmt : ℤ → Text) (a b : ℤ)
    → ((n : ℤ) → has_no_open (fmt n) ≡ true)
    → HaveNoOpen (make_range limit fmt a b)
unfolding HaveNoOpen make_range
make_range-HaveNoOpen limit fmt a b h ts e =
    elim (Bool-cases (ltb limit (suc (wrapped_distance a b)))) [
      | inl wide ↦ cc (rw wide at e)
      | inr narrow ↦ elim (Bool-cases (difference_fits a b && end_fits (ℤ_leb a b) b)) [
        | inr endless ↦ cc (rw (narrow, endless) at e)
        | inl room ↦
            subst (All (λ t. has_no_open t ≡ true))
              (range_of-injective (map fmt (steps (ℤ_leb a b) (suc (wrapped_distance a b)) a)) ts
                (rw (narrow, room) at e))
              (map-All fmt h (steps (ℤ_leb a b) (suc (wrapped_distance a b)) a))
      ]
    ]

letters-HaveNoOpen : (limit : ℕ) (s t : Text) → HaveNoOpen (letters limit s t)
unfolding letters HaveNoOpen
letters-HaveNoOpen limit [] t ts e = cc
letters-HaveNoOpen limit (c ∷ []) [] ts e = cc
letters-HaveNoOpen limit (c ∷ []) (d ∷ []) ts e =
    elim (Bool-cases (is_alphabetic c && is_alphabetic d)) [
      | inl both ↦
          make_range-HaveNoOpen limit letter (pos (code c)) (pos (code d)) letter-has_no_open ts
            (rw both at e)
      | inr other ↦ cc (rw other at e)
    ]
letters-HaveNoOpen limit (c ∷ []) (d ∷ x ∷ t) ts e = cc
letters-HaveNoOpen limit (c ∷ x ∷ s) t ts e = cc

numbers-HaveNoOpen :
    (limit : ℕ) (s t : Text) (a b : ℤ)
    → HaveNoOpen
        (if is_padded s || is_padded t then range_overflow else make_range limit ℤ_text a b)
unfolding HaveNoOpen
numbers-HaveNoOpen limit s t a b ts e = elim (Bool-cases (is_padded s || is_padded t)) [
  | inl padded ↦ cc (rw padded at e)
  | inr bare ↦ make_range-HaveNoOpen limit ℤ_text a b ℤ_text-has_no_open ts (rw bare at e)
]

pair-HaveNoOpen :
    (limit : ℕ) (s t : Text) (x y : Option ℤ)
    → HaveNoOpen (elim x [
      | none ↦ letters limit s t
      | some a ↦ elim y [
        | none ↦ letters limit s t
        | some b ↦
            if is_padded s || is_padded t then range_overflow else make_range limit ℤ_text a b
      ]
    ])
pair-HaveNoOpen limit s t none y = letters-HaveNoOpen limit s t
pair-HaveNoOpen limit s t (some a) none = letters-HaveNoOpen limit s t
pair-HaveNoOpen limit s t (some a) (some b) = numbers-HaveNoOpen limit s t a b

stepped-HaveNoOpen :
    (x : Option ℤ) → HaveNoOpen (elim x [ none ↦ not_a_range | some n ↦ range_overflow ])
unfolding HaveNoOpen
stepped-HaveNoOpen none ts e = cc
stepped-HaveNoOpen (some n) ts e = cc

pub parse_range-HaveNoOpen : (limit : ℕ) (inner : Text) → HaveNoOpen (parse_range limit inner)
unfolding parse_range
parse_range-HaveNoOpen limit inner = parts (split_dots inner)
  where
    parts :
        (ps : List Text)
        → HaveNoOpen (elim ps [
          | [] ↦ not_a_range
          | s ∷ [] ↦ not_a_range
          | s ∷ t ∷ [] ↦ elim (parse_i128 s) [
            | none ↦ letters limit s t
            | some a ↦ elim (parse_i128 t) [
              | none ↦ letters limit s t
              | some b ↦
                  if is_padded s || is_padded t then range_overflow else make_range limit ℤ_text a b
            ]
          ]
          | s ∷ t ∷ step ∷ [] ↦ elim (parse_i128 step) [
            | none ↦ not_a_range
            | some n ↦ range_overflow
          ]
          | s ∷ t ∷ step ∷ more ∷ rest ↦ not_a_range
        ])
    parts [] = stepped-HaveNoOpen none
    parts (s ∷ []) = stepped-HaveNoOpen none
    parts (s ∷ t ∷ []) = pair-HaveNoOpen limit s t (parse_i128 s) (parse_i128 t)
    parts (s ∷ t ∷ step ∷ []) = stepped-HaveNoOpen (parse_i128 step)
    parts (s ∷ t ∷ step ∷ more ∷ rest) = stepped-HaveNoOpen none
