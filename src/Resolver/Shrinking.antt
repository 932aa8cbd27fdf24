-- ===== src/Resolver/Shrinking.antt =====
-- The first group of a word that expands: each of its options takes a brace away.
use Prim.Native.Char.{Char}
use doover.Base.{
  ℕ, ◌+◌, ◌≤◌, ◌<◌, true, not, Option, none, some, List, [], ◌∷◌, ◌++◌, ◌||◌, ◌≡◌, ◌≢◌, refl, sym,
  inl, inr, All, any, map, arith, Bool-cases, if◌then◌else◌,
}
use doover.Base.Chars.{Text, is_empty}
use doover.Resolver.Ranges.{
  parse_range, RangeParse, not_a_range, range_overflow, range_endless, range_of,
}
use doover.Resolver.Braces.{
  Mask, is_active, plain, scan_group, BraceParse, expand, overflow, endless, not_here, parse_brace,
  Group, no_group, too_wide, group_endless, group, behind_char, first_group, count_open,
}
use doover.Resolver.Unbraced.{
  has_no_open, has_no_open-count_open, HaveNoOpen, parse_range-HaveNoOpen,
}
use doover.Resolver.Expansion.{AreBelow, count_open-append, scan_group-AreBelow}

BelowIf : ℕ → BraceParse → Type 0
BelowIf n b =
    (options : List (List Mask)) (behind : List Mask)
    → b ≡ expand options behind
    → AreBelow n options behind

active : List Text → List (List Mask)
active = map (map (λ (c : Char). (c, true)))

active-below :
    (n : ℕ) (ts : List Text) (behind : List Mask)
    → count_open behind ≤ n
    → All (λ t. has_no_open t ≡ true) ts
    → All (λ part. count_open part + count_open behind ≤ n) (active ts)
unfolding active
active-below n [] behind le a = tt
active-below n (t ∷ ts) behind le (h, a) =
    (omega (arith, le, has_no_open-count_open t h), active-below n ts behind le a)

expand-injective :
    (o o' : List (List Mask)) (b b' : List Mask) → expand o b ≡ expand o' b' → (o ≡ o') × (b ≡ b')
expand-injective o o' b b' h = (cc, cc)

expand-BelowIf :
    (n : ℕ) (o : List (List Mask)) (b : List Mask) → AreBelow n o b → BelowIf n (expand o b)
unfolding BelowIf
expand-BelowIf n o b below o' b' h =
    let (e, e') = expand-injective o o' b b' h in rw (sym e, sym e') below

other-BelowIf :
    (n : ℕ) (b : BraceParse)
    → ((o : List (List Mask)) (r : List Mask) → b ≢ expand o r)
    → BelowIf n b
unfolding BelowIf
other-BelowIf n b never o r h = absurd (never o r h)

range-BelowIf :
    (n : ℕ) (behind : List Mask) (r : RangeParse)
    → count_open behind ≤ n
    → HaveNoOpen r
    → BelowIf n (elim r [
      | not_a_range ↦ not_here
      | range_overflow ↦ overflow
      | range_endless ↦ endless
      | range_of options ↦ expand (active options) behind
    ])
unfolding HaveNoOpen AreBelow
range-BelowIf n behind not_a_range le h = other-BelowIf n not_here (λ o r e. cc)
range-BelowIf n behind range_overflow le h = other-BelowIf n overflow (λ o r e. cc)
range-BelowIf n behind range_endless le h = other-BelowIf n endless (λ o r e. cc)
range-BelowIf n behind (range_of options) le h =
    expand-BelowIf n (active options) behind (le, active-below n options behind le (h options refl))

scanned-BelowIf :
    (n limit : ℕ) (g : Option (List (List Mask) × List Mask))
    → ((parts : List (List Mask)) (behind : List Mask)
        → g ≡ some (parts, behind)
        → AreBelow n parts behind)
    → BelowIf n (elim g [
      | none ↦ not_here
      | some ([], behind) ↦ not_here
      | some (interior ∷ [], behind) ↦
          if is_empty interior || any interior (λ (m : Mask). not m.1)
          then not_here
          else elim (parse_range limit (plain interior)) [
            | not_a_range ↦ not_here
            | range_overflow ↦ overflow
            | range_endless ↦ endless
            | range_of options ↦ expand (map (map (λ (c : Char). (c, true))) options) behind
          ]
      | some (first ∷ second ∷ more, behind) ↦ expand (first ∷ second ∷ more) behind
    ])
unfolding AreBelow active
scanned-BelowIf n limit none h = other-BelowIf n not_here (λ o r e. cc)
scanned-BelowIf n limit (some ([], behind)) h = other-BelowIf n not_here (λ o r e. cc)
scanned-BelowIf n limit (some (interior ∷ [], behind)) h =
    elim (Bool-cases (is_empty interior || any interior (λ (m : Mask). not m.1))) [
      | inl quoted ↦ rw quoted (other-BelowIf n not_here (λ o r e. cc))
      | inr open_range ↦ rw open_range (
          range-BelowIf n behind (parse_range limit (plain interior))
            (h (interior ∷ []) behind refl).0 (parse_range-HaveNoOpen limit (plain interior)))
    ]
scanned-BelowIf n limit (some (first ∷ second ∷ more, behind)) h =
    expand-BelowIf n (first ∷ second ∷ more) behind (h (first ∷ second ∷ more) behind refl)

parse_brace-BelowIf :
    (limit : ℕ) (tail : List Mask) → BelowIf (count_open tail) (parse_brace limit tail)
unfolding parse_brace
parse_brace-BelowIf limit tail =
    scanned-BelowIf (count_open tail) limit (scan_group 1 tail)
      (λ parts behind e. scan_group-AreBelow 1 tail parts behind e)

-- Each choice of an option leaves fewer braces than the word has.
unfoldable pub IsShrinking : ℕ → Group → Type 0
IsShrinking n g =
    (before : List Mask) (options : List (List Mask)) (behind : List Mask)
    → g ≡ group before options behind
    → All (λ option. count_open (before ++ option ++ behind) < n) options

group-injective :
    (b b' r r' : List Mask) (o o' : List (List Mask))
    → group b o r ≡ group b' o' r'
    → (b ≡ b') × (o ≡ o') × (r ≡ r')
group-injective b b' r r' o o' h = (cc, cc, cc)

group-IsShrinking :
    (n : ℕ) (b : List Mask) (o : List (List Mask)) (r : List Mask)
    → All (λ option. count_open (b ++ option ++ r) < n) o
    → IsShrinking n (group b o r)
unfolding IsShrinking
group-IsShrinking n b o r a b' o' r' h =
    let (e, e', e'') = group-injective b b' r r' o o' h in rw (sym e, sym e', sym e'') a

none-IsShrinking :
    (n : ℕ) (g : Group)
    → ((b : List Mask) (o : List (List Mask)) (r : List Mask) → g ≢ group b o r)
    → IsShrinking n g
unfolding IsShrinking
none-IsShrinking n g never b o r h = absurd (never b o r h)

-- The options of the group whose brace comes first.
here-All :
    (m : Mask) (rest : List Mask) (behind : List Mask) (options : List (List Mask))
    → is_active b'{' m ≡ true
    → All (λ part. count_open part + count_open behind ≤ count_open rest) options
    → All (λ option. count_open ([] ++ option ++ behind) < count_open (m ∷ rest)) options
unfolding count_open
here-All m rest behind [] opens a = tt
here-All m rest behind (o ∷ os) opens (h, a) =
    (rw opens (omega (arith, h, count_open-append o behind)), here-All m rest behind os opens a)

later-All :
    (m : Mask) (n : ℕ) (before behind : List Mask) (options : List (List Mask))
    → All (λ option. count_open (before ++ option ++ behind) < n) options
    → All
        (λ option.
          count_open ((m ∷ before) ++ option ++ behind) < (if is_active b'{' m then 1 else 0) + n)
        options
unfolding count_open
later-All m n before behind [] a = tt
later-All m n before behind (o ∷ os) (h, a) = (omega (arith, h), later-All m n before behind os a)

behind_char-IsShrinking :
    (m : Mask) (rest : List Mask) (g : Group)
    → IsShrinking (count_open rest) g
    → IsShrinking (count_open (m ∷ rest)) (behind_char m g)
unfolding IsShrinking count_open
behind_char-IsShrinking m rest no_group s b o r h = cc
behind_char-IsShrinking m rest too_wide s b o r h = cc
behind_char-IsShrinking m rest group_endless s b o r h = cc
behind_char-IsShrinking m rest (group before options behind) s b o r h =
    let (e, e', e'') = group-injective (m ∷ before) b behind r options o h in
    rw (sym e, sym e', sym e'')
      (later-All m (count_open rest) before behind options (s before options behind refl))

tried-IsShrinking :
    (m : Mask) (rest : List Mask) (p : BraceParse) (later : Group)
    → is_active b'{' m ≡ true
    → BelowIf (count_open rest) p
    → IsShrinking (count_open (m ∷ rest)) later
    → IsShrinking (count_open (m ∷ rest)) (elim p [
      | expand options behind ↦ group [] options behind
      | overflow ↦ too_wide
      | endless ↦ group_endless
      | not_here ↦ later
    ])
unfolding BelowIf AreBelow
tried-IsShrinking m rest (expand options behind) later opens b s =
    group-IsShrinking (count_open (m ∷ rest)) [] options behind
      (here-All m rest behind options opens (b options behind refl).1)
tried-IsShrinking m rest overflow later opens b s =
    none-IsShrinking (count_open (m ∷ rest)) too_wide (λ x y z e. cc)
tried-IsShrinking m rest endless later opens b s =
    none-IsShrinking (count_open (m ∷ rest)) group_endless (λ x y z e. cc)
tried-IsShrinking m rest not_here later opens b s = s

pub first_group-IsShrinking :
    (limit : ℕ) (w : List Mask) → IsShrinking (count_open w) (first_group limit w)
unfolding first_group
first_group-IsShrinking limit [] = none-IsShrinking (count_open []) no_group (λ x y z e. cc)
first_group-IsShrinking limit (m ∷ rest) =
    let later =
      behind_char-IsShrinking m rest (first_group limit rest)
        (first_group-IsShrinking limit rest) in
    elim (Bool-cases (is_active b'{' m)) [
      | inl opens ↦ rw opens (
          tried-IsShrinking m rest (parse_brace limit rest) (behind_char m (first_group limit rest))
            opens (parse_brace-BelowIf limit rest) later)
      | inr other ↦ rw other later
    ]
