-- ===== src/Resolver/Braces.antt =====
-- crates/doover-core/src/resolver.rs: `expand_braces_masked`. A character carries whether it is
-- unquoted.
use Prim.Native.Char.{Char}
use doover.Base.{
  ℕ, zero, suc, ◌+◌, ◌-◌, Bool, true, not, Option, none, some, List, [], ◌∷◌, ◌++◌, ◌&&◌, ◌||◌, any,
  map, length, ltb, leb, ◌==◌, if◌then◌else◌,
}
use doover.Base.Chars.{Text, is_char, is_empty}
use doover.Resolver.Ranges.{parse_range, not_a_range, range_overflow, range_endless, range_of}

abbrev pub Mask : Type 0
Mask = Char × Bool

-- `== (c, true)`
abbrev pub is_active : ℕ → Mask → Bool
is_active n (c, exp) = exp && is_char n c

abbrev pub plain : List Mask → Text
plain = map (λ (m : Mask). m.0)

-- A character goes to the first part.
unfoldable pub to_first : Mask → List (List Mask) → List (List Mask)
to_first m [] = (m ∷ []) ∷ []
to_first m (first ∷ more) = (m ∷ first) ∷ more

-- A group from behind its `{`: its parts between the commas of depth 1, and what follows its `}`.
-- The depth counts the open braces, the first included.
unfoldable pub scan_group : ℕ → List Mask → Option (List (List Mask) × List Mask)
unfolding to_first
scan_group depth [] = none
scan_group depth (m ∷ rest) =
    if is_active b'}' m && leb depth 1
    then some ([] ∷ [], rest)
    else elim (scan_group
        (if is_active b'{' m then suc depth else if is_active b'}' m then depth - 1 else depth)
        rest) [
          | none ↦ none
          | some (parts, behind) ↦
              if is_active b',' m && depth == 1
              then some ([] ∷ parts, behind)
              else some (to_first m parts, behind)
        ]

pub data BraceParse : Type 0 where
  expand : List (List Mask) → List Mask → BraceParse
  overflow : BraceParse
  endless : BraceParse
  not_here : BraceParse

-- `parse_brace` at the `{` in front of the given characters.
unfoldable pub parse_brace : ℕ → List Mask → BraceParse
unfolding scan_group
parse_brace limit tail = elim (scan_group 1 tail) [
  | none ↦ not_here
  | some ([], behind) ↦ not_here
  | some (interior ∷ [], behind) ↦
      if is_empty interior || any interior (λ (m : Mask). not m.1)
      then not_here
      else elim (parse_range limit (plain interior)) [
        | not_a_range ↦ not_here
        | range_overflow ↦ overflow
        | range_endless ↦ endless
        | range_of options ↦ expand (map (map (λ (c : Char). (c, true))) options) behind
      ]
  | some (first ∷ second ∷ more, behind) ↦ expand (first ∷ second ∷ more) behind
]

-- The first group that expands: the characters before it, its options, and those behind it.
pub data Group : Type 0 where
  no_group : Group
  too_wide : Group
  group_endless : Group
  group : List Mask → List (List Mask) → List Mask → Group

abbrev pub behind_char : Mask → Group → Group
behind_char m no_group = no_group
behind_char m too_wide = too_wide
behind_char m group_endless = group_endless
behind_char m (group before options rest) = group (m ∷ before) options rest

unfoldable pub first_group : ℕ → List Mask → Group
unfolding parse_brace
first_group limit [] = no_group
first_group limit (m ∷ rest) =
    let later = behind_char m (first_group limit rest) in
    if is_active b'{' m
    then elim (parse_brace limit rest) [
      | expand options behind ↦ group [] options behind
      | overflow ↦ too_wide
      | endless ↦ group_endless
      | not_here ↦ later
    ]
    else later

-- What is expanded so far; too much; a range whose loop does not end; or the fuel gave out.
pub data Expansion : Type 0 where
  words : List (List Mask) → Expansion
  too_many : Expansion
  expansion_endless : Expansion
  no_fuel : Expansion

abbrev pub and_then : Expansion → (List (List Mask) → Expansion) → Expansion
and_then (words out) f = f out
and_then too_many f = too_many
and_then expansion_endless f = expansion_endless
and_then no_fuel f = no_fuel

-- The loop over the options of a group.
unfoldable pub each_option :
    (List (List Mask) → List Mask → Expansion)
    → List Mask
    → List Mask
    → List (List Mask)
    → List (List Mask)
    → Expansion
each_option recur before behind [] out = words out
each_option recur before behind (option ∷ options) out =
    and_then (recur out (before ++ option ++ behind)) (each_option recur before behind options)

unfoldable pub push_word : ℕ → List (List Mask) → List Mask → Expansion
push_word limit out chars =
    if ltb limit (length (out ++ (chars ∷ []))) then too_many else words (out ++ (chars ∷ []))

-- The fuel bounds the depth of the calls.
unfoldable pub expand_rec : ℕ → ℕ → List (List Mask) → List Mask → Expansion
unfolding first_group each_option push_word
expand_rec zero limit out chars = no_fuel
expand_rec (suc fuel) limit out chars =
    if ltb limit (length out) then too_many else elim (first_group limit chars) [
      | no_group ↦ push_word limit out chars
      | too_wide ↦ too_many
      | group_endless ↦ expansion_endless
      | group before options behind ↦ each_option (expand_rec fuel limit) before behind options out
    ]

-- The unquoted `{` of a word.
unfoldable pub count_open : List Mask → ℕ
count_open [] = 0
count_open (m ∷ rest) = (if is_active b'{' m then 1 else 0) + count_open rest

-- Each call takes a `{` away.
unfoldable pub expand_braces_masked : ℕ → List Mask → Expansion
unfolding expand_rec count_open
expand_braces_masked limit chars = expand_rec (suc (count_open chars)) limit [] chars
