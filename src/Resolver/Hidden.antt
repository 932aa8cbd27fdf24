-- ===== src/Resolver/Hidden.antt =====
-- Which glob matches the leading-dot rule lets through.
use mathlib.Core.Option.{some-injective}
use doover.Base.{
  ℕ, zero, suc, ◌+◌, Bool, true, false, not, some, List, [], ◌∷◌, ◌&&◌, ◌||◌, ◌≡◌, ◌↔◌, refl, sym,
  ◌∙◌, inl, inr, filter, get_elem?, arith, Bool-cases, if◌then◌else◌,
}
use doover.Base.Chars.{Text, chars, begins_with, same_text, split_at}
use doover.Resolver.Lexical.{is_dotted_at, allowed_from, is_filled, glob_match_allowed}

-- A component that a pattern's component at its position may match.
unfoldable pub is_visible : List Text → ℕ → Text → Bool
is_visible pats i comp =
    not (same_text comp (chars "."))
    && not (same_text comp (chars ".."))
    && (not (begins_with comp (chars ".")) || is_dotted_at pats i)

-- The components of a path below a base, empty ones left out.
abbrev pub filled_parts : Text → List Text
filled_parts relative = filter is_filled (split_at b'/' relative)

-- What the loop asks of one component.
kept : Bool → Bool → Bool → Bool → Bool → Bool
kept dot dots hidden dotted later =
    if dot || dots then false else if hidden && not dotted then false else later

kept-here :
    (dot dots hidden dotted later : Bool)
    → kept dot dots hidden dotted later ≡ (not dot && not dots && (not hidden || dotted)) && later
unfolding kept
kept-here true dots hidden dotted later = refl
kept-here false true hidden dotted later = refl
kept-here false false true true later = refl
kept-here false false true false later = refl
kept-here false false false dotted later = refl

-- The components from a position on are all visible.
unfoldable all_visible : List Text → ℕ → List Text → Bool
unfolding is_visible
all_visible pats i [] = true
all_visible pats i (c ∷ comps) = is_visible pats i c && all_visible pats (suc i) comps

allowed_from-all_visible :
    (pats : List Text) (i : ℕ) (comps : List Text)
    → allowed_from pats i comps ≡ all_visible pats i comps
unfolding allowed_from all_visible kept is_visible
allowed_from-all_visible pats i [] = refl
allowed_from-all_visible pats i (c ∷ comps) =
    rw (sym (allowed_from-all_visible pats (suc i) comps)) (
      kept-here (same_text c (chars ".")) (same_text c (chars "..")) (begins_with c (chars "."))
        (is_dotted_at pats i) (allowed_from pats (suc i) comps))

all_visible-each :
    (pats : List Text) (i : ℕ) (comps : List Text)
    → all_visible pats i comps ≡ true
    → (k j : ℕ) (comp : Text) → j ≡ i + k
    → get_elem? comps k ≡ some comp
    → is_visible pats j comp ≡ true
unfolding all_visible
all_visible-each pats i [] h k j comp e found = cc
all_visible-each pats i (c ∷ comps) h zero j comp e found =
    elim (Bool-cases (is_visible pats i c)) [
      | inr hidden ↦ cc (rw hidden at h)
      | inl seen ↦
          let here : j ≡ i = omega (arith, e) in
          let same : c ≡ comp = some-injective c comp found in rw (here, sym same) seen
    ]
all_visible-each pats i (c ∷ comps) h (suc k) j comp e found =
    elim (Bool-cases (is_visible pats i c)) [
      | inr hidden ↦ cc (rw hidden at h)
      | inl seen ↦
          all_visible-each pats (suc i) comps (rw seen at h) k j comp (omega (arith, e)) found
    ]

each-all_visible :
    (pats : List Text) (i : ℕ) (comps : List Text)
    → ((k j : ℕ) (comp : Text)
        → j ≡ i + k
        → get_elem? comps k ≡ some comp
        → is_visible pats j comp ≡ true)
    → all_visible pats i comps ≡ true
unfolding all_visible
each-all_visible pats i [] h = refl
each-all_visible pats i (c ∷ comps) h = rw (h zero i c (omega arith) refl) (
    each-all_visible pats (suc i) comps
      (λ k j comp e found. h (suc k) j comp (omega (arith, e)) found))

-- A match is let through exactly if each of its components, empty ones left out, is neither `.` nor
-- `..`, and begins with a dot only where the pattern's component at the same position does.
pub glob_match_allowed_iff :
    (relative : Text) (pats : List Text)
    → (glob_match_allowed relative pats ≡ true) ↔ (
        (k : ℕ) (comp : Text)
        → get_elem? (filled_parts relative) k ≡ some comp
        → is_visible (filter is_filled pats) k comp ≡ true)
unfolding glob_match_allowed
glob_match_allowed_iff relative pats = (
  λ h k comp found.
      all_visible-each (filter is_filled pats) 0 (filled_parts relative)
        (sym (allowed_from-all_visible (filter is_filled pats) 0 (filled_parts relative)) ∙ h) k k
        comp (omega arith) found,
  λ h.
      allowed_from-all_visible (filter is_filled pats) 0 (filled_parts relative)
      ∙ each-all_visible (filter is_filled pats) 0 (filled_parts relative)
          (λ k j comp e found. let here : j ≡ k = omega (arith, e) in rw here (h k comp found)),
)
