-- ===== src/Registry/Loading.antt =====
-- The index of a registry that `with_overlay` of crates/doover-core/src/registry.rs builds.
use doover.Base.{String, ◌≡◌, inl, inr, Option, none, some, List, [], ◌∷◌, subst}
use doover.Registry.Rules.{Rule, Checked, ok, ok-injective, Checked-cases}
use doover.Registry.Lookup.{Registry}
use doover.Registry.Overlay.{
  Warning, Listing, not_a_dir, no_listing, files, parse_rules, shipped_rules, builtin, overlay_file,
  overlay_files, with_overlay,
}
use doover.Registry.Ids.{IsIndexed, insert_rules-IsIndexed, from_rules-IsIndexed}

module _ (yaml : String → String → Checked (List Rule)) where
  builtin-IsIndexed :
      (shipped : List (String × String)) {r : Registry} → builtin yaml shipped ≡ ok r → IsIndexed r
  unfolding builtin
  builtin-IsIndexed shipped h = elim (Checked-cases (shipped_rules yaml shipped)) [
    | inl (rules, e) ↦ from_rules-IsIndexed rules (rw (e, builtin) at h)
    | inr (failure, e) ↦ cc (rw (e, builtin) at h)
  ]

  overlay_file-IsIndexed :
      (r : Registry) (warnings : List Warning) (file : String) (contents : Option String)
      → IsIndexed r
      → IsIndexed (overlay_file yaml r warnings file contents).0
  unfolding overlay_file
  overlay_file-IsIndexed r warnings file none v = v
  overlay_file-IsIndexed r warnings file (some contents) v =
      elim (Checked-cases (parse_rules yaml file contents)) [
        | inl (rules, e) ↦ rw (e, overlay_file) (insert_rules-IsIndexed r rules warnings v)
        | inr (failure, e) ↦ rw (e, overlay_file) v
      ]

  overlay_files-IsIndexed :
      (r : Registry) (warnings : List Warning) (entries : List (String × Option String))
      → IsIndexed r
      → IsIndexed (overlay_files yaml r warnings entries).0
  unfolding overlay_files
  overlay_files-IsIndexed r warnings [] v = v
  overlay_files-IsIndexed r warnings ((file, contents) ∷ rest) v =
      overlay_files-IsIndexed (overlay_file yaml r warnings file contents).0
        (overlay_file yaml r warnings file contents).1 rest
        (overlay_file-IsIndexed r warnings file contents v)

  -- The index of a registry built with any overlay is true to its rules: every entry leads to the
  -- rule with that id, every rule is found under its own id at its own position (so no id occurs
  -- twice), and the shipped rules are a front part of the rules.
  pub with_overlay-IsIndexed :
      (shipped : List (String × String)) (listing : Listing) {r : Registry}
      {warnings : List Warning}
      → with_overlay yaml shipped listing ≡ ok (r, warnings)
      → IsIndexed r
  unfolding with_overlay
  with_overlay-IsIndexed shipped not_a_dir {r} {warnings} w =
      elim (Checked-cases (builtin yaml shipped)) [
        | inl (base, e) ↦
            subst (λ (p : Registry × List Warning). IsIndexed p.0)
              (ok-injective (base, []) (r, warnings) (rw (e, with_overlay) at w))
              (builtin-IsIndexed shipped e)
        | inr (failure, e) ↦ cc (rw (e, with_overlay) at w)
      ]
  with_overlay-IsIndexed shipped (no_listing dir) w = elim (Checked-cases (builtin yaml shipped)) [
    | inl (base, e) ↦ cc (rw (e, with_overlay) at w)
    | inr (failure, e) ↦ cc (rw (e, with_overlay) at w)
  ]
  with_overlay-IsIndexed shipped (files entries) {r} {warnings} w =
      elim (Checked-cases (builtin yaml shipped)) [
        | inl (base, e) ↦
            subst (λ (p : Registry × List Warning). IsIndexed p.0)
              (ok-injective (overlay_files yaml base [] entries) (r, warnings)
                (rw (e, with_overlay) at w))
              (overlay_files-IsIndexed base [] entries (builtin-IsIndexed shipped e))
        | inr (failure, e) ↦ cc (rw (e, with_overlay) at w)
      ]
