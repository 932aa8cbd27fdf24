-- ===== src/Registry/Overlay.antt =====
-- crates/doover-core/src/registry.rs: building a registry and adding a user's rules to it.
use doover.Base.{
  ℕ, suc, String, Bool, Option, none, some, List, [], ◌∷◌, ◌++◌, ◌&&◌, ltb, any, take, set, length,
  get_elem?, if◌then◌else◌, str_eq,
}
use doover.Registry.Rules.{
  Effect, effect_rank, Rule, RegistryError, duplicate_id, unreadable, Checked, ok, err, ◌>>=◌, ◌>>◌,
  is_protected, validate,
}
use doover.Registry.Lookup.{Registry, is_text}

-- The `HashMap` from rule ids to positions: an insertion covers the older entry of its key.
abbrev pub Index : Type 0
Index = List (String × ℕ)

unfoldable pub index_get : Index → String → Option ℕ
index_get [] k = none
index_get ((j, i) ∷ m) k = if str_eq j k then some i else index_get m k

-- The loop of `from_rules` over the rules from position `i` on.
unfoldable pub index_rules : ℕ → List Rule → Index → Checked Index
unfolding index_get
index_rules i [] index = ok index
index_rules i (rule ∷ rules) index = elim (index_get index rule.id) [
  | some _ ↦ err (duplicate_id rule.id)
  | none ↦ index_rules (suc i) rules ((rule.id, i) ∷ index)
]

unfoldable pub from_rules : List Rule → Checked Registry
unfolding index_rules
from_rules rules = do
  index ← index_rules 0 rules []
  ok (record { rules = rules; index = index; shipped_count = length rules })

pub data Warning : Type 0 where
  skipping : String → RegistryError → Warning
  refusing_downgrade : String → Effect → Effect → Warning
  shadows : String → String → Warning

-- A shipped protected rule for the same command, with a stronger effect.
unfoldable pub shadows_protected : List Rule → Rule → String → Bool
shadows_protected shipped rule cmd = any shipped (λ s.
    is_text s.matcher.command cmd
    && is_protected s.effect
    && ltb (effect_rank rule.effect) (effect_rank s.effect))

unfoldable pub shadow_warning : List Rule → Rule → List Warning → List Warning
unfolding shadows_protected is_protected
shadow_warning shipped rule warnings = elim rule.matcher.command [
  | none ↦ warnings
  | some cmd ↦
      if shadows_protected shipped rule cmd
      then warnings ++ (shadows rule.id cmd ∷ [])
      else warnings
]

-- The test by which an overlay rule with a known id is refused.
unfoldable pub downgrades : Rule → Rule → Bool
unfolding is_protected
downgrades shipped rule =
    is_protected shipped.effect && ltb (effect_rank rule.effect) (effect_rank shipped.effect)

-- The branch of `insert_overlay` for an id that is taken: refused, or put in the old one's place.
unfoldable pub replace_rule :
    Registry → ℕ → Rule → Option Rule → List Warning → Registry × List Warning
replace_rule r i rule none warnings = (r, warnings)
replace_rule r i rule (some shipped) warnings =
    if downgrades shipped rule
    then (r, warnings ++ (refusing_downgrade rule.id shipped.effect rule.effect ∷ []))
    else (record r { rules = set r.rules i rule }, warnings)

-- The branch of `insert_overlay` for a new id.
unfoldable pub push_rule : Registry → Rule → List Warning → Registry × List Warning
push_rule r rule warnings = (
  record r { rules = r.rules ++ (rule ∷ []); index = (rule.id, length r.rules) ∷ r.index },
  shadow_warning (take r.shipped_count r.rules) rule warnings,
)

unfoldable pub insert_overlay : Registry → Rule → List Warning → Registry × List Warning
insert_overlay r rule warnings = elim (index_get r.index rule.id) [
  | some i ↦ replace_rule r i rule (get_elem? r.rules i) warnings
  | none ↦ push_rule r rule warnings
]

-- `for rule in rules { registry.insert_overlay(rule, &mut warnings) }`
unfoldable pub insert_rules : Registry → List Rule → List Warning → Registry × List Warning
insert_rules r [] warnings = (r, warnings)
insert_rules r (rule ∷ rules) warnings =
    let (r', warnings') = insert_overlay r rule warnings in insert_rules r' rules warnings'

-- `validate` of each rule of a file.
unfoldable pub validate_all : String → List Rule → Checked (Unit {0})
unfolding validate
validate_all file [] = ok tt
validate_all file (rule ∷ rules) = do validate file rule; validate_all file rules

-- The overlay directory: what `read_dir` gives after the filter on the extension and the sort.
-- A file that cannot be read has no contents.
pub data Listing : Type 0 where
  not_a_dir : Listing
  no_listing : String → Listing
  files : List (String × Option String) → Listing

-- `yaml` is the YAML parser, `from_str` at the type of a registry file.
module _ (yaml : String → String → Checked (List Rule)) where
  unfoldable pub parse_rules : String → String → Checked (List Rule)
  unfolding validate_all
  parse_rules file contents = do rules ← yaml file contents; validate_all file rules; ok rules

  -- The loop of `builtin` over the embedded files.
  unfoldable pub shipped_rules : List (String × String) → Checked (List Rule)
  unfolding parse_rules
  shipped_rules [] = ok []
  shipped_rules ((file, contents) ∷ rest) = do
    rules ← parse_rules file contents
    more ← shipped_rules rest
    ok (rules ++ more)

  unfoldable pub builtin : List (String × String) → Checked Registry
  unfolding shipped_rules from_rules
  builtin shipped = do rules ← shipped_rules shipped; from_rules rules

  -- One file of the overlay: what it holds is inserted, or a warning says why it is skipped.
  unfoldable pub overlay_file :
      Registry → List Warning → String → Option String → Registry × List Warning
  unfolding parse_rules insert_rules
  overlay_file r warnings file none = (r, warnings ++ (skipping file (unreadable file) ∷ []))
  overlay_file r warnings file (some contents) = elim (parse_rules file contents) [
    | err e ↦ (r, warnings ++ (skipping file e ∷ []))
    | ok rules ↦ insert_rules r rules warnings
  ]

  unfoldable pub overlay_files :
      Registry → List Warning → List (String × Option String) → Registry × List Warning
  unfolding overlay_file
  overlay_files r warnings [] = (r, warnings)
  overlay_files r warnings ((file, contents) ∷ rest) =
      let (r', warnings') = overlay_file r warnings file contents in overlay_files r' warnings' rest

  unfoldable pub with_overlay : List (String × String) → Listing → Checked (Registry × List Warning)
  unfolding builtin overlay_files
  with_overlay shipped not_a_dir = do r ← builtin shipped; ok (r, [])
  with_overlay shipped (no_listing dir) = do builtin shipped >>= λ _. err (unreadable dir)
  with_overlay shipped (files entries) = do r ← builtin shipped; ok (overlay_files r [] entries)
