-- ===== src/Registry/Rules.antt =====
-- crates/doover-core/src/registry.rs: the rules and what makes one valid.
use Prim.Native.Nat.{compare, Ordering}
use doover.Base.{
  ℕ, String, Bool, true, false, Option, none, some, List, ◌||◌, ◌≡◌, refl, ◌⊎◌, inl, inr, leb,
  if◌then◌else◌, is_blank,
}

pub data Effect : Type 0 where
  safe mutating externalizing destructive irreversible : Effect

-- The derived order: the position in the declaration.
abbrev pub effect_rank : Effect → ℕ
effect_rank safe = 0
effect_rank mutating = 1
effect_rank externalizing = 2
effect_rank destructive = 3
effect_rank irreversible = 4

-- `Ord::cmp` of effects.
abbrev pub effect_cmp : Effect → Effect → Ordering
effect_cmp a b = compare (effect_rank a) (effect_rank b)

pub data UndoStrategy : Type 0 where
  snapshot_restore no_undo recompute : UndoStrategy

pub data PathSource : Type 0 where
  positional positional_last redirect_target repo no_paths : PathSource

pub record ScopeSpec : Type 0 where
  pub paths : PathSource
  pub globs : Bool
  pub skip : ℕ
  pub flag_args : List String
  pub path_flags : List String
  pub recursive_flags : List String

pub record MatchSpec : Type 0 where
  pub command : Option String
  pub subcommand : Option String
  pub flags_any : Option (List String)
  pub redirect : Option String

pub record Rule : Type 0 where
  pub id : String
  pub matcher : MatchSpec
  pub effect : Effect
  pub scope : Option ScopeSpec
  pub undo : UndoStrategy
  pub notes : Option String

-- What `RegistryError` and the overlay warnings carry; `unparsable` and `unreadable` stand for
-- the errors of the YAML parser and of the file system.
pub data RegistryError : Type 0 where
  unparsable : String → RegistryError
  invalid_rule : String → String → String → RegistryError
  duplicate_id : String → RegistryError
  unreadable : String → RegistryError

pub data Checked {ℓ} (A : Type ℓ) : Type ℓ where
  ok : A → Checked A
  err : RegistryError → Checked A

infixl 5 ◌>>=◌ ◌>>◌
abbrev pub ◌>>=◌ {ℓ κ} : {A : Type ℓ} {B : Type κ} → Checked A → (A → Checked B) → Checked B
ok a >>= f = f a
err e >>= f = err e

abbrev pub ◌>>◌ {ℓ} : {B : Type ℓ} → Checked (Unit {0}) → Checked B → Checked B
m >> k = m >>= λ _. k

pub Checked-cases {ℓ} :
    {A : Type ℓ} (c : Checked A) → ((a : A) × (c ≡ ok a)) ⊎ ((e : RegistryError) × (c ≡ err e))
Checked-cases (ok a) = inl (a, refl)
Checked-cases (err e) = inr (e, refl)

pub ok-injective {ℓ} : {A : Type ℓ} (a b : A) → ok a ≡ ok b → a ≡ b
ok-injective a b h = cc

-- Externalizing and above.
unfoldable pub is_protected : Effect → Bool
is_protected e = leb (effect_rank externalizing) (effect_rank e)

abbrev pub is_some {ℓ} : {A : Type ℓ} → Option A → Bool
is_some none = false
is_some (some a) = true

-- The `match (&m.command, &m.redirect)` of `validate`.
unfoldable pub check_match : MatchSpec → (String → Checked (Unit {0})) → Checked (Unit {0})
check_match m reject = elim m.command [
  | some c ↦ elim m.redirect [
    | some r ↦ reject "match must have exactly one of `command` or `redirect`, not both"
    | none ↦ ok tt
  ]
  | none ↦ elim m.redirect [
    | none ↦ reject "match must have one of `command` or `redirect`"
    | some r ↦
        if is_some m.subcommand || is_some m.flags_any
        then reject "`subcommand`/`flags_any` require `command`"
        else ok tt
  ]
]

-- The closure `fail` of `validate`.
unfoldable pub fail : String → Rule → String → Checked (Unit {0})
fail file rule reason = err (invalid_rule file rule.id reason)

unfoldable pub validate : String → Rule → Checked (Unit {0})
unfolding check_match fail is_blank
validate file rule =
    if is_blank rule.id
    then fail file rule "empty id"
    else check_match rule.matcher (fail file rule)
