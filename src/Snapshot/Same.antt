-- ===== src/Snapshot/Same.antt =====
-- crates/doover-core/src/snapshot.rs: `describes_same_state`; and `same_state` of
-- crates/doover-core/src/undo.rs, which lifts it to the paths of an action.
use Prim.Native.Nat.{Ordering, compare}
use Prim.Native.String.{compare as str_compare}
use doover.Base.{
  ℕ, String, str_eq, Bool, true, false, not, Option, none, some, List, [], ◌∷◌, ◌&&◌, ◌||◌, length,
  all, find, ◌==◌, if◌then◌else◌,
}
use doover.Paths.{Component, root_dir, cur_dir, parent_dir, normal, FilePath}
use doover.Snapshot.Manifest.{
  Root, present, absent, EntryKind, file, dir, symlink, fifo, Entry, Manifest,
}

-- `==` of paths and of entries, by their parts.
unfoldable pub component_eq : Component → Component → Bool
component_eq root_dir root_dir = true
component_eq cur_dir cur_dir = true
component_eq parent_dir parent_dir = true
component_eq (normal s) (normal t) = str_eq s t
component_eq _ _ = false

unfoldable pub list_eq {ℓ} : {A : Type ℓ} → (A → A → Bool) → List A → List A → Bool
list_eq f [] [] = true
list_eq f (x ∷ xs) (y ∷ ys) = f x y && list_eq f xs ys
list_eq f _ _ = false

unfoldable pub path_eq : FilePath → FilePath → Bool
unfolding component_eq list_eq
path_eq = list_eq component_eq

unfoldable pub xattr_eq : String × List ℕ → String × List ℕ → Bool
xattr_eq (name, value) (name', value') = str_eq name name' && list_eq (λ a b. a == b) value value'

unfoldable pub entry_kind_eq : EntryKind → EntryKind → Bool
unfolding xattr_eq
entry_kind_eq (file hash len mode mtime xattrs) (file hash' len' mode' mtime' xattrs') =
    str_eq hash hash'
    && len == len'
    && mode == mode'
    && mtime == mtime'
    && list_eq xattr_eq xattrs xattrs'
entry_kind_eq (dir mode) (dir mode') = mode == mode'
entry_kind_eq (symlink target) (symlink target') = path_eq target target'
entry_kind_eq (fifo mode) (fifo mode') = mode == mode'
entry_kind_eq _ _ = false

unfoldable pub entry_eq : Entry → Entry → Bool
unfolding entry_kind_eq
entry_eq x y = path_eq x.rel y.rel && entry_kind_eq x.kind y.kind

unfoldable pub root_eq : Root → Root → Bool
root_eq present present = true
root_eq absent absent = true
root_eq _ _ = false

-- The derived order of the kinds of component.
unfoldable pub component_rank : Component → ℕ
component_rank root_dir = 0
component_rank cur_dir = 1
component_rank parent_dir = 2
component_rank (normal s) = 3

unfoldable pub component_cmp : Component → Component → Ordering
component_cmp (normal s) (normal t) = str_compare s t
component_cmp a b = compare (component_rank a) (component_rank b)

unfoldable pub path_leb : FilePath → FilePath → Bool
path_leb [] q = true
path_leb (a ∷ p) [] = false
path_leb (a ∷ p) (b ∷ q) =
    let rest = path_leb p q in
    elim (component_cmp a b) [ Ordering.lt ↦ true | Ordering.eq ↦ rest | Ordering.gt ↦ false ]

-- `sort` and `sort_by_key`, which are stable, for a key that is a path.
unfoldable pub insert_by {ℓ} : {A : Type ℓ} → (A → FilePath) → A → List A → List A
insert_by key x [] = x ∷ []
insert_by key x (y ∷ ys) =
    let rest = insert_by key x ys in if path_leb (key x) (key y) then x ∷ y ∷ ys else y ∷ rest

unfoldable pub sort_by {ℓ} : {A : Type ℓ} → (A → FilePath) → List A → List A
sort_by key [] = []
sort_by key (x ∷ xs) = insert_by key x (sort_by key xs)

-- `a.iter().zip(b.iter()).all(..)`
unfoldable pub zip_all {ℓ} : {A : Type ℓ} → (A → A → Bool) → List A → List A → Bool
zip_all f (x ∷ xs) (y ∷ ys) = f x y && zip_all f xs ys
zip_all f _ _ = true

unfoldable pub same_skipped : List FilePath → List FilePath → Bool
same_skipped a b = length a == length b && zip_all path_eq (sort_by (λ p. p) a) (sort_by (λ p. p) b)

unfoldable pub describes_same_state : Manifest → Manifest → Bool
describes_same_state m other =
    if not (path_eq m.path other.path) || not (root_eq m.root other.root)
    then false
    else if m.truncated || other.truncated
    then false
    else if not (same_skipped m.skipped_dirs other.skipped_dirs)
    then false
    else if not (length m.entries == length other.entries)
    then false
    else zip_all entry_eq (sort_by (λ e. e.rel) m.entries) (sort_by (λ e. e.rel) other.entries)

-- `iter().find(|o| o.path == path)`
unfoldable pub find_path : FilePath → List Manifest → Option Manifest
find_path path = find (λ o. path_eq o.path path)

unfoldable pub same_state : List Manifest → List Manifest → Bool
same_state a b =
    if not (length a == length b)
    then false
    else all a (λ m. elim (find_path m.path b) [ none ↦ false | some o ↦ describes_same_state m o ])
