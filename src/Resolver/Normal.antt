-- ===== src/Resolver/Normal.antt =====
-- What `normalize_lexical` leaves of a path.
use doover.Base.{Bool, true, false, [], ◌∷◌, ◌++◌, ◌≡◌, refl, ap, sym, ◌∙◌, String}
use doover.Paths.{Component, root_dir, cur_dir, parent_dir, normal, FilePath}
use doover.Resolver.Lexical.{push_component, push_all, reverse_onto, normalize_lexical}

unfoldable pub are_names : FilePath → Bool
are_names [] = true
are_names (normal s ∷ p) = are_names p
are_names _ = false

-- Names only, behind an optional root and an optional `..`.
unfoldable pub is_normal : FilePath → Bool
unfolding are_names
is_normal (root_dir ∷ parent_dir ∷ p) = are_names p
is_normal (root_dir ∷ p) = are_names p
is_normal (parent_dir ∷ p) = are_names p
is_normal p = are_names p

abbrev pub IsNormal : FilePath → Type 0
IsNormal p = is_normal p ≡ true

-- The same of a path with its last component first.
unfoldable is_stack : FilePath → Bool
is_stack [] = true
is_stack (root_dir ∷ []) = true
is_stack (parent_dir ∷ []) = true
is_stack (parent_dir ∷ root_dir ∷ []) = true
is_stack (normal s ∷ p) = is_stack p
is_stack _ = false

push_component-is_stack :
    (out : FilePath) (c : Component) → is_stack out ≡ true → is_stack (push_component out c) ≡ true
unfolding is_stack push_component
push_component-is_stack out cur_dir h = h
push_component-is_stack [] parent_dir h = refl
push_component-is_stack (root_dir ∷ []) parent_dir h = refl
push_component-is_stack (root_dir ∷ c ∷ out) parent_dir h = cc
push_component-is_stack (cur_dir ∷ out) parent_dir h = cc
push_component-is_stack (parent_dir ∷ []) parent_dir h = refl
push_component-is_stack (parent_dir ∷ root_dir ∷ []) parent_dir h = refl
push_component-is_stack (parent_dir ∷ root_dir ∷ c ∷ out) parent_dir h = cc
push_component-is_stack (parent_dir ∷ cur_dir ∷ out) parent_dir h = cc
push_component-is_stack (parent_dir ∷ parent_dir ∷ out) parent_dir h = cc
push_component-is_stack (parent_dir ∷ normal s ∷ out) parent_dir h = cc
push_component-is_stack (normal s ∷ out) parent_dir h = h
push_component-is_stack out root_dir h = refl
push_component-is_stack out (normal s) h = h

push_all-is_stack : (out p : FilePath) → is_stack out ≡ true → is_stack (push_all out p) ≡ true
unfolding push_all
push_all-is_stack out [] h = h
push_all-is_stack out (c ∷ p) h =
    push_all-is_stack (push_component out c) p (push_component-is_stack out c h)

are_names-is_normal : (p : FilePath) → are_names p ≡ true → is_normal p ≡ true
unfolding is_normal are_names
are_names-is_normal [] h = refl
are_names-is_normal (root_dir ∷ p) h = cc
are_names-is_normal (cur_dir ∷ p) h = cc
are_names-is_normal (parent_dir ∷ p) h = cc
are_names-is_normal (normal s ∷ p) h = h

root-is_normal : (p : FilePath) → are_names p ≡ true → is_normal (root_dir ∷ p) ≡ true
unfolding is_normal are_names
root-is_normal [] h = refl
root-is_normal (root_dir ∷ p) h = cc
root-is_normal (cur_dir ∷ p) h = cc
root-is_normal (parent_dir ∷ p) h = cc
root-is_normal (normal s ∷ p) h = h

reverse_onto-is_normal :
    (out p : FilePath)
    → is_stack out ≡ true
    → are_names p ≡ true
    → is_normal (reverse_onto out p) ≡ true
unfolding is_stack reverse_onto is_normal are_names
reverse_onto-is_normal [] p h k = are_names-is_normal p k
reverse_onto-is_normal (root_dir ∷ []) p h k = root-is_normal p k
reverse_onto-is_normal (root_dir ∷ c ∷ out) p h k = cc
reverse_onto-is_normal (cur_dir ∷ out) p h k = cc
reverse_onto-is_normal (parent_dir ∷ []) p h k = k
reverse_onto-is_normal (parent_dir ∷ root_dir ∷ []) p h k = k
reverse_onto-is_normal (parent_dir ∷ root_dir ∷ c ∷ out) p h k = cc
reverse_onto-is_normal (parent_dir ∷ cur_dir ∷ out) p h k = cc
reverse_onto-is_normal (parent_dir ∷ parent_dir ∷ out) p h k = cc
reverse_onto-is_normal (parent_dir ∷ normal s ∷ out) p h k = cc
reverse_onto-is_normal (normal s ∷ out) p h k = reverse_onto-is_normal out (normal s ∷ p) h k

nothing-is_stack : is_stack [] ≡ true
unfolding is_stack
nothing-is_stack = refl

nothing-are_names : are_names [] ≡ true
unfolding are_names
nothing-are_names = refl

-- A normalized path is names only, behind at most a root and one `..`: no `.` is left in it, and no
-- `..` behind a name.
pub normalize_lexical-IsNormal : (p : FilePath) → IsNormal (normalize_lexical p)
unfolding normalize_lexical
normalize_lexical-IsNormal p =
    reverse_onto-is_normal (push_all [] p) [] (push_all-is_stack [] p nothing-is_stack)
      nothing-are_names

push_all-names : (out p : FilePath) → are_names p ≡ true → push_all out p ≡ reverse_onto p out
unfolding are_names push_all push_component reverse_onto
push_all-names out [] h = refl
push_all-names out (root_dir ∷ p) h = cc
push_all-names out (cur_dir ∷ p) h = cc
push_all-names out (parent_dir ∷ p) h = cc
push_all-names out (normal s ∷ p) h = push_all-names (normal s ∷ out) p h

reverse_onto-reverse_onto :
    (xs ys zs : FilePath) → reverse_onto (reverse_onto xs ys) zs ≡ reverse_onto ys (xs ++ zs)
unfolding reverse_onto
reverse_onto-reverse_onto [] ys zs = refl
reverse_onto-reverse_onto (x ∷ xs) ys zs = reverse_onto-reverse_onto xs (x ∷ ys) zs

append_nil : (xs : FilePath) → xs ++ [] ≡ xs
append_nil [] = refl
append_nil (x ∷ xs) = ap (λ (p : FilePath). x ∷ p) (append_nil xs)

names_onto :
    (out p : FilePath) → are_names p ≡ true → reverse_onto (push_all out p) [] ≡ reverse_onto out p
names_onto out p h =
    rw (push_all-names out p h, reverse_onto-reverse_onto p out [], append_nil p) refl

normalize_lexical-normal : (p : FilePath) → IsNormal p → normalize_lexical p ≡ p
unfolding normalize_lexical is_normal push_all push_component reverse_onto are_names
normalize_lexical-normal [] h = refl
normalize_lexical-normal (root_dir ∷ []) h = refl
normalize_lexical-normal (root_dir ∷ root_dir ∷ p) h = cc
normalize_lexical-normal (root_dir ∷ cur_dir ∷ p) h = cc
normalize_lexical-normal (root_dir ∷ parent_dir ∷ p) h = names_onto (parent_dir ∷ root_dir ∷ []) p h
normalize_lexical-normal (root_dir ∷ normal s ∷ p) h = names_onto (normal s ∷ root_dir ∷ []) p h
normalize_lexical-normal (cur_dir ∷ p) h = cc
normalize_lexical-normal (parent_dir ∷ p) h = names_onto (parent_dir ∷ []) p h
normalize_lexical-normal (normal s ∷ p) h = names_onto (normal s ∷ []) p h

push_all-append : (out p q : FilePath) → push_all out (p ++ q) ≡ push_all (push_all out p) q
unfolding push_all
push_all-append out [] q = refl
push_all-append out (c ∷ p) q = push_all-append (push_component out c) p q

-- A normalized path (names behind at most a root and one `..`) stays as it is, and every path becomes
-- one; a `.` can be left out anywhere before that, and so can a name together with the `..` behind it.
pub normalize_lexical-cancels :
    (n p q : FilePath) (s : String)
    → IsNormal n
    → (normalize_lexical n ≡ n)
      × IsNormal (normalize_lexical p)
      × (normalize_lexical (p ++ cur_dir ∷ q) ≡ normalize_lexical (p ++ q))
      × (normalize_lexical (p ++ normal s ∷ parent_dir ∷ q) ≡ normalize_lexical (p ++ q))
unfolding normalize_lexical push_all push_component
normalize_lexical-cancels n p q s h = (
  normalize_lexical-normal n h,
  normalize_lexical-IsNormal p,
  onto (push_all-append [] p (cur_dir ∷ q)),
  onto (push_all-append [] p (normal s ∷ parent_dir ∷ q)),
)
  where
    onto :
        {out : FilePath}
        → out ≡ push_all (push_all [] p) q
        → reverse_onto out [] ≡ reverse_onto (push_all [] (p ++ q)) []
    onto e = ap (λ (x : FilePath). reverse_onto x []) (e ∙ sym (push_all-append [] p q))
