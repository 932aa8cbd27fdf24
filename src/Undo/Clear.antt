-- ===== src/Undo/Clear.antt =====
-- The conflict check of `execute`, without `--force`.
use doover.Base.{
  ℕ, ◌≡◌, refl, ◌∙◌, Bool, true, false, not, some, List, [], ◌∷◌, ◌++◌, All, ◌&&◌, inl, inr, ap,
  Bool-cases, Option-cases,
}
use doover.Snapshot.Manifest.{Manifest}
use doover.Snapshot.Errors.{Store, Answer-cases, good}
use doover.Snapshot.Same.{find_path}
use doover.Journal.Records.{ActionRecord}
use doover.Undo.Types.{UndoReport, done, ◌>>=◌, Machine}
use doover.Undo.Select.{is_empty}
use doover.Undo.Check.{Notes, join, truncation_notes, oracle_notes, conflict_check}
use doover.Undo.Restore.{Texts}
use doover.Undo.Engine.{execute}
use doover.Undo.Inversion.{done-injective, execute-locked, execute_locked-mutate, bind-done}

-- A path that may be restored without force: its capture is complete, and the world is as recorded.
abbrev pub IsClear : {World : Type 0} → Store World → World → List Manifest → Manifest → Type 0
IsClear store world oracle m =
    (m.truncated ≡ false)
    × (o : Manifest) × (find_path m.path oracle ≡ some o)
    × (store.state_matches o world ≡ good true)

append_nil {ℓ} : {A : Type ℓ} (xs ys : List A) → xs ++ ys ≡ [] → (xs ≡ []) × (ys ≡ [])
append_nil [] ys h = (refl, h)
append_nil (x ∷ xs) ys h = cc

complete-truncation_notes : (m : Manifest) → (truncation_notes false m).1 ≡ [] → m.truncated ≡ false
unfolding truncation_notes
complete-truncation_notes m h = elim (Bool-cases m.truncated) [
  | inl cut ↦ cc (rw (cut, truncation_notes) at h)
  | inr whole ↦ whole
]

module _ {World : Type 0} (store : Store World) (world : World) (background : Bool)
    (oracle : List Manifest) where
  oracle_notes_clear :
      (m : Manifest) (notes : Notes)
      → oracle_notes store world background oracle m ≡ done notes
      → notes.1 ≡ []
      → (o : Manifest) × (find_path m.path oracle ≡ some o)
        × (store.state_matches o world ≡ good true)
  unfolding oracle_notes
  oracle_notes_clear m notes h clean = elim (Option-cases (find_path m.path oracle)) [
    | inl nothing ↦
        let same = done-injective _ notes (rw (nothing, oracle_notes) at h) in
        cc (ap (λ (n : Notes). n.1) same)
    | inr (o, found) ↦ elim (Answer-cases (store.state_matches o world)) [
      | inl (matches, e) ↦ elim (Bool-cases matches) [
        | inl holds ↦ (o, found, rw holds at e)
        | inr differs ↦
            let same =
              done-injective _ notes (rw (e, differs) at (rw (found, oracle_notes) at h)) in
            cc (ap (λ (n : Notes). n.1) same)
      ]
      | inr (failure, e) ↦ cc (rw e at (rw (found, oracle_notes) at h))
    ]
  ]

  conflict_check-IsClear :
      (ms : List Manifest) (notes : Notes)
      → conflict_check store world false background oracle ms ≡ done notes
      → notes.1 ≡ []
      → All (IsClear store world oracle) ms
  unfolding conflict_check truncation_notes
  conflict_check-IsClear [] notes h clean = tt
  conflict_check-IsClear (m ∷ ms) notes h clean =
      let (here, e, h1) =
        bind-done (oracle_notes store world background oracle m)
          (λ (n : Notes). conflict_check store world false background oracle ms >>= λ later.
            done (join (join (truncation_notes false m) n) later))
          notes h in
      let (later, e1, h2) =
        bind-done (conflict_check store world false background oracle ms)
          (λ (n : Notes). done (join (join (truncation_notes false m) here) n)) notes h1 in
      let same = ap (λ (n : Notes). n.1) (done-injective _ notes h2) in
      let (first, none_later) =
        append_nil ((truncation_notes false m).1 ++ here.1) later.1 (same ∙ clean) in
      let (untruncated, none_here) = append_nil (truncation_notes false m).1 here.1 first in
      let (o, found, holds) = oracle_notes_clear m here e none_here in
      (
        (complete-truncation_notes m untruncated, o, found, holds),
        conflict_check-IsClear ms later e1 none_later,
      )

is_empty-nil {ℓ} : {A : Type ℓ} (xs : List A) → (not (is_empty xs) && true) ≡ false → xs ≡ []
is_empty-nil [] h = refl
is_empty-nil (x ∷ xs) h = cc

-- Without `--force`, an undo or a redo that restores and reports success did so under the lock, and
-- in the world that it found there each path to restore was fit: its capture is complete, and the
-- state that was recorded for it is the state that it has.
pub execute-IsClear :
    {World : Type 0} (texts : Texts) (store : Store World) (now : ℕ) (target : ActionRecord)
    (ms oracle : List Manifest) (s s' : Machine World) (report : UndoReport)
    → execute texts store now target ms oracle false false s ≡ (done report, s')
    → (w : World) × (store.lock_restores s.world ≡ (good tt, w)) × All (IsClear store w oracle) ms
execute-IsClear texts store now target ms oracle s s' report h =
    let (w, s1, locked, h1, unlocked) =
      execute-locked texts store now target ms oracle false s s' report h in
    let (notes, checked, fine, h2) =
      execute_locked-mutate texts store now target ms oracle false (record s { world = w }) s1
        report h1 in
    (
      w,
      locked,
      conflict_check-IsClear store w target.background oracle ms notes checked
          (is_empty-nil notes.1 fine),
    )
