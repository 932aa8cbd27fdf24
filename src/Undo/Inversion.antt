-- ===== src/Undo/Inversion.antt =====
-- What a step of the engine that succeeded says of its parts.
use doover.Base.{
  ℕ, ◌⊎◌, inl, inr, List, ◌≡◌, refl, Bool, true, false, not, ◌&&◌, ◌++◌, if◌then◌else◌, ap, sym,
}
use doover.Snapshot.Manifest.{Manifest}
use doover.Snapshot.Errors.{Store, Answer, Answer-cases, good}
use doover.Journal.Records.{ActionRecord}
use doover.Undo.Restore.{Texts}
use doover.Undo.Types.{Attempt, done, failed, Machine, ◌>>=◌, UndoError, UndoReport}
use doover.Undo.Engine.{then_do, execute, execute_locked, mutate}
use doover.Undo.Select.{is_empty}
use doover.Undo.Check.{Notes, conflict_check, scope_warnings}

pub done-injective {ℓ} : {A : Type ℓ} (a b : A) → done a ≡ done b → a ≡ b
done-injective a b h = cc

pub Attempt-cases {ℓ} :
    {A : Type ℓ} (c : Attempt A) → ((a : A) × (c ≡ done a)) ⊎ ((e : UndoError) × (c ≡ failed e))
Attempt-cases (done a) = inl (a, refl)
Attempt-cases (failed e) = inr (e, refl)

pub then_do-done {ℓ κ} :
    {World : Type 0} {A : Type ℓ} {B : Type κ} (a : Attempt A) (s : Machine World)
    (f : A → Attempt B × Machine World) (b : B) (s' : Machine World)
    → then_do a s f ≡ (done b, s')
    → (x : A) × (a ≡ done x) × (f x ≡ (done b, s'))
then_do-done (done x) s f b s' h = (x, refl, h)
then_do-done (failed e) s f b s' h = cc

pub bind-done {ℓ κ} :
    {A : Type ℓ} {B : Type κ} (a : Attempt A) (f : A → Attempt B) (b : B)
    → a >>= f ≡ done b
    → (x : A) × (a ≡ done x) × (f x ≡ done b)
bind-done (done x) f b h = (x, refl, h)
bind-done (failed e) f b h = cc

pub if_failed {ℓ} :
    {World : Type 0} {B : Type ℓ} (c : Bool) (e : UndoError) (s : Machine World)
    (y : Attempt B × Machine World) (b : B) (s' : Machine World)
    → (if c then (failed e, s) else y) ≡ (done b, s')
    → (c ≡ false) × (y ≡ (done b, s'))
if_failed true e s y b s' h = cc
if_failed false e s y b s' h = (refl, h)

pub execute-locked :
    {World : Type 0} (texts : Texts) (store : Store World) (now : ℕ) (target : ActionRecord)
    (ms oracle : List Manifest) (force : Bool) (s s' : Machine World) (report : UndoReport)
    → execute texts store now target ms oracle force false s ≡ (done report, s')
    → (w : World) × (s1 : Machine World) × (store.lock_restores s.world ≡ (good tt, w))
      × (execute_locked texts store now target ms oracle force false (record s { world = w })
          ≡ (done report, s1))
      × (s' ≡ record s1 { world = store.unlock s1.world })
unfolding execute
execute-locked {World = World} texts store now target ms oracle force s s' report h =
    let held : Machine World = record s { world = (store.lock_restores s.world).1 } in
    let inner = execute_locked texts store now target ms oracle force false held in
    elim (Answer-cases (store.lock_restores s.world).0) [
      | inl (token, locked) ↦
          let h1 = rw (locked, execute) at h in
          (
            (store.lock_restores s.world).1,
            inner.1,
            ap (λ (a : Answer (Unit {0})). (a, (store.lock_restores s.world).1)) locked,
            ap (λ (r : Attempt UndoReport × Machine World). (r.0, inner.1)) h1,
            sym (ap (λ (r : Attempt UndoReport × Machine World). r.1) h1),
          )
      | inr (e, locked) ↦ cc (rw (locked, execute) at h)
    ]

pub execute_locked-mutate :
    {World : Type 0} (texts : Texts) (store : Store World) (now : ℕ) (target : ActionRecord)
    (ms oracle : List Manifest) (force : Bool) (s s' : Machine World) (report : UndoReport)
    → execute_locked texts store now target ms oracle force false s ≡ (done report, s')
    → (notes : Notes) × (conflict_check store s.world force target.background oracle ms
        ≡ done notes)
      × ((not (is_empty notes.1) && not force) ≡ false)
      × (mutate texts store now target ms
            (not (is_empty notes.1))
            (notes.0 ++ scope_warnings force target ms)
            s
          ≡ (done report, s'))
unfolding execute_locked
execute_locked-mutate texts store now target ms oracle force s s' report h =
    let (notes, checked, h1) =
      then_do-done (conflict_check store s.world force target.background oracle ms) s _ report s'
        h in
    let (fine, h2) = if_failed (not (is_empty notes.1) && not force) _ s _ report s' h1 in
    (notes, checked, fine, h2)
