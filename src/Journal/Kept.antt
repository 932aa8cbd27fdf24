-- ===== src/Journal/Kept.antt =====
-- What a prune leaves: the rows, and the objects, that garbage collection must keep.
use doover.Base.{
  ℕ, ◌<◌, ◌≡◌, ◌∙◌, refl, inl, inr, Bool, true, false, not, List, [], ◌∷◌, arith, All, any, filter,
  leb, ◌==◌, ◌&&◌, ◌||◌, Bool-cases, str_eq, ==_iff,
}
use doover.Journal.Records.{ActionRecord, Session, Db}
use doover.Journal.Tables.{has_id, is_target, targets}
use doover.Journal.Retention.{
  keeps_itself, kept_by_target, is_live, live_manifests, live_hashes, is_candidate,
  pruned_manifests, pruned_actions, is_stale_session, is_stale_in_dry_run, prune_before,
}
use doover.Journal.Keys.{Key, key, keys, Before, Ordered}
use doover.Journal.Invariant.{IsValid}

pub any-filter {ℓ} :
    {A : Type ℓ} (p q : A → Bool) (xs : List A) → any (filter q xs) p ≡ any xs (λ a. p a && q a)
any-filter p q [] = refl
any-filter p q (x ∷ xs) = ground (arith, any-filter p q xs)

any-cong {ℓ} :
    {A : Type ℓ} (p q : A → Bool) (xs : List A) → ((a : A) → p a ≡ q a) → any xs p ≡ any xs q
any-cong p q [] h = refl
any-cong p q (x ∷ xs) h = rw (h x, any-cong p q xs h) refl

filter-cong {ℓ} :
    {A : Type ℓ} (p q : A → Bool) (xs : List A) → ((a : A) → p a ≡ q a) → filter p xs ≡ filter q xs
filter-cong p q [] h = refl
filter-cong p q (x ∷ xs) h = rw (h x, filter-cong p q xs h) refl

pub filter-filter {ℓ} :
    {A : Type ℓ} (p q : A → Bool) (xs : List A)
    → ((a : A) → p a ≡ true → q a ≡ true)
    → filter p (filter q xs) ≡ filter p xs
filter-filter p q [] h = refl
filter-filter p q (x ∷ xs) h = elim (Bool-cases (p x)) [
  | inl hit ↦ rw (h x hit, hit, filter-filter p q xs h) refl
  | inr miss ↦ ground (arith, filter-filter p q xs h)
]

stale-dry_run :
    (cutoff : ℕ) (rows : List ActionRecord) (s : Session)
    → is_stale_in_dry_run cutoff rows s ≡ is_stale_session cutoff (pruned_actions cutoff rows) s
unfolding is_stale_in_dry_run is_stale_session pruned_actions
stale-dry_run cutoff rows s =
    rw (any-filter (λ a. str_eq a.session_id s.id) (λ a. not (is_candidate cutoff rows a)) rows)
      refl

-- A dry run of the prune announces what the prune then does, sessions included, and writes nothing.
pub prune_before-dry_run :
    (cutoff : ℕ) (db : Db)
    → ((prune_before cutoff true db).0 ≡ (prune_before cutoff false db).0)
      × ((prune_before cutoff true db).1 ≡ db)
unfolding prune_before
prune_before-dry_run cutoff db =
    (rw (filter-cong _ _ db.sessions (stale-dry_run cutoff db.actions)) refl, refl)

kept-target :
    (c : ActionRecord → Bool) (rows : List ActionRecord) (id : ℕ)
    → any rows (λ r. targets id r && c r) ≡ true
    → is_target rows id ≡ true
unfolding is_target
kept-target c [] id h = cc
kept-target c (r ∷ rows) id h = ground (arith, kept-target c rows id)

-- A live row is no candidate.
live-candidate :
    (cutoff : ℕ) (rows : List ActionRecord) (a : ActionRecord)
    → is_live cutoff rows a ≡ true
    → is_candidate cutoff rows a ≡ false
unfolding is_live is_candidate keeps_itself kept_by_target
live-candidate cutoff rows a live =
    let aimed = kept-target (λ r. r.pinned || leb cutoff r.started_at_ms) rows a.id in ground arith

-- A row that keeps its target live is itself no candidate.
holder-stays :
    (cutoff : ℕ) (rows : List ActionRecord) (id : ℕ)
    → kept_by_target cutoff (pruned_actions cutoff rows) id ≡ kept_by_target cutoff rows id
unfolding kept_by_target pruned_actions is_candidate
holder-stays cutoff rows id =
    any-filter (λ r. targets id r && (r.pinned || leb cutoff r.started_at_ms))
      (λ a. not (is_candidate cutoff rows a)) rows
    ∙ any-cong _ _ rows (λ a. ground arith)

live-stays :
    (cutoff : ℕ) (rows : List ActionRecord) (a : ActionRecord)
    → is_live cutoff (pruned_actions cutoff rows) a ≡ is_live cutoff rows a
unfolding is_live
live-stays cutoff rows a = rw (holder-stays cutoff rows a.id) refl

no_later :
    (id : ℕ) (p : ActionRecord → Bool) (k : Key) (rows : List ActionRecord)
    → k.id ≡ id
    → All (Before k) (keys rows)
    → any rows (λ a. has_id id a && p a) ≡ false
unfolding keys
no_later id p k [] e h = refl
no_later id p k (r ∷ rows) e h =
    let apart : k.id < r.id = h.0.0 in let rest = no_later id p k rows e h.1 in ground arith

-- Two exclusive tests do not both hit a row of one id.
exclusive-id :
    (id : ℕ) (p q : ActionRecord → Bool) (rows : List ActionRecord)
    → ((a : ActionRecord) → p a ≡ true → q a ≡ false)
    → Ordered (keys rows)
    → any rows (λ a. has_id id a && p a) ≡ true
    → any rows (λ a. has_id id a && q a) ≡ false
unfolding keys
exclusive-id id p q [] apart o h = refl
exclusive-id id p q (r ∷ rows) apart o h = elim (Bool-cases (r.id == id)) [
  | inl here ↦
      let e : r.id ≡ id = (==_iff r.id id).0 here in
      let gone_p = no_later id p (key r) rows e o.0 in
      let gone_q = no_later id q (key r) rows e o.0 in let never = apart r in ground arith
  | inr there ↦ rw there (exclusive-id id p q rows apart o.1 (rw there at h))
]

live_row-stays :
    (cutoff : ℕ) (rows : List ActionRecord) (id : ℕ)
    → any
        (pruned_actions cutoff rows)
        (λ a. has_id id a && is_live cutoff (pruned_actions cutoff rows) a)
      ≡ any rows (λ a. has_id id a && is_live cutoff rows a)
unfolding pruned_actions
live_row-stays cutoff rows id =
    any-filter (λ a. has_id id a && is_live cutoff (pruned_actions cutoff rows) a)
      (λ a. not (is_candidate cutoff rows a)) rows
    ∙ any-cong _ _ rows (λ a.
      let same = live-stays cutoff rows a in
      let stays = live-candidate cutoff rows a in ground arith)

live_manifests-prune :
    (cutoff : ℕ) (db : Db)
    → IsValid db
    → live_manifests cutoff
        (pruned_actions cutoff db.actions)
        (pruned_manifests cutoff db.actions db.manifests)
      ≡ live_manifests cutoff db.actions db.manifests
unfolding live_manifests pruned_manifests
live_manifests-prune cutoff db v =
    filter-cong _ _ (pruned_manifests cutoff db.actions db.manifests)
      (λ m. live_row-stays cutoff db.actions m.action_id)
    ∙ filter-filter _ _ db.manifests (λ m live.
      rw
        (exclusive-id m.action_id (is_live cutoff db.actions) (is_candidate cutoff db.actions)
          db.actions (live-candidate cutoff db.actions) v.ordered live)
        refl)

-- In a well-formed journal a prune drops no object that garbage collection must keep for the same
-- cutoff: the hashes of the live actions are those from before.
pub live_hashes-prune_before :
    (cutoff : ℕ) (db : Db)
    → IsValid db
    → live_hashes cutoff (prune_before cutoff false db).1 ≡ live_hashes cutoff db
unfolding live_hashes prune_before
live_hashes-prune_before cutoff db v = rw (live_manifests-prune cutoff db v) refl
