-- ===== src/Hooks/Guarded.antt =====
-- What an event without gaps means for its command.
use doover.Base.{
  ℕ, ◌≤◌, true, not, none, List, [], ◌∷◌, ◌++◌, ◌≡◌, ◌≢◌, ◌⊎◌, refl, sym, ap, ◌∙◌, inl, inr, length,
  arith, filter, subst, Bool-cases, Option-cases,
}
use doover.Paths.{FilePath}
use doover.Registry.Rules.{Checked-cases}
use doover.Registry.Overlay.{with_overlay}
use doover.Journal.Records.{Db, Result-cases, NewAction, ManifestRow, ok, ok-injective}
use doover.Journal.Tables.{has_session}
use doover.Journal.Writes.{begin_session, start_action}
use doover.Undo.Types.{Machine}
use doover.Resolver.Outcome.{Resolution}
use doover.Resolver.Covered.{is_destructive, resolve-covered}
use doover.Resolver.Walker.{resolve}
use doover.Hooks.Events.{HookConfig, PreEvent, snapshot_cwd, handled, hook_deadline}
use doover.Hooks.Io.{HookIo, store_closed, attempt, attempt-ok, begin_call, start_call}
use doover.Hooks.Pre.{
  PreOutcome, capture_targets, targets_of, cwd_fallback, is_fallback, protect, journal_action,
  new_action, handle_pre, begun,
}
use doover.Hooks.Protected.{
  append_nil, ArePre, AreCaptured-rows, note_gap-loud, AreCaptured, capture_all-AreCaptured,
}

append-nil {ℓ} : {A : Type ℓ} (xs ys : List A) → xs ++ ys ≡ [] → xs ≡ []
append-nil [] ys h = refl
append-nil (x ∷ xs) ys h = cc

filter-all : (ps : List FilePath) → filter (λ p. not (is_fallback none p)) ps ≡ ps
filter-all [] = refl
filter-all (p ∷ ps) = ap (λ (qs : List FilePath). p ∷ qs) (filter-all ps)

-- A destructive resolution that is covered has a target under the default policy.
targets_of-covered :
    (r : Resolution) (cwd : FilePath)
    → is_destructive r.severity ≡ true
    → (r.has_unknown ≡ true) ⊎ (r.paths ≢ [])
    → targets_of r (cwd_fallback snapshot_cwd r cwd) ≢ []
unfolding targets_of cwd_fallback
targets_of-covered r cwd d (inl marked) h = cc (rw marked at h)
targets_of-covered r cwd d (inr full) h = elim (Bool-cases r.has_unknown) [
  | inl marked ↦ cc (rw marked at h)
  | inr clean ↦ full (sym (filter-all r.paths) ∙ (rw (clean, d) at h))
]

length-positive {ℓ} : {A : Type ℓ} (xs : List A) → xs ≢ [] → 1 ≤ length xs
length-positive [] h = absurd (h refl)
length-positive (x ∷ xs) h = omega arith

handled-injective {ℓ} : {A : Type ℓ} (a b : A) → handled a ≡ handled b → a ≡ b
handled-injective a b h = cc

start_action-manifests :
    (new : NewAction) (now : ℕ) (db : Db) {id : ℕ} {db' : Db}
    → start_action new now db ≡ ok (id, db')
    → db'.manifests ≡ db.manifests
unfolding start_action
start_action-manifests new now db {id} {db'} h =
    elim (Bool-cases (has_session db.sessions new.session_id)) [
      | inl known ↦
          sym (ap (λ (p : ℕ × Db). p.1.manifests) (ok-injective _ (id, db') (rw known at h)))
      | inr unknown ↦ cc (rw unknown at h)
    ]

-- At least one row, and as many as reported, were added: whole captures without a warning, recorded
-- as the state before the action.
pub HasCaptures : PreOutcome → Db → Db → Type 0
HasCaptures o db db' =
    (rows : List ManifestRow) × (1 ≤ length rows)
    × (o.manifests_attached ≡ length rows)
    × ArePre o.action_id rows
    × (db'.manifests ≡ db.manifests ++ rows)

HasCaptures-since :
    (o : PreOutcome) (db db' db'' : Db)
    → db'.manifests ≡ db.manifests
    → HasCaptures o db db''
    → HasCaptures o db' db''
unfolding HasCaptures
HasCaptures-since o db db' db'' same (rows, some_rows, sum, pres, added) =
    (rows, some_rows, sum, pres, added ∙ ap (λ (ms : List ManifestRow). ms ++ rows) (sym same))

module _ {World : Type 0} (io : HookIo World) where
  capture_targets-AreCaptured :
      (cfg : HookConfig) (action : ℕ) (ps : List FilePath) (db : Db) (w : World)
      → (capture_targets io cfg action ps (begun io db w)).gaps ≡ []
      → ((capture_targets io cfg action ps (begun io db w)).attached ≡ length ps)
        × AreCaptured io cfg
            (hook_deadline cfg.limits (io.clock (io.open_store w).1))
            action
            ps
            (begun io db (io.open_store w).1)
  unfolding capture_targets AreCaptured
  capture_targets-AreCaptured cfg action [] db w h = (refl, tt)
  capture_targets-AreCaptured cfg action (p ∷ ps) db w h = elim (Option-cases (io.open_store w).0) [
    | inr (failure, e) ↦ absurd (
        note_gap-loud io action (store_closed failure) (begun io db (io.open_store w).1)
          (rw (e, capture_targets) at h))
    | inl ready ↦
        let (before, sum, chain) =
          capture_all-AreCaptured io cfg (hook_deadline cfg.limits (io.clock (io.open_store w).1))
            action (p ∷ ps) (begun io db (io.open_store w).1) (rw (ready, capture_targets) at h) in
        (rw (ready, capture_targets) (omega (arith, sum)), chain)
  ]

  capture_targets-rows :
      (cfg : HookConfig) (action : ℕ) (ps : List FilePath) (db : Db) (w : World)
      → (capture_targets io cfg action ps (begun io db w)).gaps ≡ []
      → (rows : List ManifestRow) × (length rows ≡ length ps)
        × ArePre action rows
        × ((capture_targets io cfg action ps (begun io db w)).db.manifests ≡ db.manifests ++ rows)
  unfolding capture_targets ArePre
  capture_targets-rows cfg action [] db w h = ([], refl, tt, sym (append_nil db.manifests))
  capture_targets-rows cfg action (p ∷ ps) db w h = elim (Option-cases (io.open_store w).0) [
    | inr (failure, e) ↦ absurd (
        note_gap-loud io action (store_closed failure) (begun io db (io.open_store w).1)
          (rw (e, capture_targets) at h))
    | inl ready ↦
        let deadline = hook_deadline cfg.limits (io.clock (io.open_store w).1) in
        let start = begun io db (io.open_store w).1 in
        let (before, sum, chain) =
          capture_all-AreCaptured io cfg deadline action (p ∷ ps) start
            (rw (ready, capture_targets) at h) in
        rw (ready, capture_targets) (AreCaptured-rows io cfg deadline action (p ∷ ps) start chain)
  ]

  -- If the captures of a journaled action leave no gap, then each target, one after the other, was
  -- captured whole and without a warning and attached to the action, and that many are reported.
  pub protect-AreCaptured :
      (cfg : HookConfig) (ev : PreEvent) (r : Resolution) (action : ℕ) (s : Machine World)
      → (protect io cfg ev r action s).0.gaps ≡ []
      → ((protect io cfg ev r action s).0.manifests_attached
          ≡ length (targets_of r (cwd_fallback cfg.unknown_policy r ev.cwd)))
        × AreCaptured io cfg
            (hook_deadline cfg.limits (io.clock (io.open_store s.world).1))
            action
            (targets_of r (cwd_fallback cfg.unknown_policy r ev.cwd))
            (begun io s.db (io.open_store s.world).1)
  unfolding protect
  protect-AreCaptured cfg ev r action s h =
      capture_targets-AreCaptured cfg action
        (targets_of r (cwd_fallback cfg.unknown_policy r ev.cwd)) s.db s.world (append-nil _ _ h)

  journal_action-protects :
      (cfg : HookConfig) (ev : PreEvent) (r : Resolution) (s : Machine World) (o : PreOutcome)
      → cfg.unknown_policy ≡ snapshot_cwd
      → (is_destructive r.severity ≡ true → (r.has_unknown ≡ true) ⊎ (r.paths ≢ []))
      → (journal_action io cfg ev r s).0 ≡ handled o
      → is_destructive o.severity ≡ true
      → o.gaps ≡ []
      → HasCaptures o s.db (journal_action io cfg ev r s).1.db
  unfolding journal_action HasCaptures protect
  journal_action-protects cfg ev r s o policy covered h d quiet =
      elim (Result-cases (
        attempt io start_call s.world
          (start_action (new_action io ev r) (io.clock s.world) s.db))) [
            | inr (failure, e) ↦ cc (rw (e, journal_action) at h)
            | inl ((action, db), e) ↦
                let made = protect io cfg ev r action (record s { db = db }) in
                let same : made.0 ≡ o = handled-injective made.0 o (rw (e, journal_action) at h) in
                let silent = ap (λ (x : PreOutcome). x.gaps) same ∙ quiet in
                let (count, chain) =
                  protect-AreCaptured cfg ev r action (record s { db = db }) silent in
                let targets = targets_of r (cwd_fallback cfg.unknown_policy r ev.cwd) in
                let (rows, sum, pres, added) =
                  capture_targets-rows cfg action targets db s.world (append-nil _ _ silent) in
                let harsh : is_destructive r.severity ≡ true =
                  ap (λ (x : PreOutcome). is_destructive x.severity) same ∙ d in
                let full = targets_of-covered r ev.cwd harsh (covered harsh) in
                let positive =
                  length-positive (targets_of r (cwd_fallback cfg.unknown_policy r ev.cwd))
                    (rw policy full) in
                let reported = ap (λ (x : PreOutcome). x.manifests_attached) same in
                let named : action ≡ o.action_id = ap (λ (x : PreOutcome). x.action_id) same in
                (
                  rows,
                  omega (arith, positive, sum),
                  sym reported ∙ count ∙ sym sum,
                  subst (λ (id : ℕ). ArePre id rows) named pres,
                  rw (e, journal_action) added
                      ∙ ap (λ (ms : List ManifestRow). ms ++ rows)
                          (start_action-manifests (new_action io ev r) (io.clock s.world) s.db
                            (attempt-ok io start_call s.world _ e)),
                )
          ]

  -- Under the default policy, a destructive command whose pre event reports no gap has captures in the
  -- journal: the event adds at least one row to the manifests, and as many as it reports, each of which
  -- is a whole capture without a warning, recorded as the state before the action that is reported.
  pub handle_pre-protects :
      (cfg : HookConfig) (ev : PreEvent) (s : Machine World) (o : PreOutcome)
      → cfg.unknown_policy ≡ snapshot_cwd
      → (handle_pre io cfg ev s).0 ≡ handled o
      → is_destructive o.severity ≡ true
      → o.gaps ≡ []
      → HasCaptures o s.db (handle_pre io cfg ev s).1.db
  unfolding handle_pre begin_session
  handle_pre-protects cfg ev s o policy h d quiet =
      let opened = io.open_home s.world in
      elim (Option-cases opened.0) [
        | inr (failure, e) ↦ cc (rw (e, handle_pre) at h)
        | inl ready ↦
            elim (Result-cases (
              attempt io begin_call opened.1 (
                ok (
                  begin_session ev.session_id "claude-code" (io.path_text ev.cwd)
                    (io.clock opened.1) s.db)))) [
                      | inr (failure, e) ↦ cc (rw (ready, e, handle_pre) at h)
                      | inl (db, started) ↦
                          elim (Checked-cases
                            (with_overlay io.yaml io.shipped (io.overlay opened.1))) [
                              | inr (failure, e) ↦ cc (rw (ready, started, e, handle_pre) at h)
                              | inl ((registry, warnings), e) ↦
                                  let env = record (io.env opened.1) {
                                    cwd = ev.cwd;
                                    home = cfg.home;
                                  } in
                                  let kept =
                                    ap (λ (x : Db). x.manifests)
                                      (ok-injective _ db
                                        (attempt-ok io begin_call opened.1 _ started)) in
                                  rw (ready, started, e, handle_pre)
                                    (HasCaptures-since o db s.db _ kept (
                                      journal_action-protects cfg ev
                                        (resolve env registry ev.command)
                                        (record { db = db; world = opened.1 }) o policy
                                        (resolve-covered env registry ev.command)
                                        (rw (ready, started, e, handle_pre) at h) d quiet))
                            ]
                    ]
      ]
