-- ===== src/Journal/PruneValid.antt =====
-- The journal's well-formedness under `prune_before` of crates/doover-core/src/journal.rs.
use doover.Base.{
  ℕ, String, ◌≡◌, inl, inr, Bool, true, false, not, List, [], ◌∷◌, arith, All, any, filter, ◌&&◌,
  Bool-cases, str_eq, eq_iff,
}
use doover.Journal.Records.{ActionRecord, Session, ManifestRow, Db}
use doover.Journal.Tables.{has_id, has_session, is_target}
use doover.Journal.Retention.{
  is_candidate, pruned_manifests, pruned_actions, is_stale_session, prune_before,
}
use doover.Journal.Keys.{keys}
use doover.Journal.Links.{All-filter, Links-filter, Ordered-filter}
use doover.Journal.Invariant.{IsValid, HasAction, InSession}

-- Of rows with an id, one is kept if none of them is dropped.
any-kept :
    (p c : ActionRecord → Bool) (rows : List ActionRecord)
    → any rows p ≡ true
    → any rows (λ a. p a && c a) ≡ false
    → any (filter (λ a. not (c a)) rows) p ≡ true
any-kept p c [] h none_dropped = cc
any-kept p c (r ∷ rows) h none_dropped = ground (arith, any-kept p c rows)

attached-kept :
    (rows : List ActionRecord) (c : ActionRecord → Bool) (ms : List ManifestRow)
    → All (HasAction rows) ms
    → All
        (HasAction (filter (λ a. not (c a)) rows))
        (filter (λ m. not (any rows (λ a. has_id m.action_id a && c a))) ms)
attached-kept rows c [] h = tt
attached-kept rows c (m ∷ ms) h = elim (Bool-cases (any rows (λ a. has_id m.action_id a && c a))) [
  | inl dropped ↦ rw dropped (attached-kept rows c ms h.1)
  | inr kept ↦ rw kept (any-kept (has_id m.action_id) c rows h.0 kept, attached-kept rows c ms h.1)
]

-- A session with a surviving action is not stale.
has_session-kept :
    (cutoff : ℕ) (rows : List ActionRecord) (id : String) (sessions : List Session)
    → any rows (λ a. str_eq a.session_id id) ≡ true
    → has_session sessions id ≡ true
    → has_session (filter (λ s. not (is_stale_session cutoff rows s)) sessions) id ≡ true
unfolding has_session is_stale_session
has_session-kept cutoff rows id [] used h = cc
has_session-kept cutoff rows id (s ∷ sessions) used h = elim (Bool-cases (str_eq s.id id)) [
  | inl same ↦
      let e : s.id ≡ id = (eq_iff s.id id).0 same in
      let fresh : any rows (λ a. str_eq a.session_id s.id) ≡ true = rw e used in
      rw fresh (ground arith)
  | inr other ↦
      let rest = has_session-kept cutoff rows id sessions used (rw other at h) in ground arith
]

sessions-kept :
    (cutoff : ℕ) (sessions : List Session) (rows xs : List ActionRecord)
    → ((r : ActionRecord)
        → any xs (λ a. str_eq a.session_id r.session_id) ≡ true
        → any rows (λ a. str_eq a.session_id r.session_id) ≡ true)
    → All (InSession sessions) (keys xs)
    → All (InSession (filter (λ s. not (is_stale_session cutoff rows s)) sessions)) (keys xs)
unfolding keys
sessions-kept cutoff sessions rows [] inside h = tt
sessions-kept cutoff sessions rows (r ∷ xs) inside h = (
  has_session-kept cutoff rows r.session_id sessions
      (inside r (ground (arith, eq_iff r.session_id r.session_id))) h.0,
  sessions-kept cutoff sessions rows xs (λ a used. inside a (ground arith)) h.1,
)

is_candidate-target :
    (cutoff : ℕ) (rows : List ActionRecord) (a : ActionRecord)
    → is_target rows a.id ≡ true
    → not (is_candidate cutoff rows a) ≡ true
unfolding is_candidate
is_candidate-target cutoff rows a aimed = ground arith

sessions-filter :
    (q : ActionRecord → Bool) (sessions : List Session) (rows : List ActionRecord)
    → All (InSession sessions) (keys rows)
    → All (InSession sessions) (keys (filter q rows))
sessions-filter q sessions rows h = All-filter q (InSession sessions) rows h

pub prune_before-IsValid :
    (cutoff : ℕ) (dry_run : Bool) (db : Db)
    → IsValid db
    → IsValid (prune_before cutoff dry_run db).1
unfolding prune_before pruned_actions pruned_manifests
prune_before-IsValid cutoff true db v = v
prune_before-IsValid cutoff false db v =
    let stays = λ (a : ActionRecord). not (is_candidate cutoff db.actions a) in
    let rest = filter stays db.actions in
    record {
      ordered = Ordered-filter stays db.actions v.ordered;
      links =
          Links-filter stays db.actions (is_candidate-target cutoff db.actions) db.actions
            (λ k at. at) v.links;
      sessions =
          sessions-kept cutoff db.sessions rest rest (λ r used. used)
            (sessions-filter stays db.sessions db.actions v.sessions);
      attached = attached-kept db.actions (is_candidate cutoff db.actions) db.manifests v.attached;
    }
