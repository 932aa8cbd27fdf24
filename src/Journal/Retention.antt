-- ===== src/Journal/Retention.antt =====
-- crates/doover-core/src/journal.rs: what garbage collection keeps and prunes. A cutoff below the
-- first millisecond keeps all, as 0 does.
use doover.Base.{
  ℕ, String, Bool, true, false, not, Option, none, some, List, [], ◌∷◌, ◌++◌, ◌&&◌, ◌||◌, any,
  filter, length, max, ltb, leb, str_eq,
}
use doover.Journal.Records.{ActionRecord, pending, Session, ManifestRow, Db, status_eq}
use doover.Journal.Tables.{has_id, is_target, targets}

-- An action that its own row keeps live: pinned, recent or pending.
unfoldable pub keeps_itself : ℕ → ActionRecord → Bool
keeps_itself retain_after a =
    a.pinned || leb retain_after a.started_at_ms || status_eq a.status pending

-- Kept live by a pinned or recent action that targets it.
unfoldable pub kept_by_target : ℕ → List ActionRecord → ℕ → Bool
kept_by_target retain_after rows id =
    any rows (λ r. targets id r && (r.pinned || leb retain_after r.started_at_ms))

unfoldable pub is_live : ℕ → List ActionRecord → ActionRecord → Bool
unfolding keeps_itself kept_by_target
is_live retain_after rows a = keeps_itself retain_after a || kept_by_target retain_after rows a.id

-- The join of `manifests` with the live actions.
unfoldable pub live_manifests : ℕ → List ActionRecord → List ManifestRow → List ManifestRow
unfolding is_live
live_manifests retain_after rows =
    filter (λ m. any rows (λ a. has_id m.action_id a && is_live retain_after rows a))

unfoldable pub all_hashes : List ManifestRow → List String
all_hashes [] = []
all_hashes (m ∷ rows) = m.hashes ++ all_hashes rows

-- The set of hashes, as a list.
unfoldable pub live_hashes : ℕ → Db → List String
unfolding live_manifests all_hashes
live_hashes retain_after db = all_hashes (live_manifests retain_after db.actions db.manifests)

-- The condition by which `prune_before` deletes.
unfoldable pub is_candidate : ℕ → List ActionRecord → ActionRecord → Bool
is_candidate cutoff rows a =
    ltb a.started_at_ms cutoff
    && not a.pinned
    && not (status_eq a.status pending)
    && not (is_target rows a.id)

unfoldable pub pruned_manifests : ℕ → List ActionRecord → List ManifestRow → List ManifestRow
pruned_manifests cutoff rows =
    filter (λ m. not (any rows (λ a. has_id m.action_id a && is_candidate cutoff rows a)))

unfoldable pub pruned_actions : ℕ → List ActionRecord → List ActionRecord
pruned_actions cutoff rows = filter (λ a. not (is_candidate cutoff rows a)) rows

unfoldable pub is_stale_session : ℕ → List ActionRecord → Session → Bool
is_stale_session cutoff rows s =
    ltb s.started_at_ms cutoff && not (any rows (λ a. str_eq a.session_id s.id))

-- A dry run counts a session as empty if every action of it is a candidate.
unfoldable pub is_stale_in_dry_run : ℕ → List ActionRecord → Session → Bool
is_stale_in_dry_run cutoff rows s =
    ltb s.started_at_ms cutoff
    && not (any rows (λ a. str_eq a.session_id s.id && not (is_candidate cutoff rows a)))

-- The numbers of actions and sessions that go, and the tables without them.
unfoldable pub prune_before : ℕ → Bool → Db → (ℕ × ℕ) × Db
prune_before cutoff true db = (
  (
    length (filter (is_candidate cutoff db.actions) db.actions),
    length (filter (is_stale_in_dry_run cutoff db.actions) db.sessions),
  ),
  db,
)
prune_before cutoff false db =
    let actions = pruned_actions cutoff db.actions in
    (
      (
        length (filter (is_candidate cutoff db.actions) db.actions),
        length (filter (is_stale_session cutoff actions) db.sessions),
      ),
      record {
        manifests = pruned_manifests cutoff db.actions db.manifests;
        actions = actions;
        sessions = filter (λ s. not (is_stale_session cutoff actions s)) db.sessions;
      },
    )

-- `SELECT MAX(started_at_ms) FROM actions`
unfoldable pub max_started_at : List ActionRecord → Option ℕ
max_started_at [] = none
max_started_at (a ∷ rows) = elim (max_started_at rows) [
  | none ↦ some a.started_at_ms
  | some newest ↦ some (max a.started_at_ms newest)
]
