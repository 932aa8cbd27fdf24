-- ===== src/Journal/Reads.antt =====
-- crates/doover-core/src/journal.rs: the queries of the undo engine.
use doover.Base.{
  ℕ, Bool, not, Option, none, some, List, [], ◌∷◌, ◌++◌, ◌&&◌, ◌||◌, any, filter, take, ltb, ◌==◌,
  if◌then◌else◌,
}
use doover.Snapshot.Manifest.{Manifest, manifest_schema}
use doover.Journal.Records.{
  ManifestRole, pre, ActionRecord, command, undo, completed, abandoned, undone, ManifestRow, Db,
  Result, ok, err, ◌>>=◌, manifest_too_new, status_eq, kind_eq, role_eq,
}

-- The rows as read; a manifest of a newer schema is refused.
unfoldable pub read_manifests : List ManifestRow → Result (List Manifest)
read_manifests [] = ok []
read_manifests (m ∷ rows) =
    let rest = read_manifests rows in
    if ltb manifest_schema m.manifest.schema
    then err (manifest_too_new m.manifest.schema)
    else rest >>= λ ms. ok (m.manifest ∷ ms)

unfoldable pub manifests_by_role : ℕ → ManifestRole → Db → Result (List Manifest)
unfolding read_manifests
manifests_by_role action role db =
    read_manifests (filter (λ m. (m.action_id == action) && role_eq m.role role) db.manifests)

-- `ORDER BY id DESC` of a table in the order of its ids.
unfoldable pub newest_first {ℓ} : {A : Type ℓ} → List A → List A
newest_first [] = []
newest_first (x ∷ xs) = newest_first xs ++ (x ∷ [])

unfoldable pub may_be_undone : List ManifestRow → ActionRecord → Bool
may_be_undone manifests a =
    kind_eq a.kind command
    && (status_eq a.status completed || status_eq a.status abandoned || status_eq a.status undone)
    && not a.background
    && any manifests (λ m. (m.action_id == a.id) && role_eq m.role pre)

unfoldable pub undo_candidates : ℕ → Db → List ActionRecord
unfolding newest_first may_be_undone
undo_candidates limit db =
    take limit (newest_first (filter (may_be_undone db.manifests) db.actions))

abbrev pub head? {ℓ} : {A : Type ℓ} → List A → Option A
head? [] = none
head? (x ∷ xs) = some x

unfoldable pub latest_redoable : Db → Option ActionRecord
latest_redoable db =
    head?
      (newest_first (filter (λ a. kind_eq a.kind undo && status_eq a.status completed) db.actions))
