-- ===== src/Journal/Records.antt =====
-- crates/doover-core/src/journal.rs: the rows of the three tables, and errors.
use doover.Base.{
  ◌≡◌, refl, ◌⊎◌, inl, inr, ℕ, String, Bool, true, false, Option, List, str_eq, if◌then◌else◌,
}
use doover.Snapshot.Manifest.{Manifest}

pub data ManifestRole : Type 0 where
  pre post : ManifestRole

pub data ActionKind : Type 0 where
  command undo : ActionKind

pub data ActionStatus : Type 0 where
  pending completed abandoned undone : ActionStatus

-- What an operation of the journal reports. The errors of SQLite, of files and of JSON are their texts.
pub data JournalError : Type 0 where
  sqlite : String → JournalError
  io : String → JournalError
  serde : String → JournalError
  action_not_found : ℕ → JournalError
  no_pending_for_tool_use : String → String → JournalError
  not_undoable : ℕ → ActionStatus → JournalError
  undo_too_deep : ℕ → ℕ → JournalError
  manifest_too_new : ℕ → JournalError
  schema_too_new : ℕ → JournalError

-- A foreign key that SQLite refuses.
abbrev pub constraint : JournalError
constraint = sqlite "FOREIGN KEY constraint failed"

-- An error leaves the database as it was: the transaction is rolled back.
pub data Result {ℓ} (A : Type ℓ) : Type ℓ where
  ok : A → Result A
  err : JournalError → Result A

infixl 5 ◌>>=◌
abbrev pub ◌>>=◌ {ℓ κ} : {A : Type ℓ} {B : Type κ} → Result A → (A → Result B) → Result B
ok a >>= f = f a
err e >>= f = err e

pub ok-injective {ℓ} : {A : Type ℓ} (a b : A) → ok a ≡ ok b → a ≡ b
ok-injective a b h = cc

pub Result-cases {ℓ} :
    {A : Type ℓ} (c : Result A) → ((a : A) × (c ≡ ok a)) ⊎ ((e : JournalError) × (c ≡ err e))
Result-cases (ok a) = inl (a, refl)
Result-cases (err e) = inr (e, refl)

pub ActionKind-cases : (k : ActionKind) → (k ≡ command) ⊎ (k ≡ undo)
ActionKind-cases command = inl refl
ActionKind-cases undo = inr refl

pub record NewAction : Type 0 where
  pub session_id : String
  pub tool_use_id : Option String
  pub raw_command : String
  pub effect : String
  pub rule_id : Option String
  pub has_unknown : Bool
  pub background : Bool

pub record ActionRecord : Type 0 where
  pub id : ℕ
  pub session_id : String
  pub seq : ℕ
  pub kind : ActionKind
  pub tool_use_id : Option String
  pub raw_command : String
  pub effect : String
  pub rule_id : Option String
  pub has_unknown : Bool
  pub status : ActionStatus
  pub target_action_id : Option ℕ
  pub target_prior_status : Option ActionStatus
  pub pinned : Bool
  pub started_at_ms : ℕ
  pub duration_ms : Option ℕ
  pub note : Option String
  pub background : Bool

-- A row of `sessions`.
pub record Session : Type 0 where
  pub id : String
  pub harness : String
  pub cwd : String
  pub started_at_ms : ℕ
  pub ended_at_ms : Option ℕ

-- A row of `manifests`; the JSON text stands for the manifest that it holds.
pub record ManifestRow : Type 0 where
  pub action_id : ℕ
  pub manifest : Manifest
  pub hashes : List String
  pub role : ManifestRole

-- The tables, each in the order of its row ids.
pub record Db : Type 0 where
  pub sessions : List Session
  pub actions : List ActionRecord
  pub manifests : List ManifestRow

-- The text of a status in its column.
unfoldable pub status_text : ActionStatus → String
status_text pending = "pending"
status_text completed = "completed"
status_text abandoned = "abandoned"
status_text undone = "undone"

unfoldable pub parse_status : String → ActionStatus
parse_status s =
    if str_eq s "completed"
    then completed
    else if str_eq s "abandoned"
    then abandoned
    else if str_eq s "undone"
    then undone
    else pending

unfoldable pub parse_kind : String → ActionKind
parse_kind s = if str_eq s "undo" then undo else command

abbrev pub status_eq : ActionStatus → ActionStatus → Bool
status_eq pending pending = true
status_eq completed completed = true
status_eq abandoned abandoned = true
status_eq undone undone = true
status_eq _ _ = false

abbrev pub kind_eq : ActionKind → ActionKind → Bool
kind_eq command command = true
kind_eq undo undo = true
kind_eq _ _ = false

abbrev pub role_eq : ManifestRole → ManifestRole → Bool
role_eq pre pre = true
role_eq post post = true
role_eq _ _ = false
