-- ===== src/Journal/Invariant.antt =====
-- The well-formedness of the journal, and the shapes of change that keep it.
use doover.Base.{
  ℕ, suc, String, ◌≡◌, ◌∙◌, refl, sym, Bool, true, List, [], ◌∷◌, ◌++◌, arith, All, any, ◌==◌,
}
use doover.Journal.Records.{ActionRecord, Session, ManifestRow, Db}
use doover.Journal.Tables.{has_id, has_session, max_id, max_seq}
use doover.Journal.Keys.{
  Key, key, keys, keys-append, Ordered, Ordered-push, keys-Before, All-append,
}
use doover.Journal.Links.{Link, Links-append, Link-append}

abbrev pub HasAction : List ActionRecord → ManifestRow → Type 0
HasAction rows m = any rows (has_id m.action_id) ≡ true

abbrev pub InSession : List Session → Key → Type 0
InSession sessions k = has_session sessions k.session_id ≡ true

-- Ids grow with the table and sequence numbers within each session; every undo refers to an earlier
-- row, one or two steps above a command; and every reference between the tables has its row.
pub record IsValid (db : Db) : Type 0 where
  pub ordered : Ordered (keys db.actions)
  pub links : All (Link (keys db.actions)) (keys db.actions)
  pub sessions : All (InSession db.sessions) (keys db.actions)
  pub attached : All (HasAction db.actions) db.manifests

has_key : ℕ → List Key → Bool
has_key id ks = any ks (λ k. k.id == id)

any-has_id : (id : ℕ) (rows : List ActionRecord) → any rows (has_id id) ≡ has_key id (keys rows)
unfolding has_key keys
any-has_id id [] = refl
any-has_id id (r ∷ rows) = rw (any-has_id id rows, has_key)

HasAction-mono :
    (rows rows' : List ActionRecord)
    → ((id : ℕ) → any rows (has_id id) ≡ true → any rows' (has_id id) ≡ true)
    → (ms : List ManifestRow) → All (HasAction rows) ms
    → All (HasAction rows') ms
HasAction-mono rows rows' more [] h = tt
HasAction-mono rows rows' more (m ∷ ms) h =
    (more m.action_id h.0, HasAction-mono rows rows' more ms h.1)

-- Rows with the same keys.
pub IsValid-update :
    (db : Db) (rows : List ActionRecord)
    → keys rows ≡ keys db.actions
    → IsValid db
    → IsValid (record db { actions = rows })
IsValid-update db rows same v = record {
  ordered = rw same v.ordered;
  links = rw same v.links;
  sessions = rw same v.sessions;
  attached =
      HasAction-mono db.actions rows
        (λ id h. any-has_id id rows ∙ rw same (sym (any-has_id id db.actions) ∙ h)) db.manifests
        v.attached;
}

any-append :
    (id : ℕ) (rows more : List ActionRecord)
    → any rows (has_id id) ≡ true
    → any (rows ++ more) (has_id id) ≡ true
any-append id [] more h = cc
any-append id (r ∷ rows) more h = ground (arith, any-append id rows more)

-- One more row, with the next id and the next sequence number of its session.
pub IsValid-insert :
    (db : Db) (r : ActionRecord)
    → IsValid db
    → has_session db.sessions r.session_id ≡ true
    → r.id ≡ suc (max_id db.actions)
    → r.seq ≡ suc (max_seq r.session_id db.actions)
    → Link (keys db.actions) (key r)
    → IsValid (record db { actions = db.actions ++ (r ∷ []) })
unfolding keys
IsValid-insert db r v in_session next_id next_seq link =
    let pushed = keys-append db.actions (r ∷ []) in
    record {
      ordered = rw pushed (
          Ordered-push (keys db.actions) (key r) v.ordered
            (keys-Before db.actions (key r) (omega arith) (omega arith)));
      links = rw pushed (
          All-append (Link (keys db.actions ++ (key r ∷ []))) (keys db.actions) (key r ∷ [])
            (Links-append (keys db.actions) (key r ∷ []) (keys db.actions) v.links)
            (Link-append (keys db.actions) (key r ∷ []) (key r) link, tt));
      sessions = rw pushed (
          All-append (InSession db.sessions) (keys db.actions) (key r ∷ []) v.sessions
            (in_session, tt));
      attached =
          HasAction-mono db.actions (db.actions ++ (r ∷ []))
            (λ id. any-append id db.actions (r ∷ [])) db.manifests v.attached;
    }

-- Sessions that still hold every id that they held.
pub IsValid-sessions :
    (db : Db) (sessions : List Session)
    → ((id : String) → has_session db.sessions id ≡ true → has_session sessions id ≡ true)
    → IsValid db
    → IsValid (record db { sessions = sessions })
IsValid-sessions db sessions more v = record {
  ordered = v.ordered;
  links = v.links;
  sessions = held (keys db.actions) v.sessions;
  attached = v.attached;
}
  where
    held : (ks : List Key) → All (InSession db.sessions) ks → All (InSession sessions) ks
    held [] h = tt
    held (k ∷ ks) h = (more k.session_id h.0, held ks h.1)

pub attached_push :
    (rows : List ActionRecord) (ms : List ManifestRow) (m : ManifestRow)
    → All (HasAction rows) ms
    → HasAction rows m
    → All (HasAction rows) (ms ++ (m ∷ []))
attached_push rows [] m h new = (new, tt)
attached_push rows (x ∷ ms) m h new = (h.0, attached_push rows ms m h.1 new)
