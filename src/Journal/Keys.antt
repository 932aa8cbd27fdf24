-- ===== src/Journal/Keys.antt =====
-- The parts of an action's row that no update changes, and the structure that they have.
use doover.Base.{
  ℕ, ◌<◌, String, ◌≡◌, refl, ◌⊎◌, inl, inr, Bool, Option, List, [], ◌∷◌, ◌++◌, arith, All,
  Bool-cases, eq_iff,
}
use doover.Journal.Records.{ActionRecord, ActionKind, ActionStatus}
use doover.Journal.Tables.{update_where, max_seq, max_id}

pub record Key : Type 0 where
  pub id : ℕ
  pub session_id : String
  pub seq : ℕ
  pub kind : ActionKind
  pub target : Option ℕ
  pub prior : Option ActionStatus

abbrev pub key : ActionRecord → Key
key r = record {
  id = r.id;
  session_id = r.session_id;
  seq = r.seq;
  kind = r.kind;
  target = r.target_action_id;
  prior = r.target_prior_status;
}

unfoldable pub keys : List ActionRecord → List Key
keys [] = []
keys (r ∷ rows) = key r ∷ keys rows

pub keys-append : (xs ys : List ActionRecord) → keys (xs ++ ys) ≡ keys xs ++ keys ys
unfolding keys
keys-append [] ys = refl
keys-append (r ∷ xs) ys = rw (keys-append xs ys)

-- An update that leaves the key of each row alone leaves all keys alone.
pub keys-update_where :
    (p : ActionRecord → Bool) (f : ActionRecord → ActionRecord)
    → ((r : ActionRecord) → key (f r) ≡ key r)
    → (rows : List ActionRecord) → keys (update_where p f rows) ≡ keys rows
unfolding keys update_where
keys-update_where p f same [] = refl
keys-update_where p f same (r ∷ rows) = elim (Bool-cases (p r)) [
  | inl hit ↦ rw (hit, keys-update_where p f same rows, same r)
  | inr miss ↦ rw (miss, keys-update_where p f same rows)
]

-- `k` stands among the keys.
abbrev pub Among : Key → List Key → Type 0
Among k [] = ⊥
Among k (x ∷ xs) = (k ≡ x) ⊎ Among k xs

pub Among-append_left : (k : Key) (xs ys : List Key) → Among k xs → Among k (xs ++ ys)
Among-append_left k [] ys h = absurd h
Among-append_left k (x ∷ xs) ys (inl e) = inl e
Among-append_left k (x ∷ xs) ys (inr h) = inr (Among-append_left k xs ys h)

-- In the order of the list ids grow, and within a session the sequence numbers grow.
abbrev pub Before : Key → Key → Type 0
Before a b = (a.id < b.id) × (a.session_id ≡ b.session_id → a.seq < b.seq)

abbrev pub Ordered : List Key → Type 0
Ordered [] = Unit
Ordered (k ∷ rest) = All (Before k) rest × Ordered rest

pub All-append {κ} : (P : Key → Type κ) (xs ys : List Key) → All P xs → All P ys → All P (xs ++ ys)
All-append P [] ys hx hy = hy
All-append P (x ∷ xs) ys hx hy = (hx.0, All-append P xs ys hx.1 hy)

-- One more key at the end, behind all others.
pub Ordered-push :
    (ks : List Key) (k : Key) → Ordered ks → All (λ a. Before a k) ks → Ordered (ks ++ (k ∷ []))
Ordered-push [] k o b = (tt, tt)
Ordered-push (x ∷ ks) k o b =
    (All-append (Before x) ks (k ∷ []) o.0 (b.0, tt), Ordered-push ks k o.1 b.1)

-- A key with a larger id and a larger sequence number than any goes behind all.
pub keys-Before :
    (rows : List ActionRecord) (k : Key)
    → max_id rows < k.id
    → max_seq k.session_id rows < k.seq
    → All (λ a. Before a k) (keys rows)
unfolding keys max_id max_seq
keys-Before [] k ids seqs = tt
keys-Before (r ∷ rows) k ids seqs = (
  (omega arith, λ same. ground (arith, eq_iff r.session_id k.session_id)),
  keys-Before rows k (omega arith) (ground arith),
)
