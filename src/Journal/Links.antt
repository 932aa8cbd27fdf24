-- ===== src/Journal/Links.antt =====
-- What an undo's row refers to: an earlier row, a command or an undo of a command.
use doover.Base.{
  ℕ, ◌<◌, ◌≡◌, ◌≢◌, refl, inl, inr, Bool, true, none, some, List, [], ◌∷◌, ◌++◌, arith, All, sym,
  ap, ◌∙◌, filter, Bool-cases,
}
use doover.Journal.Records.{ActionRecord, ActionKind, command, undo, ActionStatus, pending}
use doover.Journal.Tables.{is_target}
use doover.Journal.Keys.{Key, key, keys, Among, Among-append_left, Before, Ordered}

-- Below an undo stands a command.
abbrev pub IsShallow : List Key → Key → Type 0
IsShallow ks t =
    t.kind ≡ undo → (c : Key) × Among c ks × (t.target ≡ some c.id) × (c.kind ≡ command)

-- The target of a row: none for a command; for an undo a row with a smaller id, which is a command
-- or an undo of a command. An undo has recorded a settled status of its target.
abbrev pub LinkOf : List Key → ActionKind → Key → Type 0
LinkOf ks command k = k.target ≡ none
LinkOf ks undo k =
    ((t : Key) × Among t ks × (k.target ≡ some t.id) × (t.id < k.id) × IsShallow ks t)
    × ((p : ActionStatus) × (k.prior ≡ some p) × (p ≢ pending))

abbrev pub Link : List Key → Key → Type 0
Link ks k = LinkOf ks k.kind k

IsShallow-append : (ks more : List Key) (t : Key) → IsShallow ks t → IsShallow (ks ++ more) t
IsShallow-append ks more t h e =
    let (c, at, aims, plain) = h e in (c, Among-append_left c ks more at, aims, plain)

pub Link-append : (ks more : List Key) (k : Key) → Link ks k → Link (ks ++ more) k
Link-append ks more k = by_kind k.kind
  where
    by_kind : (kind : ActionKind) → LinkOf ks kind k → LinkOf (ks ++ more) kind k
    by_kind command h = h
    by_kind undo ((t, at, aims, below, shallow), prior) = (
      (t, Among-append_left t ks more at, aims, below, IsShallow-append ks more t shallow),
      prior,
    )

pub Links-append : (ks more xs : List Key) → All (Link ks) xs → All (Link (ks ++ more)) xs
Links-append ks more [] h = tt
Links-append ks more (x ∷ xs) h = (Link-append ks more x h.0, Links-append ks more xs h.1)

-- A filter that keeps every row that some row targets.
module _ (q : ActionRecord → Bool) where
  abbrev KeepsTargets : List ActionRecord → Type 0
  KeepsTargets rows = (a : ActionRecord) → is_target rows a.id ≡ true → q a ≡ true

  Among-filter :
      (k : Key) (rows : List ActionRecord)
      → ((a : ActionRecord) → a.id ≡ k.id → q a ≡ true)
      → Among k (keys rows)
      → Among k (keys (filter q rows))
  unfolding keys
  Among-filter k [] keep h = absurd h
  Among-filter k (r ∷ rows) keep (inl e) = rw (keep r (sym (ap (λ (x : Key). x.id) e))) (inl e)
  Among-filter k (r ∷ rows) keep (inr h) = elim (Bool-cases (q r)) [
    | inl kept ↦ rw kept (inr (Among-filter k rows keep h))
    | inr gone ↦ rw gone (Among-filter k rows keep h)
  ]

  -- What a key among the rows aims at is a target of the table.
  is_target_of_Among :
      (k : Key) (id : ℕ) (rows : List ActionRecord)
      → Among k (keys rows)
      → k.target ≡ some id
      → is_target rows id ≡ true
  unfolding keys is_target
  is_target_of_Among k id [] h e = absurd h
  is_target_of_Among k id (r ∷ rows) (inl same) e =
      let aims : r.target_action_id ≡ some id = sym (ap (λ (x : Key). x.target) same) ∙ e in
      ground arith
  is_target_of_Among k id (r ∷ rows) (inr h) e = ground (arith, is_target_of_Among k id rows h e)

  module _ (rows : List ActionRecord) (keep : KeepsTargets rows) where
    target-survives :
        (k t : Key)
        → Among k (keys rows)
        → k.target ≡ some t.id
        → Among t (keys rows)
        → Among t (keys (filter q rows))
    target-survives k t here aims there =
        Among-filter t rows (λ a same. keep a (rw same (is_target_of_Among k t.id rows here aims)))
          there

    Link-filter :
        (k : Key) → Among k (keys rows) → Link (keys rows) k → Link (keys (filter q rows)) k
    Link-filter k here = by_kind k.kind
      where
        by_kind :
            (kind : ActionKind) → LinkOf (keys rows) kind k → LinkOf (keys (filter q rows)) kind k
        by_kind command h = h
        by_kind undo ((t, there, aims, below, shallow), prior) = (
          (
            t,
            target-survives k t here aims there,
            aims,
            below,
            λ e.
                let (c, last, points, plain) = shallow e in
                (c, target-survives t c there points last, points, plain),
          ),
          prior,
        )

    pub Links-filter :
        (xs : List ActionRecord)
        → ((k : Key) → Among k (keys xs) → Among k (keys rows))
        → All (Link (keys rows)) (keys xs)
        → All (Link (keys (filter q rows))) (keys (filter q xs))
    unfolding keys
    Links-filter [] inside h = tt
    Links-filter (r ∷ xs) inside h = elim (Bool-cases (q r)) [
      | inl kept ↦ rw kept (
        Link-filter (key r) (inside (key r) (inl refl)) h.0,
        Links-filter xs (λ k at. inside k (inr at)) h.1,
      )
      | inr gone ↦ rw gone (Links-filter xs (λ k at. inside k (inr at)) h.1)
    ]

  pub All-filter {κ} :
      (P : Key → Type κ) (rows : List ActionRecord)
      → All P (keys rows)
      → All P (keys (filter q rows))
  unfolding keys
  All-filter P [] h = tt
  All-filter P (r ∷ rows) h = elim (Bool-cases (q r)) [
    | inl kept ↦ rw kept (h.0, All-filter P rows h.1)
    | inr gone ↦ rw gone (All-filter P rows h.1)
  ]

  pub Ordered-filter :
      (rows : List ActionRecord) → Ordered (keys rows) → Ordered (keys (filter q rows))
  unfolding keys
  Ordered-filter [] h = tt
  Ordered-filter (r ∷ rows) h = elim (Bool-cases (q r)) [
    | inl kept ↦ rw kept (All-filter (Before (key r)) rows h.0, Ordered-filter rows h.1)
    | inr gone ↦ rw gone (Ordered-filter rows h.1)
  ]
