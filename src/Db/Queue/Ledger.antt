-- ===== src/Db/Queue/Ledger.antt =====
-- The contract of a queue for one key, as a ledger of statuses.
use lorenzo_btcstaking_submi.Base.{
  ℕ, ◌≡◌, ◌≢◌, refl, inl, inr, Bool, Option, none, some, List, [], ◌∷◌, ◌++◌, All, Each, Bool-cases,
  if◌then◌else◌,
}
use lorenzo_btcstaking_submi.Db.Types.{status_pending}
use lorenzo_btcstaking_submi.Db.Queue.{Columns, IsColumns, Aged, Grows}

-- The specification: a key becomes known, and a known one that is pending is settled once.
pub data Move : Option ℕ → Option ℕ → Type 0 where
  stay : {status : Option ℕ} → Move status status
  found : Move none (some status_pending)
  settled : {status : ℕ} → status ≢ status_pending → Move (some status_pending) (some status)

module _ {Row Key : Type 0} (c : Columns Row Key) where
  -- The status of the first row that passes a test, if there is one.
  unfoldable pub status_where : (Row → Bool) → List Row → Option ℕ
  status_where p [] = none
  status_where p (r ∷ rows) = if p r then some (c.status r) else status_where p rows

  status_where-pending :
      (p : Row → Bool) (rows : List Row)
      → All (λ r. c.status r ≡ status_pending) rows
      → Move none (status_where p rows)
  unfolding status_where
  status_where-pending p [] h = stay
  status_where-pending p (r ∷ rows) (pending, h) = elim (Bool-cases (p r)) [
    | inl same ↦ rw (same, pending) found
    | inr other ↦ rw other (status_where-pending p rows h)
  ]

  module _ (law : IsColumns c) (Reason : Row → ℕ → Type 0)
      (final : (r : Row) (n : ℕ) → Reason r n → n ≢ status_pending) (p : Row → Bool)
      (by_key : (r : Row) (n : ℕ) → p (c.with_status n r) ≡ p r) where
    Aged-Move :
        (r after : Row)
        → Aged c Reason r after
        → (p after ≡ p r) × Move (some (c.status r)) (some (c.status after))
    Aged-Move r after (inl e) = rw e (refl, stay)
    Aged-Move r after (inr (n, pending, e, why)) =
        rw (e, pending, law.sets_status n r) (by_key r n, settled (final r n why))

    Each-Move :
        (rows kept added : List Row)
        → Each (Aged c Reason) rows kept
        → All (λ r. c.status r ≡ status_pending) added
        → Move (status_where p rows) (status_where p (kept ++ added))
    unfolding status_where
    Each-Move [] [] added h all = status_where-pending p added all
    Each-Move [] (k ∷ kept) added h all = elim h [ ]
    Each-Move (r ∷ rows) [] added h all = elim h [ ]
    Each-Move (r ∷ rows) (k ∷ kept) added (aged, h) all =
        let (e, move) = Aged-Move r k aged in
        elim (Bool-cases (p r)) [
          | inl same ↦ rw (e, same) move
          | inr other ↦ rw (e, other) (Each-Move rows kept added h all)
        ]

    -- Where rows age in their places and pending ones follow, the ledger makes one move.
    pub Grows-Move :
        (rows after : List Row)
        → Grows c Reason rows after
        → Move (status_where p rows) (status_where p after)
    Grows-Move rows after (kept, added, e, aged, all) = rw e (Each-Move rows kept added aged all)
