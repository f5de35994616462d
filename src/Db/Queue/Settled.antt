-- ===== src/Db/Queue/Settled.antt =====
-- The keys that are settled, and that a mark settles its own and unsettles none.
use mathlib.Core.Bool.{Bool-set}
use mathlib.Core.Logic.Or
use mathlib.Core.List.{Mem, mem-cons, not-mem-nil}
use lorenzo_btcstaking_submi.Base.{
  ℕ, ◌≡◌, ◌≢◌, refl, inl, inr, true, some, List, [], ◌∷◌, arith, some_of, Bool-cases,
}
use lorenzo_btcstaking_submi.Db.Types.{status_pending}
use lorenzo_btcstaking_submi.Db.Queue.{Columns, IsColumns, marked}
use lorenzo_btcstaking_submi.Db.Queue.Ledger.{status_where}

module _ {Row Key : Type 0} (c : Columns Row Key) where
  -- The first row with the key of `t` is settled.
  abbrev pub IsSettled : Row → List Row → Type 0
  IsSettled t rows = (n : ℕ) × (n ≢ status_pending) × (status_where c (c.same t) rows ≡ some n)

  -- Some row has the key of `t`.
  abbrev pub IsKnown : Row → List Row → Type 0
  IsKnown t rows = (n : ℕ) × (status_where c (c.same t) rows ≡ some n)

module _ {Row Key : Type 0} {c : Columns Row Key} (law : IsColumns c) where
  same-with_status : (t r : Row) (n : ℕ) → c.same t (c.with_status n r) ≡ c.same t r
  same-with_status t r n =
      ground (arith, law.reads t r, law.reads t (c.with_status n r), law.keeps_key n r)

  pub marked-IsSettled :
      (t o : Row) (n : ℕ) (rows : List Row)
      → n ≢ status_pending
      → IsSettled c o rows
      → IsSettled c o (marked c t n rows)
  unfolding status_where
  marked-IsSettled t o n [] final (m, done, e) = absurd (ground arith)
  marked-IsSettled t o n (r ∷ rows) final (m, done, e) =
      let kept = same-with_status o r n in
      elim (Bool-cases (c.same o r)) [
        | inl here ↦ elim (Bool-cases (c.same t r)) [
          | inl same ↦ (n, final, ground (arith, law.sets_status n r))
          | inr other ↦ (m, done, ground arith)
        ]
        | inr later ↦
            let (m', done', e') = marked-IsSettled t o n rows final (m, done, ground arith) in
            (m', done', ground arith)
      ]

  pub marked-IsKnown :
      (t o : Row) (n : ℕ) (rows : List Row) → IsKnown c o rows → IsKnown c o (marked c t n rows)
  unfolding status_where
  marked-IsKnown t o n [] (m, e) = absurd (ground arith)
  marked-IsKnown t o n (r ∷ rows) (m, e) =
      let kept = same-with_status o r n in
      elim (Bool-cases (c.same o r)) [
        | inl here ↦ elim (Bool-cases (c.same t r)) [
          | inl same ↦ (n, ground (arith, law.sets_status n r))
          | inr other ↦ (m, ground arith)
        ]
        | inr later ↦
            let (m', e') = marked-IsKnown t o n rows (m, ground arith) in (m', ground arith)
      ]

  -- A mark settles its own key.
  pub marked_self :
      (t : Row) (n : ℕ) (rows : List Row)
      → n ≢ status_pending
      → IsKnown c t rows
      → IsSettled c t (marked c t n rows)
  unfolding status_where
  marked_self t n [] final (m, e) = absurd (ground arith)
  marked_self t n (r ∷ rows) final (m, e) =
      let kept = same-with_status t r n in
      elim (Bool-cases (c.same t r)) [
        | inl same ↦ (n, final, ground (arith, law.sets_status n r))
        | inr other ↦
            let (m', done', e') = marked_self t n rows final (m, ground arith) in
            (m', done', ground arith)
      ]

  -- A row of the table is known.
  pub IsKnown-Mem : (t : Row) (rows : List Row) → Mem t rows → IsKnown c t rows
  unfolding status_where
  IsKnown-Mem t rows m = found rows (present rows m)
    where
      present : (rows : List Row) → Mem t rows → some_of (c.same t) rows ≡ true
      present [] m = absurd (not-mem-nil m)
      present (r ∷ rows) m =
          Or.elim (Bool-set _ _) (mem-cons.0 m) (λ e. ground (arith, e, (law.reads t t).1 refl))
            (λ later. ground (arith, present rows later))

      found : (rows : List Row) → some_of (c.same t) rows ≡ true → IsKnown c t rows
      found [] h = cc
      found (r ∷ rows) h = elim (Bool-cases (c.same t r)) [
        | inl here ↦ (c.status r, ground arith)
        | inr other ↦ let (m, e) = found rows (ground arith) in (m, ground arith)
      ]
