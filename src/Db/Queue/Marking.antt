-- ===== src/Db/Queue/Marking.antt =====
-- The operations of a queue: rows are added, a batch is fetched, and a row of the batch is marked.
use mathlib.Core.Path.{subst}
use mathlib.Core.List.{Mem, Perm, append-nil, mem-append_left}
use lorenzo_btcstaking_submi.Base.{
  ℕ, ◌≡◌, ◌≢◌, refl, sym, inl, inr, Bool, true, false, Option, none, some, List, [], ◌∷◌, ◌++◌,
  arith, some_of, Bool-cases, keep, All, All-take, Each, Each-refl,
}
use lorenzo_btcstaking_submi.Base.Members.{All-of_mem, Perm-keep}
use lorenzo_btcstaking_submi.Db.Types.{status_pending}
use lorenzo_btcstaking_submi.Db.Orm.{limited}
use lorenzo_btcstaking_submi.Db.Insertion.{Distinct}
use lorenzo_btcstaking_submi.Db.Queue.{Columns, IsColumns, marked, Waiting, IsQueue, Aged, Grows}
use lorenzo_btcstaking_submi.Db.Queue.Rows.{
  unique_row, Distinct-take, Distinct-Perm-keep, Distinct-marked, Mem-marked_ne,
}

module _ {Row Key : Type 0} {c : Columns Row Key} (law : IsColumns c) where
  Waiting-append :
      (rows added batch : List Row)
      → All (Waiting c rows) batch
      → All (Waiting c (rows ++ added)) batch
  Waiting-append rows added [] h = tt
  Waiting-append rows added (t ∷ batch) ((m, pending), h) =
      ((mem-append_left added m, pending), Waiting-append rows added batch h)

  Waiting-marked :
      (t : Row) (n : ℕ) (rows rest : List Row)
      → some_of (c.same t) rest ≡ false
      → All (Waiting c rows) rest
      → All (Waiting c (marked c t n rows)) rest
  Waiting-marked t n rows [] fresh h = tt
  Waiting-marked t n rows (o ∷ rest) fresh ((m, pending), h) =
      let other : c.key o ≢ c.key t = ground (arith, law.reads t o) in
      let fresh' : some_of (c.same t) rest ≡ false = ground arith in
      ((Mem-marked_ne law t o n rows other m, pending), Waiting-marked t n rows rest fresh' h)

  pub IsQueue-append :
      (rows added batch : List Row)
      → Distinct c.same (rows ++ added)
      → IsQueue c rows batch
      → IsQueue c (rows ++ added) batch
  IsQueue-append rows added batch distinct queue = record {
    rows_distinct = distinct;
    batch_distinct = queue.batch_distinct;
    batch_current = Waiting-append rows added batch queue.batch_current;
  }

  -- After a crash, and before the first batch.
  pub IsQueue-dropped : (rows batch : List Row) → IsQueue c rows batch → IsQueue c rows []
  IsQueue-dropped rows batch queue = record {
    rows_distinct = queue.rows_distinct;
    batch_distinct = tt;
    batch_current = tt;
  }

  pub IsQueue-tail :
      (t : Row) (rows rest : List Row) → IsQueue c rows (t ∷ rest) → IsQueue c rows rest
  IsQueue-tail t rows rest queue = record {
    rows_distinct = queue.rows_distinct;
    batch_distinct = queue.batch_distinct.1;
    batch_current = queue.batch_current.1;
  }

  -- A batch of pending rows, in whatever order and cut anywhere.
  pub IsQueue-fetched :
      (p : Row → Bool) (limit : Option ℕ) (rows batch sorted : List Row)
      → ((r : Row) → p r ≡ true → c.status r ≡ status_pending)
      → Perm sorted (keep p rows)
      → IsQueue c rows batch
      → IsQueue c rows (limited limit sorted)
  IsQueue-fetched p limit rows batch sorted pending same queue =
      let distinct = Distinct-Perm-keep law p rows sorted same queue.rows_distinct in
      let waiting = ready sorted (Perm-keep p rows sorted same) in
      elim limit as (λ l. IsQueue c rows (limited l sorted)) [
        | none ↦ record {
          rows_distinct = queue.rows_distinct;
          batch_distinct = distinct;
          batch_current = waiting;
        }
        | some n ↦ record {
          rows_distinct = queue.rows_distinct;
          batch_distinct = Distinct-take law n sorted distinct;
          batch_current = All-take (Waiting c rows) n sorted waiting;
        }
      ]
    where
      ready :
          (found : List Row)
          → All (λ r. Mem r rows × (p r ≡ true)) found
          → All (Waiting c rows) found
      ready [] h = tt
      ready (r ∷ found) ((m, passes), h) = ((m, pending r passes), ready found h)

  module _ (Reason : Row → ℕ → Type 0) where
    pub Grows-append :
        (rows added : List Row)
        → All (λ r. c.status r ≡ status_pending) added
        → Grows c Reason rows (rows ++ added)
    Grows-append rows added pending =
        (rows, added, refl, Each-refl (Aged c Reason) rows (λ r. inl refl), pending)

    pub Grows-refl : (rows : List Row) → Grows c Reason rows rows
    Grows-refl rows =
        (rows, [], sym (append-nil rows), Each-refl (Aged c Reason) rows (λ r. inl refl), tt)

    marked-Each :
        (t : Row) (n : ℕ) (rows : List Row)
        → All (λ o. c.key t ≡ c.key o → o ≡ t) rows
        → c.status t ≡ status_pending
        → Reason t n
        → Each (Aged c Reason) rows (marked c t n rows)
    marked-Each t n [] only pending why = tt
    marked-Each t n (o ∷ rows) (first, only) pending why =
        let rest = marked-Each t n rows only pending why in
        elim (Bool-cases (c.same t o)) [
          | inl same ↦
              let e = first (sym ((law.reads t o).0 same)) in
              rw same (inr (n, rw e pending, refl, subst (λ r. Reason r n) (sym e) why), rest)
          | inr other ↦ rw other (inl refl, rest)
        ]

    -- The first row of the batch is marked with a reason.
    pub marked-IsQueue :
        (t : Row) (n : ℕ) (rows rest : List Row)
        → IsQueue c rows (t ∷ rest)
        → Reason t n
        → IsQueue c (marked c t n rows) rest × Grows c Reason rows (marked c t n rows)
    marked-IsQueue t n rows rest queue why =
        let (fresh, apart) = queue.batch_distinct in
        let ((m, pending), current) = queue.batch_current in
        let only =
          All-of_mem (λ o. c.key t ≡ c.key o → o ≡ t) rows
            (λ o k e. unique_row law t o rows queue.rows_distinct e m k) in
        (
          record {
            rows_distinct = Distinct-marked law t n rows queue.rows_distinct;
            batch_distinct = apart;
            batch_current = Waiting-marked t n rows rest fresh current;
          },
          (
            marked c t n rows,
            [],
            sym (append-nil (marked c t n rows)),
            marked-Each t n rows only pending why,
            tt,
          ),
        )
