-- ===== src/Db/Queue.antt =====
-- The tables of deposits as queues: rows with a key and a status, a batch taken from them, and the
-- marks of the batch's rows. Both relayers use their table this way, db/btc_repository.go and
-- db/bnb_repository.go.
pub mod Rows
pub mod Marking
pub mod Growth
pub mod Ledger
pub mod Settled
use mathlib.Core.List.{Mem}
use lorenzo_btcstaking_submi.Base.{
  ℕ, ◌≡◌, ◌≢◌, ◌⊎◌, ◌↔◌, Bool, true, if◌then◌else◌, List, ◌++◌, map, All, Each,
}
use lorenzo_btcstaking_submi.Db.Types.{status_pending}
use lorenzo_btcstaking_submi.Db.Insertion.{Distinct}

-- What the program reads and writes of a row: `same t r` is the test of a statement for the rows
-- with the key of `t`.
pub record Columns (Row Key : Type 0) : Type 0 where
  pub key : Row → Key
  pub same : Row → Row → Bool
  pub status : Row → ℕ
  pub with_status : ℕ → Row → Row

pub record IsColumns {Row Key : Type 0} (c : Columns Row Key) : Type 0 where
  pub row_discrete : Discrete Row
  pub reads : (t r : Row) → (c.same t r ≡ true) ↔ (c.key r ≡ c.key t)
  pub keeps_key : (n : ℕ) (r : Row) → c.key (c.with_status n r) ≡ c.key r
  pub sets_status : (n : ℕ) (r : Row) → c.status (c.with_status n r) ≡ n

module _ {Row Key : Type 0} (c : Columns Row Key) where
  -- The table after a mark of the rows with the key of `t`.
  abbrev pub marked : Row → ℕ → List Row → List Row
  marked t n = map (λ r. if c.same t r then c.with_status n r else r)

  -- A pending row of the table.
  abbrev pub Waiting : List Row → Row → Type 0
  Waiting rows t = Mem t rows × (c.status t ≡ status_pending)

  -- No two rows have one key, nor have two of the batch, and each row of the batch is still as the
  -- table has it, and pending.
  pub record IsQueue (rows batch : List Row) : Type 0 where
    pub rows_distinct : Distinct c.same rows
    pub batch_distinct : Distinct c.same batch
    pub batch_current : All (Waiting rows) batch

  module _ (Reason : Row → ℕ → Type 0) where
    -- The row as it was, or a pending row with a new status and the reason for it.
    abbrev pub Aged : Row → Row → Type 0
    Aged before after =
        (after ≡ before)
        ⊎ ((n : ℕ) × (c.status before ≡ status_pending)
            × (after ≡ c.with_status n before)
            × Reason before n)

    -- The rows have aged in their places, and pending rows may follow.
    abbrev pub Grows : List Row → List Row → Type 0
    Grows rows after =
        (kept added : List Row) × (after ≡ kept ++ added)
        × Each Aged rows kept
        × All (λ r. c.status r ≡ status_pending) added

    -- The same, of whatever rows follow.
    abbrev pub Ages : List Row → List Row → Type 0
    Ages rows after = (kept added : List Row) × (after ≡ kept ++ added) × Each Aged rows kept
