-- ===== src/Db/BtcRepository/Deposits.antt =====
-- The deposits table under `InsertBtcDepositTxs` of db/repository.go.
use lorenzo_btcstaking_submi.Base.{
  ◌≡◌, refl, inl, eq_iff, Bool, List, [], ◌∷◌, ◌++◌, arith, ok, All,
}
use lorenzo_btcstaking_submi.Db.Types.{BtcDepositTx}
use lorenzo_btcstaking_submi.Db.Orm.{Model, IsLawful, Answers, eq_of_Answers}
use lorenzo_btcstaking_submi.Db.Insertion.{
  IsKeyTest, insert_new, add_new, Distinct, Covers, some_of-keep, insert_new-append,
  insert_new-added, insert_new-Distinct, insert_new-Covers, insert_new_of_Covers,
}
use lorenzo_btcstaking_submi.Db.BtcRepository.{
  with_txid, has_deposit_tx_by_txid, insert_each, insert_btc_deposit_txs,
}

abbrev pub same_txid : BtcDepositTx → BtcDepositTx → Bool
same_txid tx = with_txid tx.txid

same_txid-IsKeyTest : IsKeyTest same_txid
same_txid-IsKeyTest = record {
  self = λ t. (eq_iff t.txid t.txid).1 refl;
  share =
      λ s t r e. ground (arith, eq_iff t.txid s.txid, eq_iff r.txid s.txid, eq_iff r.txid t.txid);
}

module _ (db : Model BtcDepositTx) (lawful : IsLawful db) where
  insert_each-insert_new :
      (txs rows : List BtcDepositTx)
      → Answers (insert_each db txs rows) (ok (insert_new same_txid txs rows))
  unfolding insert_each has_deposit_tx_by_txid insert_new
  insert_each-insert_new [] rows = inl refl
  insert_each-insert_new (tx ∷ txs) rows = ground (
    arith,
    lawful.count_answers (with_txid tx.txid) rows,
    lawful.create_answers tx rows,
    some_of-keep (same_txid tx) rows,
    insert_each-insert_new txs (add_new same_txid tx rows),
  )

  -- The repository's insertion is `insert_new`, or it fails as a statement does.
  pub insert_btc_deposit_txs-insert_new :
      (txs rows : List BtcDepositTx)
      → Answers (insert_btc_deposit_txs db txs rows) (ok (insert_new same_txid txs rows))
  unfolding insert_btc_deposit_txs insert_new
  insert_btc_deposit_txs-insert_new [] rows = inl refl
  insert_btc_deposit_txs-insert_new (tx ∷ txs) rows = ground (
    arith,
    lawful.transaction_answers (insert_each db (tx ∷ txs)) rows,
    insert_each-insert_new (tx ∷ txs) rows,
  )

  pub insert_btc_deposit_txs-append :
      (txs rows after : List BtcDepositTx)
      → insert_btc_deposit_txs db txs rows ≡ ok after
      → (added : List BtcDepositTx) × (after ≡ rows ++ added)
  insert_btc_deposit_txs-append txs rows after h =
      rw (eq_of_Answers (insert_btc_deposit_txs-insert_new txs rows) h)
        (insert_new-append same_txid txs rows)

  pub insert_btc_deposit_txs-Covers :
      (txs rows after : List BtcDepositTx)
      → insert_btc_deposit_txs db txs rows ≡ ok after
      → Covers same_txid after txs
  insert_btc_deposit_txs-Covers txs rows after h =
      rw (eq_of_Answers (insert_btc_deposit_txs-insert_new txs rows) h)
        (insert_new-Covers same_txid-IsKeyTest txs rows)

  -- On a database that obeys its laws and a table with no two rows of one txid, an insertion that
  -- succeeds keeps every row in its place, adds rows at the end only, leaves no two rows of one
  -- txid, and leaves a row for the txid of each transaction.
  pub insert_btc_deposit_txs-Distinct :
      (txs rows after : List BtcDepositTx)
      → Distinct same_txid rows
      → insert_btc_deposit_txs db txs rows ≡ ok after
      → ((added : List BtcDepositTx) × (after ≡ rows ++ added))
        × Distinct same_txid after
        × Covers same_txid after txs
  insert_btc_deposit_txs-Distinct txs rows after d h =
      rw (eq_of_Answers (insert_btc_deposit_txs-insert_new txs rows) h) (
        insert_new-append same_txid txs rows,
        insert_new-Distinct same_txid-IsKeyTest txs rows d,
        insert_new-Covers same_txid-IsKeyTest txs rows,
      )

  -- On a database that obeys its laws, inserting the transactions of an insertion that succeeded
  -- once more, as after a crash before the sync point moved, changes nothing or fails as a
  -- statement does.
  pub insert_btc_deposit_txs_idem :
      (txs rows after : List BtcDepositTx)
      → insert_btc_deposit_txs db txs rows ≡ ok after
      → Answers (insert_btc_deposit_txs db txs after) (ok after)
  insert_btc_deposit_txs_idem txs rows after h =
      rw (insert_new_of_Covers same_txid txs after (insert_btc_deposit_txs-Covers txs rows after h))
        at (insert_btc_deposit_txs-insert_new txs after)

  pub insert_btc_deposit_txs-added :
      (P : BtcDepositTx → Type 0) (txs rows after : List BtcDepositTx)
      → All P txs
      → insert_btc_deposit_txs db txs rows ≡ ok after
      → (added : List BtcDepositTx) × (after ≡ rows ++ added) × All P added
  insert_btc_deposit_txs-added P txs rows after all h =
      rw (eq_of_Answers (insert_btc_deposit_txs-insert_new txs rows) h)
        (insert_new-added same_txid P txs rows all)
