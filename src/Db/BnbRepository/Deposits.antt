-- ===== src/Db/BnbRepository/Deposits.antt =====
-- The wrapped deposits under `InsertWrappedBTCDepositTxs` of db/bnb_repository.go.
use lorenzo_btcstaking_submi.Base.{
  ◌≡◌, refl, inl, eq_iff, Bool, List, [], ◌∷◌, ◌++◌, arith, All, ok,
}
use lorenzo_btcstaking_submi.Db.Types.{WrappedBtcDepositTx}
use lorenzo_btcstaking_submi.Db.Orm.{Model, IsLawful, Answers, eq_of_Answers}
use lorenzo_btcstaking_submi.Db.Insertion.{
  IsKeyTest, insert_new, add_new, Distinct, Covers, some_of-keep, insert_new-append,
  insert_new-Distinct, insert_new-Covers, insert_new_of_Covers, insert_new-added,
}
use lorenzo_btcstaking_submi.Db.BnbRepository.{
  with_chain_txid, has_wrapped_btc_deposit_tx_by_txid, insert_each, insert_wrapped_btc_deposit_txs,
}

abbrev pub same_chain_txid : WrappedBtcDepositTx → WrappedBtcDepositTx → Bool
same_chain_txid tx = with_chain_txid tx.chain tx.txid

same_chain_txid-IsKeyTest : IsKeyTest same_chain_txid
same_chain_txid-IsKeyTest = record {
  self = λ t. ground (arith, eq_iff t.txid t.txid, eq_iff t.chain t.chain);
  share = λ s t r e. ground (
    arith,
    eq_iff t.txid s.txid,
    eq_iff r.txid s.txid,
    eq_iff r.txid t.txid,
    eq_iff t.chain s.chain,
    eq_iff r.chain s.chain,
    eq_iff r.chain t.chain,
  );
}

module _ (db : Model WrappedBtcDepositTx) (lawful : IsLawful db) where
  insert_each-insert_new :
      (txs rows : List WrappedBtcDepositTx)
      → Answers (insert_each db txs rows) (ok (insert_new same_chain_txid txs rows))
  unfolding insert_each has_wrapped_btc_deposit_tx_by_txid insert_new
  insert_each-insert_new [] rows = inl refl
  insert_each-insert_new (tx ∷ txs) rows = ground (
    arith,
    lawful.count_answers (same_chain_txid tx) rows,
    lawful.create_answers tx rows,
    some_of-keep (same_chain_txid tx) rows,
    insert_each-insert_new txs (add_new same_chain_txid tx rows),
  )

  -- The repository's insertion is `insert_new`, or it fails as a statement does.
  pub insert_wrapped-insert_new :
      (txs rows : List WrappedBtcDepositTx)
      → Answers
          (insert_wrapped_btc_deposit_txs db txs rows)
          (ok (insert_new same_chain_txid txs rows))
  unfolding insert_wrapped_btc_deposit_txs
  insert_wrapped-insert_new txs rows =
      ground (
        arith,
        lawful.transaction_answers (insert_each db txs) rows,
        insert_each-insert_new txs rows,
      )

  pub insert_wrapped-Covers :
      (txs rows after : List WrappedBtcDepositTx)
      → insert_wrapped_btc_deposit_txs db txs rows ≡ ok after
      → Covers same_chain_txid after txs
  insert_wrapped-Covers txs rows after h =
      rw (eq_of_Answers (insert_wrapped-insert_new txs rows) h)
        (insert_new-Covers same_chain_txid-IsKeyTest txs rows)

  -- On a database that obeys its laws and a table with no two rows of one chain and txid, an
  -- insertion that succeeds keeps every row in its place, adds rows at the end only, leaves no two
  -- rows of one chain and txid, and leaves a row for the key of each transaction.
  pub insert_wrapped-Distinct :
      (txs rows after : List WrappedBtcDepositTx)
      → Distinct same_chain_txid rows
      → insert_wrapped_btc_deposit_txs db txs rows ≡ ok after
      → ((added : List WrappedBtcDepositTx) × (after ≡ rows ++ added))
        × Distinct same_chain_txid after
        × Covers same_chain_txid after txs
  insert_wrapped-Distinct txs rows after d h =
      rw (eq_of_Answers (insert_wrapped-insert_new txs rows) h) (
        insert_new-append same_chain_txid txs rows,
        insert_new-Distinct same_chain_txid-IsKeyTest txs rows d,
        insert_new-Covers same_chain_txid-IsKeyTest txs rows,
      )

  -- On a database that obeys its laws, inserting the wrapped transactions of an insertion that
  -- succeeded once more changes nothing or fails as a statement does.
  pub insert_wrapped_idem :
      (txs rows after : List WrappedBtcDepositTx)
      → insert_wrapped_btc_deposit_txs db txs rows ≡ ok after
      → Answers (insert_wrapped_btc_deposit_txs db txs after) (ok after)
  insert_wrapped_idem txs rows after h =
      rw (insert_new_of_Covers same_chain_txid txs after (insert_wrapped-Covers txs rows after h))
        at (insert_wrapped-insert_new txs after)

  pub insert_wrapped-added :
      (P : WrappedBtcDepositTx → Type 0) (txs rows after : List WrappedBtcDepositTx)
      → All P txs
      → insert_wrapped_btc_deposit_txs db txs rows ≡ ok after
      → (added : List WrappedBtcDepositTx) × (after ≡ rows ++ added) × All P added
  insert_wrapped-added P txs rows after all h =
      rw (eq_of_Answers (insert_wrapped-insert_new txs rows) h)
        (insert_new-added same_chain_txid P txs rows all)
