-- ===== src/Db/BnbRepository.antt =====
-- db/bnb_repository.go: the wrapped BTC deposits of one chain, and its sync point.
pub mod Deposits
pub mod Columns
use lorenzo_btcstaking_submi.Base.{
  ℕ, String, str_eq, Bool, ◌&&◌, none, List, [], ◌∷◌, ltb, leb, ◌==◌, if◌then◌else◌, ◌>>=◌, Result,
  ok,
}
use lorenzo_btcstaking_submi.Db.Types.{
  Config, WrappedBtcDepositTx, submitter_bnb_sync_point_key, status_pending, status_success,
  status_invalid,
}
use lorenzo_btcstaking_submi.Db.Orm.{Model}
use lorenzo_btcstaking_submi.Db.Kv.{get_uint64, set_uint64}

module _ (db : Model Config) where
  unfoldable pub update_sync_point : ℕ → List Config → Result (List Config)
  update_sync_point height = set_uint64 db submitter_bnb_sync_point_key height

  unfoldable pub get_sync_point : List Config → Result ℕ
  get_sync_point = get_uint64 db submitter_bnb_sync_point_key

-- Where("chain = ? AND txid = ?", chain, txid)
abbrev pub with_chain_txid : String → String → WrappedBtcDepositTx → Bool
with_chain_txid chain txid row = str_eq row.chain chain && str_eq row.txid txid

module _ (db : Model WrappedBtcDepositTx) where
  has_wrapped_btc_deposit_tx_by_txid : String → String → List WrappedBtcDepositTx → Result Bool
  has_wrapped_btc_deposit_tx_by_txid chain txid rows = do
    count ← db.count (with_chain_txid chain txid) rows
    ok (ltb 0 count)

  -- The loop of the transaction.
  insert_each :
      List WrappedBtcDepositTx → List WrappedBtcDepositTx → Result (List WrappedBtcDepositTx)
  insert_each [] rows = ok rows
  insert_each (tx ∷ txs) rows = do
    present ← has_wrapped_btc_deposit_tx_by_txid tx.chain tx.txid rows
    rows' ← if present then ok rows else db.create tx rows
    insert_each txs rows'

  unfoldable pub insert_wrapped_btc_deposit_txs :
      List WrappedBtcDepositTx → List WrappedBtcDepositTx → Result (List WrappedBtcDepositTx)
  unfolding insert_each has_wrapped_btc_deposit_tx_by_txid
  insert_wrapped_btc_deposit_txs txs rows = db.transaction (insert_each txs) rows

  unfoldable pub get_unhandled_wrapped_btc_deposit_txs :
      ℕ → List WrappedBtcDepositTx → Result (List WrappedBtcDepositTx)
  get_unhandled_wrapped_btc_deposit_txs tip rows =
      db.find (λ row. row.status == status_pending && leb row.height tip) (λ row. row.height) none
        rows

  -- `BNBRepository.MarkSuccess` and `MarkInvalid`, of the repository of `chain_name`.
  unfoldable pub mark_success :
      String → String → List WrappedBtcDepositTx → Result (List WrappedBtcDepositTx)
  mark_success chain_name txid =
      db.update (with_chain_txid chain_name txid) (λ row. record row { status = status_success })

  unfoldable pub mark_invalid :
      String → String → List WrappedBtcDepositTx → Result (List WrappedBtcDepositTx)
  mark_invalid chain_name txid =
      db.update (with_chain_txid chain_name txid) (λ row. record row { status = status_invalid })
