-- ===== src/Db/BtcRepository.antt =====
-- db/repository.go: the BTC deposits and the BTC sync point.
pub mod Deposits
pub mod Unhandled
pub mod Success
pub mod Columns
use lorenzo_btcstaking_submi.Base.{
  ℕ, String, str_eq, Bool, ◌&&◌, ◌||◌, some, List, [], ◌∷◌, ltb, leb, ◌==◌, sub_u64, if◌then◌else◌,
  ◌>>=◌, Result, ok,
}
use lorenzo_btcstaking_submi.Db.Types.{
  Config, BtcDepositTx, dep0_amount, dep1_amount, dep2_amount, dep3_amount,
  submitter_btc_sync_point_key, status_pending, batch_handle_btc_deposit_txs_num,
}
use lorenzo_btcstaking_submi.Db.Orm.{Model}
use lorenzo_btcstaking_submi.Db.Kv.{get_uint64, set_uint64}

module _ (db : Model Config) where
  unfoldable pub update_sync_point : ℕ → List Config → Result (List Config)
  update_sync_point height = set_uint64 db submitter_btc_sync_point_key height

  unfoldable pub get_sync_point : List Config → Result ℕ
  get_sync_point = get_uint64 db submitter_btc_sync_point_key

-- Where("txid = ?", txid)
abbrev pub with_txid : String → BtcDepositTx → Bool
with_txid txid row = str_eq row.txid txid

-- The WHERE clause of `GetUnhandledBtcDepositTxs`; the differences are of `uint64`.
unfoldable pub is_unhandled : ℕ → BtcDepositTx → Bool
is_unhandled tip row =
    row.status == status_pending
    && (ltb row.amount dep0_amount
        || (ltb row.amount dep1_amount && leb row.height (sub_u64 tip 1))
        || (ltb row.amount dep2_amount && leb row.height (sub_u64 tip 2))
        || (ltb row.amount dep3_amount && leb row.height (sub_u64 tip 3))
        || (leb dep3_amount row.amount && leb row.height (sub_u64 tip 4)))

module _ (db : Model BtcDepositTx) where
  has_deposit_tx_by_txid : String → List BtcDepositTx → Result Bool
  has_deposit_tx_by_txid txid rows = do count ← db.count (with_txid txid) rows; ok (ltb 0 count)

  -- The loop of the transaction.
  insert_each : List BtcDepositTx → List BtcDepositTx → Result (List BtcDepositTx)
  insert_each [] rows = ok rows
  insert_each (tx ∷ txs) rows = do
    present ← has_deposit_tx_by_txid tx.txid rows
    rows' ← if present then ok rows else db.create tx rows
    insert_each txs rows'

  unfoldable pub insert_btc_deposit_txs :
      List BtcDepositTx → List BtcDepositTx → Result (List BtcDepositTx)
  unfolding insert_each has_deposit_tx_by_txid
  insert_btc_deposit_txs [] rows = ok rows
  insert_btc_deposit_txs (tx ∷ txs) rows = db.transaction (insert_each (tx ∷ txs)) rows

  unfoldable pub get_unhandled_btc_deposit_txs : ℕ → List BtcDepositTx → Result (List BtcDepositTx)
  unfolding is_unhandled
  get_unhandled_btc_deposit_txs tip rows =
      db.find (is_unhandled tip) (λ row. row.height) (some batch_handle_btc_deposit_txs_num) rows

  unfoldable pub update_tx_status : String → ℕ → List BtcDepositTx → Result (List BtcDepositTx)
  update_tx_status txid status = db.update (with_txid txid) (λ row. record row { status = status })
