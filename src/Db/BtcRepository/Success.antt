-- ===== src/Db/BtcRepository/Success.antt =====
-- db/repository.go over a database that does not fail.
use lorenzo_btcstaking_submi.Base.{ℕ, ◌≡◌, refl, ◌∙◌, List, [], ◌∷◌, arith, ok}
use lorenzo_btcstaking_submi.Db.Types.{Config, BtcDepositTx, submitter_btc_sync_point_key}
use lorenzo_btcstaking_submi.Db.Orm.{Model}
use lorenzo_btcstaking_submi.Db.Insertion.{insert_new, add_new, some_of-keep}
use lorenzo_btcstaking_submi.Db.Reliable.{IsReliable, set_uint64-succeeds}
use lorenzo_btcstaking_submi.Db.BtcRepository.{
  with_txid, has_deposit_tx_by_txid, insert_each, insert_btc_deposit_txs, update_sync_point,
}
use lorenzo_btcstaking_submi.Db.BtcRepository.Deposits.{same_txid}

insert_each-succeeds :
    (db : Model BtcDepositTx) (txs rows : List BtcDepositTx)
    → IsReliable db
    → insert_each db txs rows ≡ ok (insert_new same_txid txs rows)
unfolding insert_each has_deposit_tx_by_txid insert_new
insert_each-succeeds db [] rows reliable = refl
insert_each-succeeds db (tx ∷ txs) rows reliable = ground (
  arith,
  reliable.count_replies (with_txid tx.txid) rows,
  reliable.create_replies tx rows,
  some_of-keep (same_txid tx) rows,
  insert_each-succeeds db txs (add_new same_txid tx rows) reliable,
)

pub insert_btc_deposit_txs-succeeds :
    (db : Model BtcDepositTx) (txs rows : List BtcDepositTx)
    → IsReliable db
    → insert_btc_deposit_txs db txs rows ≡ ok (insert_new same_txid txs rows)
unfolding insert_btc_deposit_txs insert_new
insert_btc_deposit_txs-succeeds db [] rows reliable = refl
insert_btc_deposit_txs-succeeds db (tx ∷ txs) rows reliable =
    reliable.transaction_replies (insert_each db (tx ∷ txs)) rows
    ∙ insert_each-succeeds db (tx ∷ txs) rows reliable

pub update_sync_point-succeeds :
    (db : Model Config) (height : ℕ) (rows : List Config)
    → IsReliable db
    → (after : List Config) × (update_sync_point db height rows ≡ ok after)
unfolding update_sync_point
update_sync_point-succeeds db height rows reliable =
    set_uint64-succeeds db submitter_btc_sync_point_key height rows reliable
