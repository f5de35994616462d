-- ===== src/Tests/Db.antt =====
-- The database properties at concrete tables.
use lorenzo_btcstaking_submi.Base.{
  ℕ, ◌+◌, ◌≤◌, ◌<◌, ◌≡◌, refl, ◌↔◌, ◌⊎◌, str_eq, String, true, List, [], ◌∷◌, ◌++◌, arith, length,
  All, keep, if◌then◌else◌, sub_u64, ok,
}
use mathlib.Core.List.{Mem, Perm}
use lorenzo_btcstaking_submi.Strconv.{format_uint}
use lorenzo_btcstaking_submi.Db.Types.{
  Config, BtcDepositTx, WrappedBtcDepositTx, dep0_amount, status_pending,
  submitter_btc_sync_point_key, submitter_bnb_sync_point_key,
}
use lorenzo_btcstaking_submi.Db.Orm.{Answers, Ascending, first_row}
use lorenzo_btcstaking_submi.Db.Insertion.{Distinct, Covers}
use lorenzo_btcstaking_submi.Db.Kv.{set_uint64}
use lorenzo_btcstaking_submi.Db.Kv.SyncPoint.{stored, stored-set_uint64}
use lorenzo_btcstaking_submi.Db.BtcRepository.{
  is_unhandled, insert_btc_deposit_txs, get_unhandled_btc_deposit_txs,
}
use lorenzo_btcstaking_submi.Db.BtcRepository.Deposits.{
  same_txid, insert_btc_deposit_txs-Distinct, insert_btc_deposit_txs_idem,
}
use lorenzo_btcstaking_submi.Db.BtcRepository.Unhandled.{
  wait, is_unhandled_iff, is_unhandled_of_low_tip, get_unhandled-Ascending,
}
use lorenzo_btcstaking_submi.Db.BnbRepository.{insert_wrapped_btc_deposit_txs}
use lorenzo_btcstaking_submi.Tests.Table.{table, table-IsLawful, sort}
use lorenzo_btcstaking_submi.Tests.World.{row, config}

abbrev points : List Config
points = config submitter_btc_sync_point_key "100" ∷ config submitter_bnb_sync_point_key "7" ∷ []

abbrev moved_points : List Config
moved_points =
    config submitter_btc_sync_point_key "101" ∷ config submitter_bnb_sync_point_key "7" ∷ []

moved_points-written :
    set_uint64 (table Config) submitter_btc_sync_point_key 101 points ≡ ok moved_points
unfolding set_uint64 format_uint first_row
moved_points-written = refl

stored-set_uint64_example : stored submitter_btc_sync_point_key moved_points ≡ (
    if str_eq submitter_btc_sync_point_key submitter_btc_sync_point_key
    then ok 101
    else stored submitter_btc_sync_point_key points)
stored-set_uint64_example =
    stored-set_uint64 (table Config) (table-IsLawful Config) submitter_btc_sync_point_key
      submitter_btc_sync_point_key 101 points (omega arith) moved_points-written

abbrev first_rows : List BtcDepositTx
first_rows = row "tx-a" 1000 90 0 ∷ row "tx-b" 3000000 107 0 ∷ row "tx-c" 60000000 110 0 ∷ []

abbrev new_rows : List BtcDepositTx
new_rows = row "tx-b" 3000000 107 0 ∷ row "tx-d" 500 80 0 ∷ row "tx-d" 500 80 0 ∷ []

abbrev all_rows : List BtcDepositTx
all_rows = first_rows ++ row "tx-d" 500 80 0 ∷ []

new_rows-inserted : insert_btc_deposit_txs (table BtcDepositTx) new_rows first_rows ≡ ok all_rows
unfolding insert_btc_deposit_txs
new_rows-inserted = refl

insert_btc_deposit_txs-Distinct_example :
    ((added : List BtcDepositTx) × (all_rows ≡ first_rows ++ added))
    × Distinct same_txid all_rows
    × Covers same_txid all_rows new_rows
insert_btc_deposit_txs-Distinct_example =
    insert_btc_deposit_txs-Distinct (table BtcDepositTx) (table-IsLawful BtcDepositTx) new_rows
      first_rows all_rows (refl, (refl, (refl, tt))) new_rows-inserted

insert_btc_deposit_txs_idem_example :
    Answers (insert_btc_deposit_txs (table BtcDepositTx) new_rows all_rows) (ok all_rows)
insert_btc_deposit_txs_idem_example =
    insert_btc_deposit_txs_idem (table BtcDepositTx) (table-IsLawful BtcDepositTx) new_rows
      first_rows all_rows new_rows-inserted

is_unhandled_iff_example :
    (is_unhandled 110 (row "tx-b" 3000000 107 0) ≡ true)
    ↔ ((0 ≡ status_pending) × ((3000000 < dep0_amount) ⊎ (107 + wait 3000000 ≤ 110)))
is_unhandled_iff_example =
    is_unhandled_iff 110 (row "tx-b" 3000000 107 0) (omega arith) (omega arith)

is_unhandled_of_low_tip_example : is_unhandled 3 (row "tx-c" 60000000 800000 0) ≡ true
is_unhandled_of_low_tip_example =
    is_unhandled_of_low_tip 3 (row "tx-c" 60000000 800000 0) (omega arith) refl (omega arith)
      (omega arith)

abbrev ready_rows : List BtcDepositTx
ready_rows = row "tx-d" 500 80 0 ∷ row "tx-a" 1000 90 0 ∷ row "tx-b" 3000000 107 0 ∷ []

ready_rows-found : get_unhandled_btc_deposit_txs (table BtcDepositTx) 110 all_rows ≡ ok ready_rows
unfolding get_unhandled_btc_deposit_txs sort sub_u64
ready_rows-found = refl

get_unhandled-Ascending_example :
    (length ready_rows ≤ 50)
    × Ascending (λ row. row.height) ready_rows
    × All (λ row. Mem row all_rows × (is_unhandled 110 row ≡ true)) ready_rows
    × ((length ready_rows ≡ 50) ⊎ Perm ready_rows (keep (is_unhandled 110) all_rows))
get_unhandled-Ascending_example =
    get_unhandled-Ascending (table BtcDepositTx) (table-IsLawful BtcDepositTx) 110 all_rows
      ready_rows ready_rows-found

abbrev wrapped : String → ℕ → WrappedBtcDepositTx
wrapped txid height = record {
  chain = "bnb";
  txid = txid;
  height = height;
  block_hash = "0x01";
  block_time = 1700000000;
  receipt = "0x02";
  proof = "0x03";
  status = 0;
}

abbrev first_wrapped : List WrappedBtcDepositTx
first_wrapped = wrapped "0xa" 5 ∷ []

abbrev new_wrapped : List WrappedBtcDepositTx
new_wrapped = wrapped "0xa" 5 ∷ wrapped "0xb" 6 ∷ []

new_wrapped-inserted :
    insert_wrapped_btc_deposit_txs (table WrappedBtcDepositTx) new_wrapped first_wrapped
    ≡ ok new_wrapped
unfolding insert_wrapped_btc_deposit_txs
new_wrapped-inserted = refl
