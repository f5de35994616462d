-- ===== src/Db/BtcRepository/Columns.antt =====
-- The table of deposits of db/btc_repository.go as a queue, keyed by txid.
use native.Mathlib.Decide.{ℕ_discrete}
use lorenzo_btcstaking_submi.Base.{ℕ, ◌≡◌, refl, String, eq_iff, true, arith}
use lorenzo_btcstaking_submi.Base.Text.{String-discrete}
use lorenzo_btcstaking_submi.Db.Types.{BtcDepositTx, status_pending}
use lorenzo_btcstaking_submi.Db.Queue.{Columns, IsColumns}
use lorenzo_btcstaking_submi.Db.BtcRepository.{is_unhandled}
use lorenzo_btcstaking_submi.Db.BtcRepository.Deposits.{same_txid}

deposit-discrete : Discrete BtcDepositTx
deposit-discrete = hlevel (ℕ_discrete, String-discrete)

abbrev pub btc_columns : Columns BtcDepositTx String
btc_columns = record {
  key = λ row. row.txid;
  same = same_txid;
  status = λ row. row.status;
  with_status = λ n row. record row { status = n };
}

pub btc_columns-IsColumns : IsColumns btc_columns
btc_columns-IsColumns = record {
  row_discrete = deposit-discrete;
  reads = λ t r. eq_iff r.txid t.txid;
  keeps_key = λ n r. refl;
  sets_status = λ n r. refl;
}

pub unhandled-pending :
    (tip : ℕ) (row : BtcDepositTx) → is_unhandled tip row ≡ true → row.status ≡ status_pending
unfolding is_unhandled
unhandled-pending tip row h = ground arith
