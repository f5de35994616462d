-- ===== src/Db/BnbRepository/Columns.antt =====
-- The table of wrapped deposits of db/bnb_repository.go as a queue, keyed by chain and txid.
use native.Mathlib.Decide.{ℕ_discrete}
use lorenzo_btcstaking_submi.Base.{refl, ap, String, eq_iff, arith}
use lorenzo_btcstaking_submi.Base.Text.{String-discrete}
use lorenzo_btcstaking_submi.Db.Types.{WrappedBtcDepositTx}
use lorenzo_btcstaking_submi.Db.Queue.{Columns, IsColumns}
use lorenzo_btcstaking_submi.Db.BnbRepository.Deposits.{same_chain_txid}

wrapped-discrete : Discrete WrappedBtcDepositTx
wrapped-discrete = hlevel (ℕ_discrete, String-discrete)

abbrev pub wrapped_columns : Columns WrappedBtcDepositTx (String × String)
wrapped_columns = record {
  key = λ row. (row.chain, row.txid);
  same = same_chain_txid;
  status = λ row. row.status;
  with_status = λ n row. record row { status = n };
}

pub wrapped_columns-IsColumns : IsColumns wrapped_columns
wrapped_columns-IsColumns = record {
  row_discrete = wrapped-discrete;
  reads = λ t r. (
    λ same. ground (arith, eq_iff r.chain t.chain, eq_iff r.txid t.txid),
    λ e.
        ground
          (arith, eq_iff r.chain t.chain, eq_iff r.txid t.txid, ap (λ k. k.0) e, ap (λ k. k.1) e),
  );
  keeps_key = λ n r. refl;
  sets_status = λ n r. refl;
}
