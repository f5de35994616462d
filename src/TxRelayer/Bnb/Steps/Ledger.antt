-- ===== src/TxRelayer/Bnb/Steps/Ledger.antt =====
-- The contract of the BNB relayer for one event, as a ledger of statuses.
use lorenzo_btcstaking_submi.Base.{ℕ, refl, String, Option, List}
use lorenzo_btcstaking_submi.Db.Types.{WrappedBtcDepositTx}
use lorenzo_btcstaking_submi.Db.Queue.Ledger.{Move, status_where, Grows-Move}
use lorenzo_btcstaking_submi.Db.BnbRepository.{with_chain_txid}
use lorenzo_btcstaking_submi.Db.BnbRepository.Columns.{wrapped_columns, wrapped_columns-IsColumns}
use lorenzo_btcstaking_submi.TxRelayer.Bnb.{Encoding, BnbRelayer}
use lorenzo_btcstaking_submi.TxRelayer.Bnb.Steps.{BnbSystem, BnbAct, BnbStep}
use lorenzo_btcstaking_submi.TxRelayer.Bnb.Steps.Invariant.{
  BnbReason, BnbReason-ne-pending, BnbInv, BnbStep-Sound,
}

-- The ledger of a table: the status of the row with a chain and a txid, if there is one.
abbrev pub wrapped_status : String → String → List WrappedBtcDepositTx → Option ℕ
wrapped_status chain txid = status_where wrapped_columns (with_chain_txid chain txid)

module _ {Body Proof : Type 0} (encoding : Encoding Body Proof) (r : BnbRelayer) where
  -- A step of the BNB relayer, of whichever loop or a crash, refines a ledger of one status for each
  -- chain and txid: from a table and a batch that are in order they stay in order, and the status
  -- stays, or it was absent and becomes pending, or it was pending and becomes another status, so
  -- that a settled event is never settled again.
  pub BnbStep-Move :
      (act : BnbAct Body Proof) (s t : BnbSystem) (chain txid : String)
      → BnbInv encoding r s
      → BnbStep encoding r s t act
      → BnbInv encoding r t
        × Move (wrapped_status chain txid s.wrapped) (wrapped_status chain txid t.wrapped)
  BnbStep-Move act s t chain txid inv step =
      let (after, grows) = BnbStep-Sound encoding r act s t step inv in
      (
        after,
        Grows-Move wrapped_columns wrapped_columns-IsColumns (BnbReason encoding r)
            (BnbReason-ne-pending encoding r) (with_chain_txid chain txid) (λ row n. refl) s.wrapped
            t.wrapped grows,
      )
