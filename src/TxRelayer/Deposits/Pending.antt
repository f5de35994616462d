-- ===== src/TxRelayer/Deposits/Pending.antt =====
-- The rows that `getValidDepositTxs` of txrelayer/tx_relayer.go makes are new ones.
use lorenzo_btcstaking_submi.Base.{ℕ, ◌≡◌, ap, List, [], ◌∷◌, All, inl, inr, done}
use lorenzo_btcstaking_submi.Btc.Types.{MsgTx, MsgBlock}
use lorenzo_btcstaking_submi.Btc.Utils.{Btcd}
use lorenzo_btcstaking_submi.Db.Types.{BtcDepositTx, status_pending}
use lorenzo_btcstaking_submi.TxRelayer.Deposits.{Scanner, deposit_of, get_valid_deposit_txs}
use lorenzo_btcstaking_submi.TxRelayer.Deposits.Selection.{
  Genuine, Selects, get_valid_deposit_txs-Selects,
}

module _ {PkScript Address : Type 0} (btcd : Btcd PkScript Address) (r : Scanner) (height : ℕ)
    (block : MsgBlock) where
  Genuine-pending :
      (tx : MsgTx) (d : BtcDepositTx) → Genuine btcd r height block tx d → d.status ≡ status_pending
  unfolding deposit_of
  Genuine-pending tx d g = ap (λ row. row.status) g.row

  Selects-pending :
      (txs : List MsgTx) (ds : List BtcDepositTx)
      → Selects btcd r height block txs ds
      → All (λ d. d.status ≡ status_pending) ds
  Selects-pending [] ds h = rw h tt
  Selects-pending (tx ∷ txs) ds (inl (d, rest, e, genuine, more)) =
      rw e (Genuine-pending tx d genuine, Selects-pending txs rest more)
  Selects-pending (tx ∷ txs) ds (inr (passed, _, more)) = Selects-pending txs ds more

  pub get_valid_deposit_txs-pending :
      (ds : List BtcDepositTx)
      → get_valid_deposit_txs btcd r height block ≡ done ds
      → All (λ d. d.status ≡ status_pending) ds
  get_valid_deposit_txs-pending ds h =
      Selects-pending block.transactions ds (get_valid_deposit_txs-Selects btcd r height block ds h)
