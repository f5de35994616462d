-- ===== src/TxRelayer/Deposits/Progress.antt =====
-- How `getValidDepositTxs` of txrelayer/tx_relayer.go ends.
use lorenzo_btcstaking_submi.Base.{
  ℕ, zero, suc, ◌+◌, ◌≤◌, ◌<◌, ◌≡◌, ◌≢◌, ap, String, eq_iff, true, List, [], ◌∷◌, ◌++◌, arith,
  Bytes, some_of, inl, inr, Result, ok, err, done, panicked, spinning, then_run-done,
  then_run-returns, Result-cases, Option-cases,
}
use lorenzo_btcstaking_submi.Btc.Types.{BtcTx, TxOut, MsgTx, MsgBlock}
use lorenzo_btcstaking_submi.Btc.Utils.{Btcd, extract_payment_to_with_op_return_id}
use lorenzo_btcstaking_submi.Btc.Utils.Payments.{
  breaks, extract_with_id-panicked, extract_with_id-returns,
}
use lorenzo_btcstaking_submi.Db.Types.{BtcDepositTx}
use lorenzo_btcstaking_submi.TxRelayer.Agents.{Agent}
use lorenzo_btcstaking_submi.TxRelayer.Deposits.{
  Scanner, await_tx, drop_id, value_of, sender_check, take_or_leave, receiver_of, deposit_in,
  append_found, deposits_in, get_valid_deposit_txs,
}
use lorenzo_btcstaking_submi.TxRelayer.Deposits.Selection.{FirstReceiver}

await_tx-returns :
    (fuel : ℕ) (get_tx : ℕ → Result BtcTx) (tries n : ℕ) (detail : BtcTx)
    → tries ≤ n
    → n < tries + fuel
    → get_tx n ≡ ok detail
    → (found : BtcTx) × (await_tx fuel get_tx tries ≡ done found)
unfolding await_tx
await_tx-returns zero get_tx tries n detail low high h = absurd (omega arith)
await_tx-returns (suc fuel) get_tx tries n detail low high h = elim (Result-cases (get_tx tries)) [
  | inl (found, e) ↦ (found, ground arith)
  | inr (e, failed) ↦
      let later : tries ≢ n = λ same. cc (failed, h, ap get_tx same) in
      let (found, rest) =
        await_tx-returns fuel get_tx (suc tries) n detail (omega arith) (omega arith) h in
      (found, ground (arith, rest))
]

drop_id-returns : (found : Result (ℕ × Bytes)) → drop_id found ≢ spinning
unfolding drop_id
drop_id-returns (ok (value, id)) h = cc
drop_id-returns (err e) h = cc

module _ {PkScript Address : Type 0} (btcd : Btcd PkScript Address) (r : Scanner) where
  value_of-returns :
      (tx : MsgTx) (agent : Agent) (addr : Address) → value_of btcd r tx agent addr ≢ spinning
  unfolding value_of
  value_of-returns tx agent addr =
      let by_id =
        then_run-returns (extract_payment_to_with_op_return_id btcd tx addr) drop_id
          (extract_with_id-returns btcd tx addr) drop_id-returns in
      ground arith

  module _
      (answered : (txid : String)
        → (n : ℕ) × (detail : BtcTx) × (n < r.patience) × (r.get_tx n txid ≡ ok detail))
      (height : ℕ) (block : MsgBlock) where
    sender_check-returns : (tx : MsgTx) (agent : Agent) → sender_check btcd r tx agent ≢ spinning
    unfolding sender_check
    sender_check-returns tx agent =
        let (n, detail, soon, e) = answered tx.tx_hash in
        let (found, got) =
          await_tx-returns r.patience (λ n. r.get_tx n tx.tx_hash) 0 n detail (omega arith)
            (omega arith) e in
        ground (arith, got)

    take_or_leave-returns :
        (tx : MsgTx) (agent : Agent) (addr : Address)
        → take_or_leave btcd r height block tx agent addr ≢ spinning
    unfolding take_or_leave
    take_or_leave-returns tx agent addr =
        ground (arith, value_of-returns tx agent addr, sender_check-returns tx agent)

    deposit_in-returns :
        (tx : MsgTx) (outs : List TxOut) → deposit_in btcd r height block tx outs ≢ spinning
    unfolding deposit_in
    deposit_in-returns tx [] = λ h. cc
    deposit_in-returns tx (out ∷ outs) = elim (Option-cases (receiver_of btcd r out)) [
      | inl unpaid ↦ rw (unpaid, deposit_in) (deposit_in-returns tx outs)
      | inr ((agent, addr), paid) ↦ rw (paid, deposit_in) (take_or_leave-returns tx agent addr)
    ]

    deposits_in-returns :
        (txs : List MsgTx) (found : List BtcDepositTx)
        → deposits_in btcd r height block txs found ≢ spinning
    unfolding deposits_in
    deposits_in-returns [] found = λ h. cc
    deposits_in-returns (tx ∷ txs) found =
        then_run-returns (deposit_in btcd r height block tx tx.tx_out) _
          (deposit_in-returns tx tx.tx_out)
          (λ deposit. deposits_in-returns txs (append_found found deposit))

    -- The scan of a block does not run for ever if the explorer answers each request in the end:
    -- with patience for that many requests it returns or panics.
    pub get_valid_deposit_txs-returns : get_valid_deposit_txs btcd r height block ≢ spinning
    unfolding get_valid_deposit_txs
    get_valid_deposit_txs-returns = deposits_in-returns block.transactions []

  module _ (height : ℕ) (block : MsgBlock) where
    deposits_in-append :
        (before rest : List MsgTx) (found after : List BtcDepositTx)
        → deposits_in btcd r height block before found ≡ done after
        → deposits_in btcd r height block (before ++ rest) found
          ≡ deposits_in btcd r height block rest after
    unfolding deposits_in
    deposits_in-append [] rest found after h = ground arith
    deposits_in-append (tx ∷ before) rest found after h =
        let (deposit, e, more) = then_run-done (deposit_in btcd r height block tx tx.tx_out) _ h in
        ground (arith, deposits_in-append before rest (append_found found deposit) after more)

    module _ (tx : MsgTx) (agent : Agent) (addr : Address) (script : Bytes)
        (no_eth_addr : agent.eth_addr ≡ "") (pays : btcd.pay_to_addr_script addr ≡ ok script)
        (broken : some_of (breaks btcd script) tx.tx_out ≡ true) where
      take_or_leave-panicked : take_or_leave btcd r height block tx agent addr ≡ panicked
      unfolding take_or_leave value_of
      take_or_leave-panicked = ground (
        arith,
        (eq_iff agent.eth_addr "").1 no_eth_addr,
        extract_with_id-panicked btcd tx addr script pays broken,
      )

      deposit_in-panicked :
          (outs : List TxOut)
          → FirstReceiver btcd r outs agent addr
          → deposit_in btcd r height block tx outs ≡ panicked
      unfolding deposit_in
      deposit_in-panicked [] first = elim first [ ]
      deposit_in-panicked (out ∷ outs) (inl paid) = ground (arith, take_or_leave-panicked)
      deposit_in-panicked (out ∷ outs) (inr (unpaid, first)) =
          ground (arith, deposit_in-panicked outs first)

      -- Anyone can stop the relayer: a transaction whose first output to an agent pays one without
      -- an Ethereum address, and that has an output beside the payments whose script is exactly
      -- OP_RETURN OP_PUSHDATA1, makes the scan of its block panic, once the scan of the
      -- transactions before it has returned.
      pub get_valid_deposit_txs-panicked :
          (before rest : List MsgTx) (found : List BtcDepositTx)
          → block.transactions ≡ before ++ tx ∷ rest
          → deposits_in btcd r height block before [] ≡ done found
          → FirstReceiver btcd r tx.tx_out agent addr
          → get_valid_deposit_txs btcd r height block ≡ panicked
      unfolding get_valid_deposit_txs
      get_valid_deposit_txs-panicked before rest found at_tx reached first =
          rw (at_tx, deposits_in-append before (tx ∷ rest) [] found reached)
            (ground (arith, deposit_in-panicked tx.tx_out first))
