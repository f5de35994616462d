-- ===== src/TxRelayer/Submit/Clears.antt =====
-- A pass of `submitLoop` of txrelayer/tx_relayer.go in which every service answers.
use lorenzo_btcstaking_submi.Base.{
  ℕ, ◌≡◌, ◌≢◌, refl, inl, inr, String, true, false, none, some, List, [], ◌∷◌, ◌++◌, arith, Bytes,
  All, Result, ok, err, Error, Result-cases, Option-cases,
}
use mathlib.Core.List.{Mem}
use lorenzo_btcstaking_submi.Btc.Network.{Codec}
use lorenzo_btcstaking_submi.Btc.Query.{get_tx_block_proof, get_tx_bytes}
use lorenzo_btcstaking_submi.Db.Types.{
  BtcDepositTx, status_pending, status_success, status_invalid,
  status_receiver_is_not_belong_to_agent,
}
use lorenzo_btcstaking_submi.Db.Orm.{IsLawful}
use lorenzo_btcstaking_submi.Db.Reliable.{IsReliable}
use lorenzo_btcstaking_submi.Db.Queue.Settled.{
  IsSettled, IsKnown, marked-IsSettled, marked-IsKnown, marked_self, IsKnown-Mem,
}
use lorenzo_btcstaking_submi.Db.BtcRepository.{
  with_txid, is_unhandled, update_tx_status, get_unhandled_btc_deposit_txs,
}
use lorenzo_btcstaking_submi.Db.BtcRepository.Columns.{btc_columns, btc_columns-IsColumns}
use lorenzo_btcstaking_submi.Db.BtcRepository.Unhandled.{get_unhandled-Ascending}
use lorenzo_btcstaking_submi.TxRelayer.Common.{is_staking_mint_try_again_error}
use lorenzo_btcstaking_submi.TxRelayer.Lorenzo.{MsgCreateBtcStaking, Keeper}
use lorenzo_btcstaking_submi.TxRelayer.Submit.{
  Submitter, SubmitEnv, SubmitState, mark, agent_id_of, new_msg_create_btc_staking, send, submit_tx,
  submit_txs, submit_round,
}
use lorenzo_btcstaking_submi.TxRelayer.Submit.Marks.{marked}

module _ {MerkleBlock : Type 0} (keeper : Keeper MerkleBlock) (codec : Codec) (r : Submitter)
    (env : SubmitEnv) where
  -- Every service answers for the transaction, and the node, where it is asked to stake it, does not say
  -- to try again.
  pub data IsDecisive (txid : String) : Type 0 where
    known :
        (staked : Bytes)
        → env.lorenzo.get_btc_staking_record txid ≡ ok (some staked)
        → IsDecisive txid
    ready :
        (proof_raw tx_bytes : Bytes)
        → env.lorenzo.get_btc_staking_record txid ≡ ok none
        → get_tx_block_proof env.http codec r.btc_query txid ≡ ok proof_raw
        → get_tx_bytes env.http codec r.btc_query txid ≡ ok tx_bytes
        → ((msg : MsgCreateBtcStaking) (e : Error)
            → env.lorenzo.create_btc_staking_with_btc_proof msg ≡ err e
            → is_staking_mint_try_again_error e ≡ false)
        → IsDecisive txid

  module _ (reliable : IsReliable env.deposit_db) where
    -- The deposit is marked, as settled.
    abbrev Marks : BtcDepositTx → SubmitState → SubmitState → Type 0
    Marks tx s t = (n : ℕ) × (n ≢ status_pending) × (t.deposits ≡ marked tx.txid n s.deposits)

    mark-Marks :
        (tx : BtcDepositTx) (n : ℕ) (s u : SubmitState)
        → n ≢ status_pending
        → u.deposits ≡ s.deposits
        → Marks tx s (mark env tx.txid n u)
    unfolding mark update_tx_status
    mark-Marks tx n s u final same = (
      n,
      final,
      ground (
        arith,
        reliable.update_replies (with_txid tx.txid) (λ row. record row { status = n }) u.deposits,
      ),
    )

    send-Marks :
        (tx : BtcDepositTx) (s : SubmitState)
        → ((msg : MsgCreateBtcStaking) (e : Error)
            → env.lorenzo.create_btc_staking_with_btc_proof msg ≡ err e
            → is_staking_mint_try_again_error e ≡ false)
        → (built : Result MsgCreateBtcStaking) → Marks tx s (send keeper codec r env tx built s)
    unfolding send
    send-Marks tx s final (err e) = mark-Marks tx status_invalid s s (omega arith) refl
    send-Marks tx s final (ok msg) =
        let s' = record s { sent = s.sent ++ msg ∷ [] } in
        elim (Result-cases (env.lorenzo.create_btc_staking_with_btc_proof msg)) [
          | inl (_, answer) ↦
              let e : send keeper codec r env tx (ok msg) s ≡ mark env tx.txid status_success s' =
                ground arith in
              rw e (mark-Marks tx status_success s s' (omega arith) refl)
          | inr (why, answer) ↦
              let e : send keeper codec r env tx (ok msg) s ≡ mark env tx.txid status_invalid s' =
                ground (arith, final msg why answer) in
              rw e (mark-Marks tx status_invalid s s' (omega arith) refl)
        ]

    submit_tx-Marks :
        (tx : BtcDepositTx) (s : SubmitState)
        → IsDecisive tx.txid
        → Marks tx s (submit_tx keeper codec r env tx s)
    unfolding submit_tx
    submit_tx-Marks tx s (known staked asked) =
        let e : submit_tx keeper codec r env tx s ≡ mark env tx.txid status_success s =
          ground arith in
        rw e (mark-Marks tx status_success s s (omega arith) refl)
    submit_tx-Marks tx s (ready proof_raw tx_bytes asked proof bytes final) =
        elim (Option-cases (agent_id_of env.agents tx)) [
          | inl nobody ↦
              let e : submit_tx keeper codec r env tx s
                  ≡ mark env tx.txid status_receiver_is_not_belong_to_agent s =
                ground arith in
              rw e (mark-Marks tx status_receiver_is_not_belong_to_agent s s (omega arith) refl)
          | inr (id, found) ↦
              let built = new_msg_create_btc_staking keeper codec r env id proof_raw tx_bytes in
              let e : submit_tx keeper codec r env tx s ≡ send keeper codec r env tx built s =
                ground arith in
              rw e (send-Marks tx s final built)
        ]

    submit_txs-IsSettled :
        (o : BtcDepositTx) (txs : List BtcDepositTx) (s : SubmitState)
        → All (λ t. IsDecisive t.txid) txs
        → IsSettled btc_columns o s.deposits
        → IsSettled btc_columns o (submit_txs keeper codec r env txs s).deposits
    unfolding submit_txs
    submit_txs-IsSettled o [] s decisive done = done
    submit_txs-IsSettled o (tx ∷ txs) s (d, decisive) done =
        let (n, final, e) = submit_tx-Marks tx s d in
        submit_txs-IsSettled o txs (submit_tx keeper codec r env tx s) decisive
          (rw e (marked-IsSettled btc_columns-IsColumns tx o n s.deposits final done))

    IsKnown-marked :
        (tx : BtcDepositTx) (n : ℕ) (rows txs : List BtcDepositTx)
        → All (λ t. IsKnown btc_columns t rows) txs
        → All (λ t. IsKnown btc_columns t (marked tx.txid n rows)) txs
    IsKnown-marked tx n rows [] h = tt
    IsKnown-marked tx n rows (t ∷ txs) (k, h) =
        (marked-IsKnown btc_columns-IsColumns tx t n rows k, IsKnown-marked tx n rows txs h)

    submit_txs-Clears :
        (txs : List BtcDepositTx) (s : SubmitState)
        → All (λ t. IsDecisive t.txid) txs
        → All (λ t. IsKnown btc_columns t s.deposits) txs
        → All (λ t. IsSettled btc_columns t (submit_txs keeper codec r env txs s).deposits) txs
    unfolding submit_txs
    submit_txs-Clears [] s decisive there = tt
    submit_txs-Clears (tx ∷ txs) s (d, decisive) (k, there) =
        let (n, final, e) = submit_tx-Marks tx s d in
        let s' = submit_tx keeper codec r env tx s in
        (
          submit_txs-IsSettled tx txs s' decisive
              (rw e (marked_self btc_columns-IsColumns tx n s.deposits final k)),
          submit_txs-Clears txs s' decisive (rw e (IsKnown-marked tx n s.deposits txs there)),
        )

    -- Where the database obeys its laws and answers every statement, the tip and the batch are
    -- read, and for each deposit of the batch every service answers and the node does not say to
    -- try again, a pass of the submitter leaves no deposit of its batch pending: each has a row
    -- with a final status.
    pub submit_round-Clears :
        (tip : ℕ) (txs : List BtcDepositTx) (s : SubmitState)
        → IsLawful env.deposit_db
        → env.lorenzo.btc_header_chain_tip ≡ ok tip
        → get_unhandled_btc_deposit_txs env.deposit_db tip s.deposits ≡ ok txs
        → All (λ t. IsDecisive t.txid) txs
        → All (λ t. IsSettled btc_columns t (submit_round keeper codec r env s).deposits) txs
    unfolding submit_round
    submit_round-Clears tip txs s lawful at_tip found decisive =
        let (_, _, all, _) =
          get_unhandled-Ascending env.deposit_db lawful tip s.deposits txs found in
        let e : submit_round keeper codec r env s ≡ submit_txs keeper codec r env txs s =
          ground arith in
        rw e (submit_txs-Clears txs s decisive (rows_known tip txs all))
      where
        rows_known :
            (tip : ℕ) (found : List BtcDepositTx)
            → All (λ row. Mem row s.deposits × (is_unhandled tip row ≡ true)) found
            → All (λ t. IsKnown btc_columns t s.deposits) found
        rows_known tip [] h = tt
        rows_known tip (t ∷ found) ((m, _), h) =
            (IsKnown-Mem btc_columns-IsColumns t s.deposits m, rows_known tip found h)
