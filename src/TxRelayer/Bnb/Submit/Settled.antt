-- ===== src/TxRelayer/Bnb/Submit/Settled.antt =====
-- The marks of one wrapped deposit in `submit` of txrelayer/bnb_txrelayer.go.
use lorenzo_btcstaking_submi.Base.{
  ℕ, ◌≡◌, ◌⊎◌, refl, sym, inl, inr, String, true, false, List, [], ◌∷◌, ◌++◌, arith, Bytes,
  Bool-cases, Result, ok, err, Error, Result-cases,
}
use mathlib.Core.Path.{subst}
use lorenzo_btcstaking_submi.Db.Types.{WrappedBtcDepositTx, status_success, status_invalid}
use lorenzo_btcstaking_submi.Db.Orm.{IsLawful, update_rows}
use lorenzo_btcstaking_submi.Db.BnbRepository.{with_chain_txid, mark_success, mark_invalid}
use lorenzo_btcstaking_submi.TxRelayer.Bnb.{Encoding, BnbRelayer}
use lorenzo_btcstaking_submi.TxRelayer.Bnb.Submit.{
  WrappedEnv, WrappedSubmission, is_bnb_staking_retry_error, is_bnb_staking_duplicate,
  keep_on_failure, mark_wrapped_success, mark_wrapped_invalid, settle, wrapped_msg, submit_wrapped,
}

module _ {Body Proof : Type 0} (encoding : Encoding Body Proof) (r : BnbRelayer)
    (env : WrappedEnv) where
  -- The table after a mark.
  abbrev pub wrapped_marked : String → ℕ → List WrappedBtcDepositTx → List WrappedBtcDepositTx
  wrapped_marked txid status =
      update_rows (with_chain_txid r.chain_name txid) (λ row. record row { status = status })

  -- The message was made of the row's receipt and proof, and this is the node's answer.
  abbrev pub Sent : WrappedBtcDepositTx → Result (Unit {0}) → Type 0
  Sent tx answer =
      (receipt_raw proof_raw : Bytes) × (encoding.hex_decode tx.receipt ≡ ok receipt_raw)
      × (encoding.hex_decode tx.proof ≡ ok proof_raw)
      × (env.lorenzo.create_btcb_staking (wrapped_msg encoding r env tx receipt_raw proof_raw)
          ≡ answer)

  -- The reason for a new status.
  pub data WrappedReason (tx : WrappedBtcDepositTx) (status : ℕ) : Type 0 where
    unreadable_receipt :
        (e : Error)
        → encoding.hex_decode tx.receipt ≡ err e
        → status ≡ status_invalid
        → WrappedReason tx status
    unreadable_proof :
        (e : Error)
        → encoding.hex_decode tx.proof ≡ err e
        → status ≡ status_invalid
        → WrappedReason tx status
    duplicate :
        (e : Error)
        → Sent tx (err e)
        → is_bnb_staking_duplicate e ≡ true
        → status ≡ status_success
        → WrappedReason tx status
    rejected :
        (e : Error)
        → Sent tx (err e)
        → is_bnb_staking_duplicate e ≡ false
        → is_bnb_staking_retry_error e ≡ false
        → status ≡ status_invalid
        → WrappedReason tx status

  -- The table after the deposit: as before, or with a mark for a reason.
  abbrev pub Settled :
      WrappedBtcDepositTx → List WrappedBtcDepositTx → List WrappedBtcDepositTx → Type 0
  Settled tx rows after =
      (after ≡ rows)
      ⊎ ((status : ℕ) × (after ≡ wrapped_marked tx.txid status rows) × WrappedReason tx status)

  module _ (lawful : IsLawful env.wrapped_db) (tx : WrappedBtcDepositTx) where
    mark_invalid-Settled :
        (s : WrappedSubmission)
        → WrappedReason tx status_invalid
        → Settled tx s.wrapped (mark_wrapped_invalid encoding r env tx.txid s).wrapped
    unfolding mark_wrapped_invalid keep_on_failure mark_invalid
    mark_invalid-Settled s why =
        let changed =
          lawful.update_answers (with_chain_txid r.chain_name tx.txid)
            (λ row. record row { status = status_invalid }) s.wrapped in
        elim changed [
          | inl e ↦ inr (status_invalid, ground arith, why)
          | inr (m, e) ↦ inl (ground arith)
        ]

    mark_success-Settled :
        (s : WrappedSubmission)
        → WrappedReason tx status_success
        → Settled tx s.wrapped (mark_wrapped_success encoding r env tx.txid s).wrapped
    unfolding mark_wrapped_success keep_on_failure mark_success
    mark_success-Settled s why =
        let changed =
          lawful.update_answers (with_chain_txid r.chain_name tx.txid)
            (λ row. record row { status = status_success }) s.wrapped in
        elim changed [
          | inl e ↦ inr (status_success, ground arith, why)
          | inr (m, e) ↦ inl (ground arith)
        ]

    arrive :
        {rows : List WrappedBtcDepositTx} (t u : WrappedSubmission)
        → t ≡ u
        → Settled tx rows u.wrapped
        → Settled tx rows t.wrapped
    arrive {rows} t u e = subst (λ v. Settled tx rows v.wrapped) (sym e)

    settle-Settled :
        (answer : Result (Unit {0})) (s : WrappedSubmission)
        → Sent tx answer
        → Settled tx s.wrapped (settle encoding r env tx answer s).wrapped
    unfolding settle
    settle-Settled (ok done) s sent = inl refl
    settle-Settled (err e) s sent =
        let t = settle encoding r env tx (err e) s in
        elim (Bool-cases (is_bnb_staking_duplicate e)) [
          | inl known ↦
              arrive t (mark_wrapped_success encoding r env tx.txid s) (ground arith)
                (mark_success-Settled s (duplicate e sent known refl))
          | inr new ↦ elim (Bool-cases (is_bnb_staking_retry_error e)) [
            | inl again ↦ arrive t s (ground arith) (inl refl)
            | inr final ↦
                arrive t (mark_wrapped_invalid encoding r env tx.txid s) (ground arith)
                  (mark_invalid-Settled s (rejected e sent new final refl))
          ]
        ]

    -- On a database that obeys its laws, submitting a wrapped deposit leaves the table as it was or
    -- changes only the status of the chain's rows with its txid: to success only if the node
    -- answered that the event is a duplicate, and to invalid only if the receipt or the proof
    -- cannot be decoded or the node refused the message with an error that is neither a duplicate
    -- nor to be retried.
    pub submit_wrapped-Settled :
        (s : WrappedSubmission) → Settled tx s.wrapped (submit_wrapped encoding r env tx s).wrapped
    unfolding submit_wrapped
    submit_wrapped-Settled s =
        let t = submit_wrapped encoding r env tx s in
        elim (Result-cases (encoding.hex_decode tx.receipt)) [
          | inr (e, bad) ↦
              arrive t (mark_wrapped_invalid encoding r env tx.txid s) (ground arith)
                (mark_invalid-Settled s (unreadable_receipt e bad refl))
          | inl (receipt_raw, receipt) ↦ elim (Result-cases (encoding.hex_decode tx.proof)) [
            | inr (e, bad) ↦
                arrive t (mark_wrapped_invalid encoding r env tx.txid s) (ground arith)
                  (mark_invalid-Settled s (unreadable_proof e bad refl))
            | inl (proof_raw, proof) ↦
                let msg = wrapped_msg encoding r env tx receipt_raw proof_raw in
                let answer = env.lorenzo.create_btcb_staking msg in
                let s' = record s { sent = s.sent ++ msg ∷ [] } in
                arrive t (settle encoding r env tx answer s') (ground arith)
                  (settle-Settled answer s' (receipt_raw, proof_raw, receipt, proof, refl))
          ]
        ]
