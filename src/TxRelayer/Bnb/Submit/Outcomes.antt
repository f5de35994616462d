-- ===== src/TxRelayer/Bnb/Submit/Outcomes.antt =====
-- What one row comes to in `submit` of txrelayer/bnb_txrelayer.go, by the answers of the node and
-- the database.
use lorenzo_btcstaking_submi.Base.{
  ℕ, suc, ◌≡◌, ◌⊎◌, refl, sym, inl, inr, String, true, false, List, [], ◌∷◌, ◌++◌, arith, Bytes,
  Result, ok, err, Error, message, Result-cases, Bool-cases,
}
use mathlib.Core.Path.{subst}
use lorenzo_btcstaking_submi.Db.Types.{WrappedBtcDepositTx, status_success, status_invalid}
use lorenzo_btcstaking_submi.Db.Orm.{IsLawful}
use lorenzo_btcstaking_submi.Db.BnbRepository.{
  with_chain_txid, mark_success, mark_invalid, get_unhandled_wrapped_btc_deposit_txs,
}
use lorenzo_btcstaking_submi.TxRelayer.Lorenzo.{MsgCreateBtcbStaking}
use lorenzo_btcstaking_submi.TxRelayer.Bnb.{Encoding, BnbRelayer}
use lorenzo_btcstaking_submi.TxRelayer.Bnb.Submit.{
  WrappedEnv, WrappedSubmission, is_bnb_staking_retry_error, is_bnb_staking_duplicate,
  keep_on_failure, mark_wrapped_success, mark_wrapped_invalid, settle, wrapped_msg, submit_wrapped,
  submit_wrapped_txs, submit_wrapped_round,
}
use lorenzo_btcstaking_submi.TxRelayer.Bnb.Submit.Settled.{wrapped_marked}

module _ {Body Proof : Type 0} (encoding : Encoding Body Proof) (r : BnbRelayer)
    (env : WrappedEnv) where
  -- The status is written to the chain's rows with the txid, unless this statement fails; these are
  -- the messages.
  abbrev pub Marks :
      (String → String → List WrappedBtcDepositTx → Result (List WrappedBtcDepositTx))
      → WrappedBtcDepositTx
      → ℕ
      → List MsgCreateBtcbStaking
      → WrappedSubmission
      → WrappedSubmission
      → Type 0
  Marks statement tx status sent s u =
      (u.sent ≡ sent)
      × ((u.wrapped ≡ wrapped_marked encoding r env tx.txid status s.wrapped)
          ⊎ ((e : Error) × (statement r.chain_name tx.txid s.wrapped ≡ err e)
              × (u.wrapped ≡ s.wrapped)))

  -- The receipt and the proof can be decoded, the message made of them is sent, and this is the
  -- answer.
  abbrev pub Mails :
      WrappedBtcDepositTx
      → List MsgCreateBtcbStaking
      → List MsgCreateBtcbStaking
      → Result (Unit {0})
      → Type 0
  Mails tx sent after answer =
      (receipt_raw proof_raw : Bytes) × (encoding.hex_decode tx.receipt ≡ ok receipt_raw)
      × (encoding.hex_decode tx.proof ≡ ok proof_raw)
      × (after ≡ sent ++ wrapped_msg encoding r env tx receipt_raw proof_raw ∷ [])
      × (env.lorenzo.create_btcb_staking (wrapped_msg encoding r env tx receipt_raw proof_raw)
          ≡ answer)

  pub data WrappedOutcome (tx : WrappedBtcDepositTx) (s u : WrappedSubmission) : Type 0 where
    garbled :
        (e : Error)
        → (encoding.hex_decode tx.receipt ≡ err e) ⊎ (encoding.hex_decode tx.proof ≡ err e)
        → Marks (mark_invalid env.wrapped_db) tx status_invalid s.sent s u
        → WrappedOutcome tx s u
    taken :
        (sent : List MsgCreateBtcbStaking)
        → Mails tx s.sent sent (ok tt)
        → u ≡ record s { sent = sent }
        → WrappedOutcome tx s u
    seen_before :
        (sent : List MsgCreateBtcbStaking) (e : Error)
        → Mails tx s.sent sent (err e)
        → is_bnb_staking_duplicate e ≡ true
        → Marks (mark_success env.wrapped_db) tx status_success sent s u
        → WrappedOutcome tx s u
    put_off :
        (sent : List MsgCreateBtcbStaking) (e : Error)
        → Mails tx s.sent sent (err e)
        → is_bnb_staking_duplicate e ≡ false
        → is_bnb_staking_retry_error e ≡ true
        → u ≡ record s { sent = sent }
        → WrappedOutcome tx s u
    turned_down :
        (sent : List MsgCreateBtcbStaking) (e : Error)
        → Mails tx s.sent sent (err e)
        → is_bnb_staking_duplicate e ≡ false
        → is_bnb_staking_retry_error e ≡ false
        → Marks (mark_invalid env.wrapped_db) tx status_invalid sent s u
        → WrappedOutcome tx s u

  -- Each row of a batch, from the row at an index on, has its outcome, until `quit` is seen closed.
  abbrev pub WrappedOutcomes :
      ℕ → List WrappedBtcDepositTx → WrappedSubmission → WrappedSubmission → Type 0
  WrappedOutcomes i [] s u = u ≡ s
  WrappedOutcomes i (tx ∷ txs) s u =
      ((env.quit_closed i ≡ true) × (u ≡ s))
      ⊎ ((mid : WrappedSubmission) × (env.quit_closed i ≡ false)
          × WrappedOutcome tx s mid
          × WrappedOutcomes (suc i) txs mid u)

  -- A pass: without the tip of the node or the batch nothing changes, and otherwise the rows of the
  -- batch have their outcomes.
  abbrev pub WrappedSubmitted : WrappedSubmission → WrappedSubmission → Type 0
  WrappedSubmitted s u =
      ((e : Error) × (env.lorenzo.bnb_latest_header ≡ err e) × (u ≡ s))
      ⊎ ((tip : ℕ) × (env.lorenzo.bnb_latest_header ≡ ok tip)
          × (((e : Error) × (get_unhandled_wrapped_btc_deposit_txs env.wrapped_db tip s.wrapped
                  ≡ err e)
                × (u ≡ s))
              ⊎ ((txs : List WrappedBtcDepositTx) × (get_unhandled_wrapped_btc_deposit_txs
                      env.wrapped_db tip s.wrapped
                    ≡ ok txs)
                  × WrappedOutcomes 0 txs s u)))

  module _ (lawful : IsLawful env.wrapped_db) (tx : WrappedBtcDepositTx) where
    invalid-Marks :
        (before s : WrappedSubmission)
        → s.wrapped ≡ before.wrapped
        → Marks
            (mark_invalid env.wrapped_db)
            tx
            status_invalid
            s.sent
            before
            (mark_wrapped_invalid encoding r env tx.txid s)
    unfolding mark_wrapped_invalid keep_on_failure mark_invalid
    invalid-Marks before s same =
        let answers =
          lawful.update_answers (with_chain_txid r.chain_name tx.txid)
            (λ row. record row { status = status_invalid }) s.wrapped in
        elim answers [
          | inl e ↦ (ground arith, inl (ground arith))
          | inr (m, e) ↦ (ground arith, inr (message m, ground arith, ground arith))
        ]

    success-Marks :
        (before s : WrappedSubmission)
        → s.wrapped ≡ before.wrapped
        → Marks
            (mark_success env.wrapped_db)
            tx
            status_success
            s.sent
            before
            (mark_wrapped_success encoding r env tx.txid s)
    unfolding mark_wrapped_success keep_on_failure mark_success
    success-Marks before s same =
        let answers =
          lawful.update_answers (with_chain_txid r.chain_name tx.txid)
            (λ row. record row { status = status_success }) s.wrapped in
        elim answers [
          | inl e ↦ (ground arith, inl (ground arith))
          | inr (m, e) ↦ (ground arith, inr (message m, ground arith, ground arith))
        ]

    arrive : (s t u : WrappedSubmission) → t ≡ u → WrappedOutcome tx s u → WrappedOutcome tx s t
    arrive s t u e = subst (WrappedOutcome tx s) (sym e)

    settle-WrappedOutcome :
        (answer : Result (Unit {0})) (s s' : WrappedSubmission)
        → s'.wrapped ≡ s.wrapped
        → Mails tx s.sent s'.sent answer
        → WrappedOutcome tx s (settle encoding r env tx answer s')
    unfolding settle
    settle-WrappedOutcome (ok tt) s s' same mails = taken s'.sent mails (ground arith)
    settle-WrappedOutcome (err e) s s' same mails =
        let t = settle encoding r env tx (err e) s' in
        elim (Bool-cases (is_bnb_staking_duplicate e)) [
          | inl known ↦
              arrive s t (mark_wrapped_success encoding r env tx.txid s') (ground arith)
                (seen_before s'.sent e mails known (success-Marks s s' same))
          | inr new ↦ elim (Bool-cases (is_bnb_staking_retry_error e)) [
            | inl again ↦ put_off s'.sent e mails new again (ground arith)
            | inr final ↦
                arrive s t (mark_wrapped_invalid encoding r env tx.txid s') (ground arith)
                  (turned_down s'.sent e mails new final (invalid-Marks s s' same))
          ]
        ]

    -- Submitting a row has one of the outcomes.
    pub submit_wrapped-WrappedOutcome :
        (s : WrappedSubmission) → WrappedOutcome tx s (submit_wrapped encoding r env tx s)
    unfolding submit_wrapped
    submit_wrapped-WrappedOutcome s =
        let t = submit_wrapped encoding r env tx s in
        let invalid = mark_wrapped_invalid encoding r env tx.txid s in
        elim (Result-cases (encoding.hex_decode tx.receipt)) [
          | inr (e, bad) ↦
              arrive s t invalid (ground arith) (garbled e (inl bad) (invalid-Marks s s refl))
          | inl (receipt_raw, receipt) ↦ elim (Result-cases (encoding.hex_decode tx.proof)) [
            | inr (e, bad) ↦
                arrive s t invalid (ground arith) (garbled e (inr bad) (invalid-Marks s s refl))
            | inl (proof_raw, proof) ↦
                let msg = wrapped_msg encoding r env tx receipt_raw proof_raw in
                let answer = env.lorenzo.create_btcb_staking msg in
                let s' = record s { sent = s.sent ++ msg ∷ [] } in
                arrive s t (settle encoding r env tx answer s') (ground arith) (
                  settle-WrappedOutcome answer s s' refl
                    (receipt_raw, proof_raw, receipt, proof, refl, refl))
          ]
        ]

  module _ (lawful : IsLawful env.wrapped_db) where
    submit_wrapped_txs-WrappedOutcomes :
        (i : ℕ) (txs : List WrappedBtcDepositTx) (s : WrappedSubmission)
        → WrappedOutcomes i txs s (submit_wrapped_txs encoding r env i txs s)
    unfolding submit_wrapped_txs
    submit_wrapped_txs-WrappedOutcomes i [] s = refl
    submit_wrapped_txs-WrappedOutcomes i (tx ∷ txs) s =
        let u = submit_wrapped encoding r env tx s in
        let rest = submit_wrapped_txs encoding r env (suc i) txs u in
        elim (Bool-cases (env.quit_closed i)) [
          | inl closed ↦ inl (closed, rw (submit_wrapped_txs, closed) refl)
          | inr going ↦
              let same : rest ≡ submit_wrapped_txs encoding r env i (tx ∷ txs) s =
                rw (submit_wrapped_txs, going) refl in
              inr (
                u,
                going,
                submit_wrapped-WrappedOutcome lawful tx s,
                subst (WrappedOutcomes (suc i) txs u) same
                    (submit_wrapped_txs-WrappedOutcomes (suc i) txs u),
              )
        ]

    -- What a pass of the BNB submitter comes to.
    pub submit_wrapped_round-WrappedSubmitted :
        (s : WrappedSubmission) → WrappedSubmitted s (submit_wrapped_round encoding r env s)
    unfolding submit_wrapped_round
    submit_wrapped_round-WrappedSubmitted s = elim (Result-cases env.lorenzo.bnb_latest_header) [
      | inr (e, failed) ↦ inl (e, failed, ground arith)
      | inl (tip, at_tip) ↦
          elim (Result-cases (get_unhandled_wrapped_btc_deposit_txs env.wrapped_db tip s.wrapped)) [
            | inr (e, failed) ↦ inr (tip, at_tip, inl (e, failed, ground arith))
            | inl (txs, found) ↦
                let same : submit_wrapped_txs encoding r env 0 txs s
                    ≡ submit_wrapped_round encoding r env s =
                  ground arith in
                inr (
                  tip,
                  at_tip,
                  inr (
                    txs,
                    found,
                    subst (WrappedOutcomes 0 txs s) same
                        (submit_wrapped_txs-WrappedOutcomes 0 txs s),
                  ),
                )
          ]
    ]
