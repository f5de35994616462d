-- ===== src/TxRelayer/Submit/Outcomes.antt =====
-- What one deposit comes to in `submitLoop` of txrelayer/tx_relayer.go, by the answers of the node,
-- the explorer and the database.
use lorenzo_btcstaking_submi.Base.{
  ℕ, ◌≡◌, ◌⊎◌, refl, sym, inl, inr, true, false, none, some, List, [], ◌∷◌, ◌++◌, arith, Bytes,
  Result, ok, err, Error, message, Result-cases, Option-cases, Bool-cases,
}
use mathlib.Core.Path.{subst}
use lorenzo_btcstaking_submi.Btc.Network.{Codec}
use lorenzo_btcstaking_submi.Btc.Query.{get_tx_block_proof, get_tx_bytes}
use lorenzo_btcstaking_submi.Db.Types.{
  BtcDepositTx, status_success, status_invalid, status_receiver_is_not_belong_to_agent,
}
use lorenzo_btcstaking_submi.Db.Orm.{IsLawful}
use lorenzo_btcstaking_submi.Db.BtcRepository.{
  with_txid, update_tx_status, get_unhandled_btc_deposit_txs,
}
use lorenzo_btcstaking_submi.TxRelayer.Common.{is_staking_mint_try_again_error}
use lorenzo_btcstaking_submi.TxRelayer.Lorenzo.{MsgCreateBtcStaking, Keeper}
use lorenzo_btcstaking_submi.TxRelayer.Submit.{
  Submitter, SubmitEnv, SubmitState, mark, agent_id_of, new_msg_create_btc_staking, send, submit_tx,
  submit_txs, submit_round,
}
use lorenzo_btcstaking_submi.TxRelayer.Submit.Marks.{marked, Prepared}

module _ {MerkleBlock : Type 0} (keeper : Keeper MerkleBlock) (codec : Codec) (r : Submitter)
    (env : SubmitEnv) where
  -- The status is written to the rows with the txid, unless the statement fails; these are the
  -- messages.
  abbrev pub Marks :
      BtcDepositTx → ℕ → List MsgCreateBtcStaking → SubmitState → SubmitState → Type 0
  Marks tx status sent s u =
      (u.sent ≡ sent)
      × ((u.deposits ≡ marked tx.txid status s.deposits)
          ⊎ ((e : Error) × (update_tx_status env.deposit_db tx.txid status s.deposits ≡ err e)
              × (u.deposits ≡ s.deposits)))

  pub data Outcome (tx : BtcDepositTx) (s u : SubmitState) : Type 0 where
    unanswered :
        (e : Error) → env.lorenzo.get_btc_staking_record tx.txid ≡ err e → u ≡ s → Outcome tx s u
    known :
        (staked : Bytes)
        → env.lorenzo.get_btc_staking_record tx.txid ≡ ok (some staked)
        → Marks tx status_success s.sent s u
        → Outcome tx s u
    unproved :
        (e : Error)
        → env.lorenzo.get_btc_staking_record tx.txid ≡ ok none
        → (get_tx_block_proof env.http codec r.btc_query tx.txid ≡ err e)
          ⊎ (get_tx_bytes env.http codec r.btc_query tx.txid ≡ err e)
        → u ≡ s
        → Outcome tx s u
    nobodys :
        env.lorenzo.get_btc_staking_record tx.txid ≡ ok none
        → agent_id_of env.agents tx ≡ none
        → Marks tx status_receiver_is_not_belong_to_agent s.sent s u
        → Outcome tx s u
    malformed :
        (e : Error)
        → env.lorenzo.get_btc_staking_record tx.txid ≡ ok none
        → Prepared keeper codec r env tx (err e)
        → Marks tx status_invalid s.sent s u
        → Outcome tx s u
    taken :
        (msg : MsgCreateBtcStaking)
        → env.lorenzo.get_btc_staking_record tx.txid ≡ ok none
        → Prepared keeper codec r env tx (ok msg)
        → env.lorenzo.create_btc_staking_with_btc_proof msg ≡ ok tt
        → Marks tx status_success (s.sent ++ msg ∷ []) s u
        → Outcome tx s u
    put_off :
        (msg : MsgCreateBtcStaking) (e : Error)
        → env.lorenzo.get_btc_staking_record tx.txid ≡ ok none
        → Prepared keeper codec r env tx (ok msg)
        → env.lorenzo.create_btc_staking_with_btc_proof msg ≡ err e
        → is_staking_mint_try_again_error e ≡ true
        → u ≡ record s { sent = s.sent ++ msg ∷ [] }
        → Outcome tx s u
    rejected :
        (msg : MsgCreateBtcStaking) (e : Error)
        → env.lorenzo.get_btc_staking_record tx.txid ≡ ok none
        → Prepared keeper codec r env tx (ok msg)
        → env.lorenzo.create_btc_staking_with_btc_proof msg ≡ err e
        → is_staking_mint_try_again_error e ≡ false
        → Marks tx status_invalid (s.sent ++ msg ∷ []) s u
        → Outcome tx s u

  -- Each deposit of a batch has its outcome, one after the other.
  abbrev pub Outcomes : List BtcDepositTx → SubmitState → SubmitState → Type 0
  Outcomes [] s u = u ≡ s
  Outcomes (tx ∷ txs) s u = (mid : SubmitState) × Outcome tx s mid × Outcomes txs mid u

  -- A pass: without the tip of the node or the batch nothing changes, and otherwise each deposit of
  -- the batch has its outcome.
  abbrev pub Submitted : SubmitState → SubmitState → Type 0
  Submitted s u =
      ((e : Error) × (env.lorenzo.btc_header_chain_tip ≡ err e) × (u ≡ s))
      ⊎ ((tip : ℕ) × (env.lorenzo.btc_header_chain_tip ≡ ok tip)
          × (((e : Error) × (get_unhandled_btc_deposit_txs env.deposit_db tip s.deposits ≡ err e)
                × (u ≡ s))
              ⊎ ((txs : List BtcDepositTx) × (get_unhandled_btc_deposit_txs env.deposit_db tip
                      s.deposits
                    ≡ ok txs)
                  × Outcomes txs s u)))

  module _ (lawful : IsLawful env.deposit_db) (tx : BtcDepositTx) where
    mark-Marks :
        (status : ℕ) (before s : SubmitState)
        → s.deposits ≡ before.deposits
        → Marks tx status s.sent before (mark env tx.txid status s)
    unfolding mark update_tx_status
    mark-Marks status before s same =
        let answers =
          lawful.update_answers (with_txid tx.txid) (λ row. record row { status = status })
            s.deposits in
        elim answers [
          | inl e ↦ (ground arith, inl (ground arith))
          | inr (m, e) ↦ (ground arith, inr (message m, ground arith, ground arith))
        ]

    arrive : (s t u : SubmitState) → t ≡ u → Outcome tx s u → Outcome tx s t
    arrive s t u e = subst (Outcome tx s) (sym e)

    send-Outcome :
        (built : Result MsgCreateBtcStaking) (s : SubmitState)
        → env.lorenzo.get_btc_staking_record tx.txid ≡ ok none
        → Prepared keeper codec r env tx built
        → Outcome tx s (send keeper codec r env tx built s)
    unfolding send
    send-Outcome (err e) s h prepared = malformed e h prepared (mark-Marks status_invalid s s refl)
    send-Outcome (ok msg) s h prepared =
        let s' = record s { sent = s.sent ++ msg ∷ [] } in
        let t = send keeper codec r env tx (ok msg) s in
        elim (Result-cases (env.lorenzo.create_btc_staking_with_btc_proof msg)) [
          | inl (_, answer) ↦
              arrive s t (mark env tx.txid status_success s') (ground arith)
                (taken msg h prepared (ground arith) (mark-Marks status_success s s' refl))
          | inr (e, answer) ↦ elim (Bool-cases (is_staking_mint_try_again_error e)) [
            | inl again ↦ put_off msg e h prepared answer again (ground arith)
            | inr final ↦
                arrive s t (mark env tx.txid status_invalid s') (ground arith)
                  (rejected msg e h prepared answer final (mark-Marks status_invalid s s' refl))
          ]
        ]

    -- Submitting a deposit has one of the outcomes.
    pub submit_tx-Outcome : (s : SubmitState) → Outcome tx s (submit_tx keeper codec r env tx s)
    unfolding submit_tx
    submit_tx-Outcome s =
        let t = submit_tx keeper codec r env tx s in
        elim (Result-cases (env.lorenzo.get_btc_staking_record tx.txid)) [
          | inr (e, asked) ↦ unanswered e asked (ground arith)
          | inl (some staked, asked) ↦
              arrive s t (mark env tx.txid status_success s) (ground arith)
                (known staked asked (mark-Marks status_success s s refl))
          | inl (none, asked) ↦
              elim (Result-cases (get_tx_block_proof env.http codec r.btc_query tx.txid)) [
                | inr (e, proof) ↦ unproved e asked (inl proof) (ground arith)
                | inl (proof_raw, proof) ↦
                    elim (Result-cases (get_tx_bytes env.http codec r.btc_query tx.txid)) [
                      | inr (e, bytes) ↦ unproved e asked (inr bytes) (ground arith)
                      | inl (tx_bytes, bytes) ↦ elim (Option-cases (agent_id_of env.agents tx)) [
                        | inl nobody ↦
                            arrive s t (mark env tx.txid status_receiver_is_not_belong_to_agent s)
                              (ground arith)
                              (nobodys asked nobody
                                (mark-Marks status_receiver_is_not_belong_to_agent s s refl))
                        | inr (id, found) ↦
                            let built =
                              new_msg_create_btc_staking keeper codec r env id proof_raw tx_bytes in
                            arrive s t (send keeper codec r env tx built s) (ground arith) (
                              send-Outcome built s asked
                                (proof_raw, tx_bytes, id, proof, bytes, found, refl))
                      ]
                    ]
              ]
        ]

  module _ (lawful : IsLawful env.deposit_db) where
    submit_txs-Outcomes :
        (txs : List BtcDepositTx) (s : SubmitState)
        → Outcomes txs s (submit_txs keeper codec r env txs s)
    unfolding submit_txs
    submit_txs-Outcomes [] s = refl
    submit_txs-Outcomes (tx ∷ txs) s = (
      submit_tx keeper codec r env tx s,
      submit_tx-Outcome lawful tx s,
      submit_txs-Outcomes txs (submit_tx keeper codec r env tx s),
    )

    -- What a pass of the submitter comes to.
    pub submit_round-Submitted : (s : SubmitState) → Submitted s (submit_round keeper codec r env s)
    unfolding submit_round
    submit_round-Submitted s = elim (Result-cases env.lorenzo.btc_header_chain_tip) [
      | inr (e, failed) ↦ inl (e, failed, ground arith)
      | inl (tip, at_tip) ↦
          elim (Result-cases (get_unhandled_btc_deposit_txs env.deposit_db tip s.deposits)) [
            | inr (e, failed) ↦ inr (tip, at_tip, inl (e, failed, ground arith))
            | inl (txs, found) ↦
                let same : submit_txs keeper codec r env txs s ≡ submit_round keeper codec r env s =
                  ground arith in
                inr (
                  tip,
                  at_tip,
                  inr (txs, found, subst (Outcomes txs s) same (submit_txs-Outcomes txs s)),
                )
          ]
    ]
