-- ===== src/TxRelayer/Submit/Marks.antt =====
-- The marks of one deposit in `submitLoop` of txrelayer/tx_relayer.go.
use lorenzo_btcstaking_submi.Base.{
  ℕ, ◌≡◌, ◌≢◌, ◌⊎◌, refl, inl, inr, String, false, none, some, List, [], ◌∷◌, ◌++◌, arith, Bytes,
  Result, ok, err, Error, Result-cases, Option-cases, Bool-cases,
}
use lorenzo_btcstaking_submi.Btc.Network.{Codec}
use lorenzo_btcstaking_submi.Btc.Query.{get_tx_block_proof, get_tx_bytes}
use lorenzo_btcstaking_submi.Db.Types.{
  status_pending, BtcDepositTx, status_success, status_invalid,
  status_receiver_is_not_belong_to_agent,
}
use lorenzo_btcstaking_submi.Db.Orm.{IsLawful, update_rows}
use lorenzo_btcstaking_submi.Db.BtcRepository.{with_txid, update_tx_status}
use lorenzo_btcstaking_submi.TxRelayer.Common.{is_staking_mint_try_again_error}
use lorenzo_btcstaking_submi.TxRelayer.Lorenzo.{MsgCreateBtcStaking, Keeper}
use lorenzo_btcstaking_submi.TxRelayer.Submit.{
  Submitter, SubmitEnv, SubmitState, mark, agent_id_of, new_msg_create_btc_staking, send, submit_tx,
}

-- The table after a mark.
abbrev pub marked : String → ℕ → List BtcDepositTx → List BtcDepositTx
marked txid status = update_rows (with_txid txid) (λ row. record row { status = status })

-- A mark changes the status of the rows with the txid, or fails and changes nothing.
mark-marked :
    (env : SubmitEnv) (txid : String) (status : ℕ) (s : SubmitState)
    → IsLawful env.deposit_db
    → ((mark env txid status s).deposits ≡ s.deposits)
      ⊎ ((mark env txid status s).deposits ≡ marked txid status s.deposits)
unfolding mark update_tx_status
mark-marked env txid status s lawful = ground (
  arith,
  lawful.update_answers (with_txid txid) (λ row. record row { status = status }) s.deposits,
)

module _ {MerkleBlock : Type 0} (keeper : Keeper MerkleBlock) (codec : Codec) (r : Submitter)
    (env : SubmitEnv) where
  -- The proof, the bytes and the agent of the deposit, and the message made of them.
  abbrev pub Prepared : BtcDepositTx → Result MsgCreateBtcStaking → Type 0
  Prepared tx built =
      (proof_raw tx_bytes : Bytes) × (id : ℕ) × (get_tx_block_proof env.http codec r.btc_query
          tx.txid
        ≡ ok proof_raw)
      × (get_tx_bytes env.http codec r.btc_query tx.txid ≡ ok tx_bytes)
      × (agent_id_of env.agents tx ≡ some id)
      × (new_msg_create_btc_staking keeper codec r env id proof_raw tx_bytes ≡ built)

  -- The reason for a new status.
  pub data Justified (tx : BtcDepositTx) (status : ℕ) : Type 0 where
    recorded :
        (staked : Bytes)
        → env.lorenzo.get_btc_staking_record tx.txid ≡ ok (some staked)
        → status ≡ status_success
        → Justified tx status
    accepted :
        (msg : MsgCreateBtcStaking)
        → Prepared tx (ok msg)
        → env.lorenzo.create_btc_staking_with_btc_proof msg ≡ ok tt
        → status ≡ status_success
        → Justified tx status
    unknown_receiver :
        agent_id_of env.agents tx ≡ none
        → status ≡ status_receiver_is_not_belong_to_agent
        → Justified tx status
    no_proof : (e : Error) → Prepared tx (err e) → status ≡ status_invalid → Justified tx status
    refused :
        (msg : MsgCreateBtcStaking) (e : Error)
        → Prepared tx (ok msg)
        → env.lorenzo.create_btc_staking_with_btc_proof msg ≡ err e
        → is_staking_mint_try_again_error e ≡ false
        → status ≡ status_invalid
        → Justified tx status

  -- A reason is never one for a pending status.
  pub Justified-ne-pending :
      (tx : BtcDepositTx) (status : ℕ) → Justified tx status → status ≢ status_pending
  Justified-ne-pending tx status (recorded staked h e) = omega arith
  Justified-ne-pending tx status (accepted msg h k e) = omega arith
  Justified-ne-pending tx status (unknown_receiver h e) = omega arith
  Justified-ne-pending tx status (no_proof e h k) = omega arith
  Justified-ne-pending tx status (refused msg e h k l m) = omega arith

  -- The table after the deposit: as before, or with a justified mark.
  abbrev pub Handled : BtcDepositTx → List BtcDepositTx → List BtcDepositTx → Type 0
  Handled tx rows after =
      (after ≡ rows) ⊎ ((status : ℕ) × (after ≡ marked tx.txid status rows) × Justified tx status)

  module _ (lawful : IsLawful env.deposit_db) (tx : BtcDepositTx) where
    mark-Handled :
        (status : ℕ) (s : SubmitState)
        → Justified tx status
        → Handled tx s.deposits (mark env tx.txid status s).deposits
    mark-Handled status s why = elim (mark-marked env tx.txid status s lawful) [
      | inl same ↦ inl same
      | inr changed ↦ inr (status, changed, why)
    ]

    becomes :
        {rows : List BtcDepositTx} (t u : SubmitState)
        → t ≡ u
        → Handled tx rows u.deposits
        → Handled tx rows t.deposits
    becomes t u e h = rw e h

    send-Handled :
        (built : Result MsgCreateBtcStaking) (s : SubmitState)
        → Prepared tx built
        → Handled tx s.deposits (send keeper codec r env tx built s).deposits
    unfolding send
    send-Handled (err e) s prepared = mark-Handled status_invalid s (no_proof e prepared refl)
    send-Handled (ok msg) s prepared =
        let s' = record s { sent = s.sent ++ msg ∷ [] } in
        elim (Result-cases (env.lorenzo.create_btc_staking_with_btc_proof msg)) [
          | inl (_, answer) ↦
              becomes (send keeper codec r env tx (ok msg) s) (mark env tx.txid status_success s')
                (ground arith)
                (mark-Handled status_success s' (accepted msg prepared (ground arith) refl))
          | inr (e, answer) ↦ elim (Bool-cases (is_staking_mint_try_again_error e)) [
            | inl again ↦ inl (ground arith)
            | inr final ↦
                becomes (send keeper codec r env tx (ok msg) s) (mark env tx.txid status_invalid s')
                  (ground arith)
                  (mark-Handled status_invalid s' (refused msg e prepared answer final refl))
          ]
        ]

    -- On a database that obeys its laws, submitting a deposit leaves the table as it was or changes
    -- only the status of the rows with its txid: to success only if the Lorenzo node has it
    -- recorded or has accepted the message made of its proof, to the agent status only if its
    -- receiver is no agent, and to invalid only if its proof does not parse or the node refused the
    -- message with an error that is not to be retried.
    pub submit_tx-Handled :
        (s : SubmitState) → Handled tx s.deposits (submit_tx keeper codec r env tx s).deposits
    unfolding submit_tx
    submit_tx-Handled s = elim (Result-cases (env.lorenzo.get_btc_staking_record tx.txid)) [
      | inr (e, asked) ↦ inl (ground arith)
      | inl (some staked, asked) ↦
          becomes (submit_tx keeper codec r env tx s) (mark env tx.txid status_success s)
            (ground arith) (mark-Handled status_success s (recorded staked asked refl))
      | inl (none, asked) ↦
          elim (Result-cases (get_tx_block_proof env.http codec r.btc_query tx.txid)) [
            | inr (e, proof) ↦ inl (ground arith)
            | inl (proof_raw, proof) ↦
                elim (Result-cases (get_tx_bytes env.http codec r.btc_query tx.txid)) [
                  | inr (e, bytes) ↦ inl (ground arith)
                  | inl (tx_bytes, bytes) ↦ elim (Option-cases (agent_id_of env.agents tx)) [
                    | inl nobody ↦
                        becomes (submit_tx keeper codec r env tx s)
                          (mark env tx.txid status_receiver_is_not_belong_to_agent s) (ground arith)
                          (mark-Handled status_receiver_is_not_belong_to_agent s
                            (unknown_receiver nobody refl))
                    | inr (id, found) ↦
                        let built =
                          new_msg_create_btc_staking keeper codec r env id proof_raw tx_bytes in
                        becomes (submit_tx keeper codec r env tx s)
                          (send keeper codec r env tx built s) (ground arith)
                          (send-Handled built s
                            (proof_raw, tx_bytes, id, proof, bytes, found, refl))
                  ]
                ]
          ]
    ]
