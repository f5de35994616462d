-- ===== src/TxRelayer/Submit.antt =====
-- `submitLoop` of the BTC relayer: pending deposits are proved to the Lorenzo node and marked.
pub mod Marks
pub mod Final
pub mod AsSteps
pub mod Outcomes
pub mod Clears
pub mod Waiting
pub mod Drained
use lorenzo_btcstaking_submi.Base.{
  ℕ, String, Option, none, some, List, [], ◌∷◌, ◌++◌, Bytes, ◌==◌, if◌then◌else◌, ◌>>=◌, Result, ok,
  err,
}
use lorenzo_btcstaking_submi.Btc.Network.{Http, Codec}
use lorenzo_btcstaking_submi.Btc.Query.{BtcQuery, get_tx_block_proof, get_tx_bytes}
use lorenzo_btcstaking_submi.Db.Types.{
  BtcDepositTx, status_success, status_invalid, status_receiver_is_not_belong_to_agent,
}
use lorenzo_btcstaking_submi.Db.Orm.{Model}
use lorenzo_btcstaking_submi.Db.BtcRepository.{update_tx_status, get_unhandled_btc_deposit_txs}
use lorenzo_btcstaking_submi.TxRelayer.Common.{is_staking_mint_try_again_error}
use lorenzo_btcstaking_submi.TxRelayer.Agents.{Agent, get_agent_by_address}
use lorenzo_btcstaking_submi.TxRelayer.Lorenzo.{MsgCreateBtcStaking, LorenzoClient, Keeper}

-- The fields of `TxRelayer` that the submitter reads and never changes.
pub record Submitter : Type 0 where
  pub submitter : String
  pub btc_query : BtcQuery

-- The world in one round.
pub record SubmitEnv : Type 0 where
  pub http : Http
  pub lorenzo : LorenzoClient
  pub agents : List Agent
  pub deposit_db : Model BtcDepositTx

-- The deposits table, and the messages sent so far.
pub record SubmitState : Type 0 where
  pub deposits : List BtcDepositTx
  pub sent : List MsgCreateBtcStaking

-- `markDepositTxSuccess`, `markDepositTxInvalid` and `markDepositTxNotBelongToAgent`: a failure is
-- only logged.
mark : SubmitEnv → String → ℕ → SubmitState → SubmitState
mark env txid status s = elim (update_tx_status env.deposit_db txid status s.deposits) [
  | err _ ↦ s
  | ok deposits ↦ record s { deposits = deposits }
]

-- The agent of a deposit, looked up by its receiver if the row has none; 0 is no agent's id there.
pub agent_id_of : List Agent → BtcDepositTx → Option ℕ
agent_id_of agents tx =
    if tx.agent_id == 0
    then elim (get_agent_by_address agents tx.receiver_address) [
      | none ↦ none
      | some agent ↦ some agent.id
    ]
    else some tx.agent_id

module _ {MerkleBlock : Type 0} (keeper : Keeper MerkleBlock) (codec : Codec) (r : Submitter)
    (env : SubmitEnv) where
  unfoldable pub new_msg_create_btc_staking : ℕ → Bytes → Bytes → Result MsgCreateBtcStaking
  new_msg_create_btc_staking agent_id proof_raw tx_bytes = do
    merkle_block ← keeper.parse_merkle_block proof_raw
    (tx_index, proof_bytes) ← keeper.parse_btc_proof merkle_block
    ok (record {
      signer = r.submitter;
      agent_id = agent_id;
      staking_tx = record {
        key = record { index = tx_index; hash = keeper.block_hash_bytes merkle_block };
        proof = proof_bytes;
        transaction = tx_bytes;
      };
    })

  -- From the message on.
  send : BtcDepositTx → Result MsgCreateBtcStaking → SubmitState → SubmitState
  unfolding mark
  send tx (err e) s = mark env tx.txid status_invalid s
  send tx (ok msg) s =
      let s' = record s { sent = s.sent ++ msg ∷ [] } in
      elim (env.lorenzo.create_btc_staking_with_btc_proof msg) [
        | err e ↦
            if is_staking_mint_try_again_error e then s' else mark env tx.txid status_invalid s'
        | ok _ ↦ mark env tx.txid status_success s'
      ]

  -- The body of the loop over the deposits.
  pub submit_tx : BtcDepositTx → SubmitState → SubmitState
  unfolding send agent_id_of
  submit_tx tx s = elim (env.lorenzo.get_btc_staking_record tx.txid) [
    | err _ ↦ s
    | ok (some _) ↦ mark env tx.txid status_success s
    | ok none ↦ elim (get_tx_block_proof env.http codec r.btc_query tx.txid) [
      | err _ ↦ s
      | ok proof_raw ↦ elim (get_tx_bytes env.http codec r.btc_query tx.txid) [
        | err _ ↦ s
        | ok tx_bytes ↦ elim (agent_id_of env.agents tx) [
          | none ↦ mark env tx.txid status_receiver_is_not_belong_to_agent s
          | some id ↦ send tx (new_msg_create_btc_staking id proof_raw tx_bytes) s
        ]
      ]
    ]
  ]

  submit_txs : List BtcDepositTx → SubmitState → SubmitState
  submit_txs [] s = s
  submit_txs (tx ∷ txs) s = submit_txs txs (submit_tx tx s)

  -- One pass through the loop's body.
  unfoldable pub submit_round : SubmitState → SubmitState
  unfolding submit_txs submit_tx
  submit_round s = elim env.lorenzo.btc_header_chain_tip [
    | err _ ↦ s
    | ok tip ↦ elim (get_unhandled_btc_deposit_txs env.deposit_db tip s.deposits) [
      | err _ ↦ s
      | ok txs ↦ submit_txs txs s
    ]
  ]

module _ {MerkleBlock : Type 0} (keeper : Keeper MerkleBlock) (codec : Codec) (r : Submitter) where
  -- The loop, until `quit` is closed at the end of the list.
  unfoldable pub submit_loop : List SubmitEnv → SubmitState → SubmitState
  submit_loop [] s = s
  submit_loop (env ∷ envs) s = submit_loop envs (submit_round keeper codec r env s)
