-- ===== src/TxRelayer/Scan.antt =====
-- The scanner of the BTC chain: `NewTxRelayer`'s first sync point, and `scanBlockLoop`. Each round
-- of the loop gets its own environment, so the network, the agents and the database may answer
-- differently from round to round. The waits between rounds are left out.
pub mod Round
pub mod Gaps
pub mod Reached
pub mod AsSteps
use lorenzo_btcstaking_submi.Base.{
  ℕ, String, zero, suc, List, [], ◌∷◌, ◌==◌, ltb, add_u64, if◌then◌else◌, Result, ok, err, Run,
  done, panicked, spinning, then_run,
}
use lorenzo_btcstaking_submi.Btc.Types.{Params, MsgBlock}
use lorenzo_btcstaking_submi.Btc.Network.{Http, Codec}
use lorenzo_btcstaking_submi.Btc.Query.{
  BtcQuery, get_btc_current_height, get_block_by_height, get_tx,
}
use lorenzo_btcstaking_submi.Btc.Utils.{Btcd}
use lorenzo_btcstaking_submi.Db.Types.{Config, BtcDepositTx}
use lorenzo_btcstaking_submi.Db.Orm.{Model}
use lorenzo_btcstaking_submi.Db.BtcRepository.{
  get_sync_point, update_sync_point, insert_btc_deposit_txs,
}
use lorenzo_btcstaking_submi.TxRelayer.Agents.{Agent}
use lorenzo_btcstaking_submi.TxRelayer.Deposits.{Scanner, get_valid_deposit_txs}

-- The fields of `TxRelayer` that the scanner reads and never changes.
pub record Relayer : Type 0 where
  pub delay_blocks : ℕ
  pub btc_param : Params
  pub btc_query : BtcQuery

-- The world in one round: `retries` is the network at each request for a transaction's detail.
pub record RoundEnv : Type 0 where
  pub http : Http
  pub retries : ℕ → Http
  pub patience : ℕ
  pub agents : List Agent
  pub config_db : Model Config
  pub deposit_db : Model BtcDepositTx

-- The tables that the scanner writes.
pub record ScanState : Type 0 where
  pub configs : List Config
  pub deposits : List BtcDepositTx

-- `NewTxRelayer`: a sync point of 0 is replaced by the configured start.
unfoldable pub init_sync_point : Model Config → ℕ → List Config → Result (List Config)
init_sync_point db start_block_height configs = elim (get_sync_point db configs) [
  | err e ↦ err e
  | ok height ↦ if height == 0 then update_sync_point db start_block_height configs else ok configs
]

-- The deposits of the block are inserted, and then the sync point moves to it.
store_block : RoundEnv → ℕ → ScanState → List BtcDepositTx → ScanState
store_block env height s txs = elim (insert_btc_deposit_txs env.deposit_db txs s.deposits) [
  | err _ ↦ s
  | ok deposits ↦ elim (update_sync_point env.config_db height s.configs) [
    | err _ ↦ record s { deposits = deposits }
    | ok configs ↦ record { configs = configs; deposits = deposits }
  ]
]

module _ {PkScript Address : Type 0} (btcd : Btcd PkScript Address) (codec : Codec)
    (r : Relayer) where
  abbrev pub scanner : RoundEnv → Scanner
  scanner env = record {
    agents = env.agents;
    btc_param = r.btc_param;
    get_tx = λ n txid. get_tx (env.retries n) codec r.btc_query txid;
    patience = env.patience;
  }

  handle_block : RoundEnv → ℕ → MsgBlock → ScanState → Run ScanState
  unfolding store_block
  handle_block env height block s =
      then_run (get_valid_deposit_txs btcd (scanner env) height block)
        (λ txs. done (store_block env height s txs))

  fetch_block : RoundEnv → ℕ → ScanState → Run ScanState
  unfolding handle_block
  fetch_block env height s = elim (get_block_by_height env.http codec r.btc_query height) [
    | err _ ↦ done s
    | ok block ↦ handle_block env height block s
  ]

  -- One pass through the loop's body.
  unfoldable pub scan_block_round : RoundEnv → ScanState → Run ScanState
  unfolding fetch_block
  scan_block_round env s = elim (get_btc_current_height env.http codec r.btc_query) [
    | err _ ↦ done s
    | ok btc_tip ↦ elim (get_sync_point env.config_db s.configs) [
      | err _ ↦ done s
      | ok sync_point ↦
          let next_block_height_to_fetch = add_u64 sync_point 1 in
          if ltb btc_tip (add_u64 next_block_height_to_fetch r.delay_blocks)
          then done s
          else fetch_block env next_block_height_to_fetch s
    ]
  ]

  -- The loop, until `quit` is closed at the end of the list.
  unfoldable pub scan_block_loop : List RoundEnv → ScanState → Run ScanState
  scan_block_loop [] s = done s
  scan_block_loop (env ∷ envs) s = then_run (scan_block_round env s) (scan_block_loop envs)
