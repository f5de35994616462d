-- ===== src/TxRelayer/Startup.antt =====
-- `NewTxRelayer` of txrelayer/tx_relayer.go and `NewBnbTxRelayer` of txrelayer/bnb_txrelayer.go.
pub mod Resumed
use lorenzo_btcstaking_submi.Base.{
  ℕ, Bool, true, false, String, ◌<>◌, Option, none, some, List, [], Error, error_text, message,
  if◌then◌else◌, Result, ok, err, Run, done, panicked, spinning, then_run,
}
use lorenzo_btcstaking_submi.BnbClient.{Dial, new_client}
use lorenzo_btcstaking_submi.Btc.Query.{new_btc_query}
use lorenzo_btcstaking_submi.Btc.Utils.{get_btc_params}
use lorenzo_btcstaking_submi.Config.{TxRelayerConfig, BnbTxRelayerConfig, validate_bnb_tx_relayer}
use lorenzo_btcstaking_submi.Db.Types.{Config}
use lorenzo_btcstaking_submi.Db.Orm.{Model}
use lorenzo_btcstaking_submi.TxRelayer.Agents.{Agent, AgentsQuery, update_agents_list}
use lorenzo_btcstaking_submi.TxRelayer.Scan.{Relayer, init_sync_point}
use lorenzo_btcstaking_submi.TxRelayer.Submit.{Submitter}
use lorenzo_btcstaking_submi.TxRelayer.Bnb.{BnbRelayer, default_delay_blocks}
use lorenzo_btcstaking_submi.TxRelayer.Bnb.Scan.{init_bnb_sync_point}

abbrev pub db_not_initialized : Error
db_not_initialized = message "DB is not initialized yet"

-- `NewBTCRepository`, by whether the connection is open.
unfoldable pub new_btc_repository : Bool → Option Error
new_btc_repository db_open = if db_open then none else some db_not_initialized

-- `NewBNBRepository`
unfoldable pub new_bnb_repository : Bool → Option Error
new_bnb_repository db_open = if db_open then none else some db_not_initialized

-- A new relayer of the BTC chain: what its scanner and its submitter read, and its agents.
pub record BtcRelayer : Type 0 where
  pub scanner : Relayer
  pub submitter : Submitter
  pub agents : List Agent

-- The world when a relayer is made: the database, the node's agents with the fuel for their pages,
-- and the address of `MustGetAddr`, none where it panics.
pub record StartEnv : Type 0 where
  pub db_open : Bool
  pub config_db : Model Config
  pub fuel : ℕ
  pub agents : AgentsQuery
  pub must_get_addr : Option String

-- `NewTxRelayer`: the relayer or an error, and the table of the sync points after the call.
unfoldable pub new_tx_relayer :
    StartEnv → TxRelayerConfig → List Config → Run (Result BtcRelayer × List Config)
unfolding new_btc_repository
new_tx_relayer env conf configs = elim (new_btc_repository env.db_open) [
  | some e ↦ done (err e, configs)
  | none ↦ elim (init_sync_point env.config_db conf.start_block_height configs) [
    | err e ↦ done (err e, configs)
    | ok configs' ↦ elim env.must_get_addr [
      | none ↦ panicked
      | some address ↦ then_run (update_agents_list env.fuel env.agents []) λ updated.
          elim updated.0 [
            | err e ↦ done (err e, configs')
            | ok _ ↦ done (
              ok (record {
                scanner = record {
                  delay_blocks = conf.confirmation_depth;
                  btc_param = get_btc_params conf.net_params;
                  btc_query = new_btc_query conf.btc_api_endpoint;
                };
                submitter = record {
                  submitter = address;
                  btc_query = new_btc_query conf.btc_api_endpoint;
                };
                agents = updated.1;
              }),
              configs',
            )
          ]
    ]
  ]
]

-- `BNBLightClientParams` as the address of the stake plan hub, `HexToAddress`, and what
-- `bnbclient.New` opens; and `MustGetAddr`, none where it panics.
pub record BnbStartEnv : Type 0 where
  pub stake_plan_hub_address : Result String
  pub hex_to_address : String → String
  pub dial : Dial
  pub db_open : Bool
  pub config_db : Model Config
  pub must_get_addr : Option String

-- `NewBnbTxRelayer`
unfoldable pub new_bnb_tx_relayer :
    BnbStartEnv → BnbTxRelayerConfig → List Config → Run (Result BnbRelayer × List Config)
unfolding new_bnb_repository
new_bnb_tx_relayer env cfg configs = elim (validate_bnb_tx_relayer cfg) [
  | some e ↦
      done (err (message ("invalid BNB Tx-relayer config, error: " <> error_text e)), configs)
  | none ↦ elim env.stake_plan_hub_address [
    | err e ↦ done (err e, configs)
    | ok hub ↦ elim (new_client env.dial cfg.rpc_url) [
      | some e ↦ done (err e, configs)
      | none ↦ elim (new_bnb_repository env.db_open) [
        | some e ↦ done (err e, configs)
        | none ↦ elim (init_bnb_sync_point env.config_db cfg.start_block_height configs) [
          | err e ↦ done (err e, configs)
          | ok configs' ↦ elim env.must_get_addr [
            | none ↦ panicked
            | some address ↦ done (
              ok (record {
                chain_name = "bnb";
                delay_blocks = default_delay_blocks;
                plan_stake_hub_address = env.hex_to_address hub;
                submitter = address;
              }),
              configs',
            )
          ]
        ]
      ]
    ]
  ]
]
