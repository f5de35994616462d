-- ===== src/Tests/Startup.antt =====
-- Both relayers are made: the BTC sync point is not set yet, and the BNB one is.
use lorenzo_btcstaking_submi.Base.{◌≡◌, refl, true, none, some, List, [], ◌∷◌, arith, ok, done}
use lorenzo_btcstaking_submi.Strconv.{parse_uint, format_uint}
use lorenzo_btcstaking_submi.BnbClient.{new_client}
use lorenzo_btcstaking_submi.Btc.Types.{main_net_params}
use lorenzo_btcstaking_submi.Btc.Query.{new_btc_query}
use lorenzo_btcstaking_submi.Btc.Utils.{get_btc_params}
use lorenzo_btcstaking_submi.Config.{TxRelayerConfig, BnbTxRelayerConfig, validate_bnb_tx_relayer}
use lorenzo_btcstaking_submi.Db.Types.{
  Config, submitter_btc_sync_point_key, submitter_bnb_sync_point_key,
}
use lorenzo_btcstaking_submi.Db.Orm.{first_row}
use lorenzo_btcstaking_submi.Db.Kv.{get_uint64, set_uint64}
use lorenzo_btcstaking_submi.Db.Kv.SyncPoint.{stored}
use lorenzo_btcstaking_submi.Db.BtcRepository as Btc
use lorenzo_btcstaking_submi.Db.BnbRepository as Bnb
use lorenzo_btcstaking_submi.TxRelayer.Agents.{update_agents_list}
use lorenzo_btcstaking_submi.TxRelayer.Scan.{init_sync_point}
use lorenzo_btcstaking_submi.TxRelayer.Bnb.{default_delay_blocks}
use lorenzo_btcstaking_submi.TxRelayer.Bnb.Scan.{init_bnb_sync_point}
use lorenzo_btcstaking_submi.TxRelayer.Startup.{
  BtcRelayer, StartEnv, new_tx_relayer, BnbStartEnv, new_bnb_tx_relayer,
}
use lorenzo_btcstaking_submi.TxRelayer.Startup.Resumed.{new_tx_relayers-resume}
use lorenzo_btcstaking_submi.Tests.Table.{table, table-IsLawful}
use lorenzo_btcstaking_submi.Tests.World.{two_agents, config}
use lorenzo_btcstaking_submi.Tests.Bnb.{bnb_relayer}

abbrev pub env : StartEnv
env = record {
  db_open = true;
  config_db = table Config;
  fuel = 1;
  agents = λ key. ok (record { agents = two_agents; next_key = none });
  must_get_addr = some "lrz1submitter";
}

abbrev pub bnb_env : BnbStartEnv
bnb_env = record {
  stake_plan_hub_address = ok "0xhub";
  hex_to_address = λ text. text;
  dial = record {
    eth = λ url. none;
    rpc = λ url. none;
    receipts_cache = λ size. none;
    header_cache = λ size. none;
  };
  db_open = true;
  config_db = table Config;
  must_get_addr = some "lrz1submitter";
}

abbrev conf : TxRelayerConfig
conf = record {
  confirmation_depth = 3;
  net_params = "mainnet";
  btc_api_endpoint = "https://mempool";
  start_block_height = 800000;
}

abbrev bnb_conf : BnbTxRelayerConfig
bnb_conf = record { rpc_url = "rpc"; confirmation_depth = 20; start_block_height = 40000000 }

abbrev pub before : List Config
before = config submitter_bnb_sync_point_key "41000000" ∷ []

abbrev pub after : List Config
after =
    config submitter_bnb_sync_point_key "41000000"
    ∷ config submitter_btc_sync_point_key "800000"
    ∷ []

abbrev pub btc_relayer : BtcRelayer
btc_relayer = record {
  scanner = record {
    delay_blocks = 3;
    btc_param = main_net_params;
    btc_query = new_btc_query "https://mempool";
  };
  submitter = record { submitter = "lrz1submitter"; btc_query = new_btc_query "https://mempool" };
  agents = two_agents;
}

btc-made : new_tx_relayer env conf before ≡ done (ok btc_relayer, after)
unfolding new_tx_relayer init_sync_point update_agents_list get_btc_params Btc.get_sync_point
    Btc.update_sync_point get_uint64 set_uint64 first_row parse_uint format_uint
btc-made = refl

bnb-made : new_bnb_tx_relayer bnb_env bnb_conf after ≡ done (ok bnb_relayer, after)
unfolding new_bnb_tx_relayer new_client validate_bnb_tx_relayer init_bnb_sync_point
    Bnb.get_sync_point get_uint64 first_row parse_uint
bnb-made = refl

before-btc : stored submitter_btc_sync_point_key before ≡ ok 0
unfolding stored
before-btc = refl

before-bnb : stored submitter_bnb_sync_point_key before ≡ ok 41000000
unfolding stored parse_uint
before-bnb = refl

new_tx_relayers-resume_example :
    (stored submitter_btc_sync_point_key after ≡ ok 800000)
    × (stored submitter_bnb_sync_point_key after ≡ ok 41000000)
    × (btc_relayer.scanner.delay_blocks ≡ 3)
    × (bnb_relayer.delay_blocks ≡ default_delay_blocks)
    × (validate_bnb_tx_relayer bnb_conf ≡ none)
new_tx_relayers-resume_example =
    new_tx_relayers-resume env bnb_env conf bnb_conf 0 41000000 before after after btc_relayer
      bnb_relayer (table-IsLawful Config) (table-IsLawful Config) (omega arith) (omega arith)
      before-btc before-bnb btc-made bnb-made
