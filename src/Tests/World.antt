-- ===== src/Tests/World.antt =====
-- A small network: one block with a deposit, a refused transaction and a payment to nobody.
use lorenzo_btcstaking_submi.Base.{
  ℕ, zero, String, str_eq, true, false, none, some, List, [], ◌∷◌, Bytes, bytes_eq, if◌then◌else◌,
  Result, ok, err, message,
}
use lorenzo_btcstaking_submi.Btc.Types.{Vin, BtcTx, TxOut, MsgTx, MsgBlock, main_net_params}
use lorenzo_btcstaking_submi.Btc.Network.{Http, Codec}
use lorenzo_btcstaking_submi.Btc.Query.{BtcQuery}
use lorenzo_btcstaking_submi.Btc.Utils.{Btcd}
use lorenzo_btcstaking_submi.Db.Types.{Config, BtcDepositTx}
use lorenzo_btcstaking_submi.TxRelayer.Agents.{Agent}
use lorenzo_btcstaking_submi.TxRelayer.Deposits.{Scanner}
use lorenzo_btcstaking_submi.TxRelayer.Lorenzo.{LorenzoClient, Keeper}

abbrev pub agent_script : Bytes
agent_script = 0 ∷ 20 ∷ []

abbrev pub safe_script : Bytes
safe_script = 0 ∷ 21 ∷ []

-- An address is its script; the first byte of a script that pays one is 0.
abbrev pub parse_script : Bytes → Result Bytes
parse_script (zero ∷ rest) = ok (0 ∷ rest)
parse_script _ = err (message "unsupported script type")

abbrev pub small_btcd : Btcd Bytes Bytes
small_btcd = record {
  parse_pk_script = parse_script;
  address = λ script params. ok script;
  address_string = λ script.
      if bytes_eq script agent_script
      then "bc1-agent"
      else if bytes_eq script safe_script
      then "bc1-safe"
      else "bc1-other";
  pay_to_addr_script = λ script. ok script;
  decode_address =
      λ s params. if str_eq s "bc1-agent" then ok agent_script else err (message "unknown address");
  op_return = 106;
  op_pushdata1 = 76;
}

-- An agent whose deposits name their receiver themselves.
abbrev pub agent : Agent
agent = record {
  id = 1;
  name = "agent";
  btc_receiving_address = "bc1-agent";
  eth_addr = "";
  description = "";
  url = "";
}

-- An agent with an Ethereum address.
abbrev pub safe : Agent
safe = record {
  id = 2;
  name = "safe";
  btc_receiving_address = "bc1-safe";
  eth_addr = "0x01";
  description = "";
  url = "";
}

abbrev pub two_agents : List Agent
two_agents = agent ∷ safe ∷ []

abbrev pub pay : ℕ → Bytes → TxOut
pay value script = record { value = value; pk_script = script }

-- OP_RETURN, a length and two bytes.
abbrev pub id_script : Bytes
id_script = 106 ∷ 2 ∷ 7 ∷ 8 ∷ []

-- OP_RETURN OP_PUSHDATA1
abbrev pub truncated_script : Bytes
truncated_script = 106 ∷ 76 ∷ []

abbrev pub deposit_msg : MsgTx
deposit_msg = record {
  tx_out = pay 500000 agent_script ∷ pay 0 id_script ∷ pay 700000 agent_script ∷ [];
  tx_hash = "tx-deposit";
}

abbrev pub safe_msg : MsgTx
safe_msg = record { tx_out = pay 300000 safe_script ∷ []; tx_hash = "tx-safe" }

abbrev pub no_id_msg : MsgTx
no_id_msg = record { tx_out = pay 900000 agent_script ∷ []; tx_hash = "tx-no-id" }

abbrev pub broken_msg : MsgTx
broken_msg = record {
  tx_out = pay 1 agent_script ∷ pay 0 truncated_script ∷ [];
  tx_hash = "tx-broken";
}

abbrev pub one_block : MsgBlock
one_block = record {
  transactions = deposit_msg ∷ no_id_msg ∷ safe_msg ∷ [];
  block_hash = "00ab";
  timestamp = 1700000000;
}

abbrev pub broken_block : MsgBlock
broken_block = record {
  transactions = deposit_msg ∷ broken_msg ∷ [];
  block_hash = "00cd";
  timestamp = 1700000600;
}

abbrev pub stranger : Vin
stranger = record {
  txid = "tx-before";
  vout = 0;
  prevout = record {
    script_pub_key = "";
    script_pub_key_asm = "";
    script_pub_key_type = "";
    script_pub_key_address = "bc1-stranger";
    value = 400000;
  };
  script_sig = "";
  script_sig_asm = "";
  witness = [];
  is_coinbase = false;
  sequence = 0;
}

abbrev pub detail : BtcTx
detail = record {
  txid = "tx-safe";
  version = 2;
  locktime = 0;
  vin = stranger ∷ [];
  vout = [];
  size = 200;
  weight = 800;
  fee = 100;
  status = record {
    confirmed = true;
    block_height = 101;
    block_hash = "00ab";
    block_time = 1700000000;
  };
}

abbrev pub http_up : Http
http_up = record {
  get = λ url. ok (record { status_code = 200; body = 1 ∷ []; read_error = none });
}

abbrev pub http_busy : Http
http_busy = record {
  get = λ url. ok (record { status_code = 429; body = 2 ∷ []; read_error = none });
}

abbrev pub codec : Codec
codec = record {
  text = λ bytes. if bytes_eq bytes (2 ∷ []) then "Too Many Requests" else "00ab";
  hex_decode = λ s. ok (171 ∷ []);
  decode_txs = λ resp. ok [];
  decode_tx = λ resp. ok detail;
  decode_height = λ resp. ok 110;
  decode_block = λ resp. ok one_block;
}

abbrev pub query : BtcQuery
query = record { api_endpoint = "https://blockstream.info/api" }

-- The first request for a detail is refused, and the later ones are answered.
abbrev pub one_refusal : ℕ → String → Result BtcTx
one_refusal zero txid = err (message "Too Many Requests")
one_refusal _ txid = ok detail

abbrev pub two_agents_scanner : Scanner
two_agents_scanner = record {
  agents = two_agents;
  btc_param = main_net_params;
  get_tx = one_refusal;
  patience = 5;
}

abbrev pub row : String → ℕ → ℕ → ℕ → BtcDepositTx
row txid amount height status = record {
  agent_id = 0;
  receiver_name = "agent";
  receiver_address = "bc1-agent";
  amount = amount;
  txid = txid;
  height = height;
  block_hash = "00ab";
  block_time = 1700000000;
  status = status;
}

abbrev pub config : String → String → Config
config name value = record { name = name; value = value }

-- The node has the record of one transaction only, refuses agent 2 and accepts the others.
abbrev pub lorenzo : LorenzoClient
lorenzo = record {
  btc_header_chain_tip = ok 110;
  bnb_latest_header = ok 110;
  get_btc_staking_record = λ txid. ok (if str_eq txid "tx-staked" then some (1 ∷ []) else none);
  create_btc_staking_with_btc_proof = λ msg. ok tt;
  create_btcb_staking = λ msg. ok tt;
}

abbrev pub small_keeper : Keeper Bytes
small_keeper = record {
  parse_merkle_block = λ bytes. ok bytes;
  block_hash_bytes = λ block. block;
  parse_btc_proof = λ block. ok (0, block);
}
