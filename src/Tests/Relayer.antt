-- ===== src/Tests/Relayer.antt =====
-- The scanner on the small network: a round, and a loop in which one round fails.
use lorenzo_btcstaking_submi.Base.{
  ℕ, ◌+◌, ◌≤◌, ◌<◌, ◌≡◌, ◌≢◌, ◌⊎◌, refl, String, some, List, [], ◌∷◌, arith, length, All, Has,
  bytes_eq, add_u64, ok, done, panicked, spinning, inl,
}
use lorenzo_btcstaking_submi.Strconv.{parse_uint, format_uint}
use lorenzo_btcstaking_submi.Btc.Types.{BtcTx, main_net_params}
use lorenzo_btcstaking_submi.Btc.Query.{get_btc_current_height, get_block_by_height, get_tx}
use lorenzo_btcstaking_submi.Btc.Utils.{extract_payment_to, extract_payment_to_with_op_return_id}
use lorenzo_btcstaking_submi.Btc.Utils.Payments.{truncated}
use lorenzo_btcstaking_submi.Db.Types.{Config, BtcDepositTx, submitter_btc_sync_point_key}
use lorenzo_btcstaking_submi.Db.Orm.{first_row}
use lorenzo_btcstaking_submi.Db.Insertion.{Covers}
use lorenzo_btcstaking_submi.Db.Kv.{get_uint64, set_uint64}
use lorenzo_btcstaking_submi.Db.Kv.SyncPoint.{stored}
use lorenzo_btcstaking_submi.Db.BtcRepository.{
  get_sync_point, update_sync_point, insert_btc_deposit_txs,
}
use lorenzo_btcstaking_submi.Db.BtcRepository.Deposits.{same_txid}
use lorenzo_btcstaking_submi.TxRelayer.Agents.{get_agent_by_address, is_valid_deposit_receiver}
use lorenzo_btcstaking_submi.TxRelayer.Deposits.{deposits_in, receiver_of, get_valid_deposit_txs}
use lorenzo_btcstaking_submi.TxRelayer.Deposits.Selection.{Selects, get_valid_deposit_txs-Selects}
use lorenzo_btcstaking_submi.TxRelayer.Deposits.Progress.{
  get_valid_deposit_txs-returns, get_valid_deposit_txs-panicked,
}
use lorenzo_btcstaking_submi.TxRelayer.Scan.{
  Relayer, RoundEnv, ScanState, scan_block_round, scan_block_loop,
}
use lorenzo_btcstaking_submi.TxRelayer.Scan.Round.{
  IsLawfulEnv, sync_point_of, Extends, Stored, Scanned, scan_block_round-Scanned,
}
use lorenzo_btcstaking_submi.TxRelayer.Scan.Gaps.{scan_block_loop-Extends, scan_block_loop-Covers}
use lorenzo_btcstaking_submi.TxRelayer.Scan.Reached.{IsReliableEnv, scan_block_loop-reaches}
use lorenzo_btcstaking_submi.Tests.Table.{table, table-IsLawful, table-IsReliable}
use lorenzo_btcstaking_submi.Tests.World.{
  small_btcd, agent, two_agents, agent_script, deposit_msg, broken_msg, one_block, broken_block,
  detail, http_up, http_busy, codec, query, two_agents_scanner, config,
}

abbrev deposit : BtcDepositTx
deposit = record {
  agent_id = 1;
  receiver_name = "agent";
  receiver_address = "bc1-agent";
  amount = 1200000;
  txid = "tx-deposit";
  height = 101;
  block_hash = "00ab";
  block_time = 1700000000;
  status = 0;
}

abbrev safe_deposit : BtcDepositTx
safe_deposit = record {
  agent_id = 2;
  receiver_name = "safe";
  receiver_address = "bc1-safe";
  amount = 300000;
  txid = "tx-safe";
  height = 101;
  block_hash = "00ab";
  block_time = 1700000000;
  status = 0;
}

abbrev pub both_deposits : List BtcDepositTx
both_deposits = deposit ∷ safe_deposit ∷ []

both_deposits-found :
    get_valid_deposit_txs small_btcd two_agents_scanner 101 one_block ≡ done both_deposits
unfolding get_valid_deposit_txs extract_payment_to extract_payment_to_with_op_return_id
    get_agent_by_address is_valid_deposit_receiver bytes_eq add_u64
both_deposits-found = refl

get_valid_deposit_txs-Selects_example :
    Selects small_btcd two_agents_scanner 101 one_block one_block.transactions both_deposits
get_valid_deposit_txs-Selects_example =
    get_valid_deposit_txs-Selects small_btcd two_agents_scanner 101 one_block both_deposits
      both_deposits-found

second_request :
    (txid : String)
    → (n : ℕ) × (found : BtcTx) × (n < two_agents_scanner.patience)
      × (two_agents_scanner.get_tx n txid ≡ ok found)
second_request txid = (1, detail, omega arith, refl)

get_valid_deposit_txs-returns_example :
    get_valid_deposit_txs small_btcd two_agents_scanner 101 one_block ≢ spinning
get_valid_deposit_txs-returns_example =
    get_valid_deposit_txs-returns small_btcd two_agents_scanner second_request 101 one_block

abbrev late_deposit : BtcDepositTx
late_deposit = record deposit { block_hash = "00cd"; block_time = 1700000600 }

late_deposit-found :
    deposits_in small_btcd two_agents_scanner 101 broken_block (deposit_msg ∷ []) []
    ≡ done (late_deposit ∷ [])
unfolding get_valid_deposit_txs extract_payment_to_with_op_return_id get_agent_by_address bytes_eq
    add_u64
late_deposit-found = refl

agent-paid :
    receiver_of small_btcd two_agents_scanner (record { value = 1; pk_script = agent_script })
    ≡ some (agent, agent_script)
unfolding get_valid_deposit_txs get_agent_by_address bytes_eq
agent-paid = refl

get_valid_deposit_txs-panicked_example :
    get_valid_deposit_txs small_btcd two_agents_scanner 101 broken_block ≡ panicked
unfolding truncated bytes_eq
get_valid_deposit_txs-panicked_example =
    get_valid_deposit_txs-panicked small_btcd two_agents_scanner 101 broken_block broken_msg agent
      agent_script agent_script refl refl refl (deposit_msg ∷ []) [] (late_deposit ∷ []) refl
      late_deposit-found (inl agent-paid)

-- Three confirmations on the scanned block.
abbrev pub relayer : Relayer
relayer = record { delay_blocks = 3; btc_param = main_net_params; btc_query = query }

abbrev pub up : RoundEnv
up = record {
  http = http_up;
  retries = λ n. http_up;
  patience = 5;
  agents = two_agents;
  config_db = table Config;
  deposit_db = table BtcDepositTx;
}

-- The explorer refuses every request.
abbrev busy : RoundEnv
busy = record up { http = http_busy }

pub up-IsLawfulEnv : IsLawfulEnv up
up-IsLawfulEnv = record {
  config_lawful = table-IsLawful Config;
  deposit_lawful = table-IsLawful BtcDepositTx;
}

busy-IsLawfulEnv : IsLawfulEnv busy
busy-IsLawfulEnv = record {
  config_lawful = table-IsLawful Config;
  deposit_lawful = table-IsLawful BtcDepositTx;
}

abbrev pub at_100 : ScanState
at_100 = record { configs = config submitter_btc_sync_point_key "100" ∷ []; deposits = [] }

abbrev pub at_101 : ScanState
at_101 = record {
  configs = config submitter_btc_sync_point_key "101" ∷ [];
  deposits = both_deposits;
}

-- The block at 102 repeats the transactions, which are there already.
abbrev at_102 : ScanState
at_102 = record {
  configs = config submitter_btc_sync_point_key "102" ∷ [];
  deposits = both_deposits;
}

pub at_100-stored : sync_point_of at_100 ≡ ok 100
unfolding stored parse_uint
at_100-stored = refl

at_102-stored : sync_point_of at_102 ≡ ok 102
unfolding stored parse_uint
at_102-stored = refl

pub first_round : scan_block_round small_btcd codec relayer up at_100 ≡ done at_101
unfolding scan_block_round get_btc_current_height get_block_by_height get_tx get_valid_deposit_txs
    extract_payment_to extract_payment_to_with_op_return_id get_agent_by_address
    is_valid_deposit_receiver bytes_eq add_u64 get_sync_point update_sync_point get_uint64
    set_uint64 parse_uint format_uint first_row insert_btc_deposit_txs
first_round = refl

scan_block_round-Scanned_example :
    Extends at_100 at_101
    × ((sync_point_of at_101 ≡ ok 100)
        ⊎ ((txs : List BtcDepositTx) × Scanned small_btcd codec relayer up (100 + 1) txs
            × Stored (100 + 1) txs at_101))
scan_block_round-Scanned_example =
    scan_block_round-Scanned up up-IsLawfulEnv small_btcd codec relayer 100 at_100 at_101
      at_100-stored (omega arith) first_round

abbrev three_rounds : List RoundEnv
three_rounds = up ∷ busy ∷ up ∷ []

three_rounds-run : scan_block_loop small_btcd codec relayer three_rounds at_100 ≡ done at_102
unfolding scan_block_loop scan_block_round get_btc_current_height get_block_by_height get_tx
    get_valid_deposit_txs extract_payment_to extract_payment_to_with_op_return_id
    get_agent_by_address is_valid_deposit_receiver bytes_eq add_u64 get_sync_point update_sync_point
    get_uint64 set_uint64 parse_uint format_uint first_row insert_btc_deposit_txs
three_rounds-run = refl

three_rounds-IsLawfulEnv : All IsLawfulEnv three_rounds
three_rounds-IsLawfulEnv = (up-IsLawfulEnv, (busy-IsLawfulEnv, (up-IsLawfulEnv, tt)))

scan_block_loop-Extends_example :
    Extends at_100 at_102
    × ((reached : ℕ) × (sync_point_of at_102 ≡ ok reached)
        × (100 ≤ reached)
        × (reached ≤ 100 + length three_rounds))
scan_block_loop-Extends_example =
    scan_block_loop-Extends small_btcd codec relayer three_rounds 100 at_100 at_102
      three_rounds-IsLawfulEnv at_100-stored (omega arith) three_rounds-run

scan_block_loop-Covers_example :
    (env : RoundEnv) × (txs : List BtcDepositTx) × Has (λ e. e ≡ env) three_rounds
    × Scanned small_btcd codec relayer env 101 txs
    × Covers same_txid at_102.deposits txs
scan_block_loop-Covers_example =
    scan_block_loop-Covers small_btcd codec relayer three_rounds 100 102 101 at_100 at_102
      three_rounds-IsLawfulEnv at_100-stored (omega arith) three_rounds-run at_102-stored
      (omega arith) (omega arith)

up-IsReliableEnv : IsReliableEnv up
up-IsReliableEnv = record {
  lawful = up-IsLawfulEnv;
  config_reliable = table-IsReliable Config;
  deposit_reliable = table-IsReliable BtcDepositTx;
}

abbrev later_deposits : List BtcDepositTx
later_deposits = record deposit { height = 102 } ∷ record safe_deposit { height = 102 } ∷ []

up-Scanned : Scanned small_btcd codec relayer up 101 both_deposits
unfolding get_btc_current_height get_block_by_height get_tx get_valid_deposit_txs extract_payment_to
    extract_payment_to_with_op_return_id get_agent_by_address is_valid_deposit_receiver bytes_eq
    add_u64
up-Scanned = (110, one_block, refl, omega arith, refl, refl)

up-Scanned_later : Scanned small_btcd codec relayer up 102 later_deposits
unfolding get_btc_current_height get_block_by_height get_tx get_valid_deposit_txs extract_payment_to
    extract_payment_to_with_op_return_id get_agent_by_address is_valid_deposit_receiver bytes_eq
    add_u64
up-Scanned_later = (110, one_block, refl, omega arith, refl, refl)

scan_block_loop-reaches_example :
    (t : ScanState) × (scan_block_loop small_btcd codec relayer (up ∷ up ∷ []) at_100 ≡ done t)
    × (sync_point_of t ≡ ok (100 + length (up ∷ up ∷ [])))
scan_block_loop-reaches_example =
    scan_block_loop-reaches small_btcd codec relayer (up ∷ up ∷ []) 100 at_100
      (
        up-IsReliableEnv,
        (both_deposits, up-Scanned),
        (up-IsReliableEnv, (later_deposits, up-Scanned_later), tt),
      )
      at_100-stored (omega arith)
