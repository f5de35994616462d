-- ===== src/Db/Types.antt =====
-- db/types.go, and the constants of db/repository.go: the rows of the three tables. The columns of
-- `BaseTable` (id and two times), which the database fills in and the program never reads, are left
-- out. A `time.Time` is its Unix time in seconds.
use lorenzo_btcstaking_submi.Base.{ℕ, String}

abbrev pub dep0_amount : ℕ
dep0_amount = 400000

abbrev pub dep1_amount : ℕ
dep1_amount = 2000000

abbrev pub dep2_amount : ℕ
dep2_amount = 10000000

abbrev pub dep3_amount : ℕ
dep3_amount = 50000000

pub record Config : Type 0 where
  pub name : String
  pub value : String

pub record BtcDepositTx : Type 0 where
  pub agent_id : ℕ
  pub receiver_name : String
  pub receiver_address : String
  pub amount : ℕ
  pub txid : String
  pub height : ℕ
  pub block_hash : String
  pub block_time : ℕ
  pub status : ℕ

pub record WrappedBtcDepositTx : Type 0 where
  pub chain : String
  pub txid : String
  pub height : ℕ
  pub block_hash : String
  pub block_time : ℕ
  pub receipt : String
  pub proof : String
  pub status : ℕ

abbrev pub submitter_btc_sync_point_key : String
submitter_btc_sync_point_key = "submitter/btc-sync-point"

abbrev pub submitter_bnb_sync_point_key : String
submitter_bnb_sync_point_key = "submitter/bnb-sync-point"

abbrev pub status_pending : ℕ
status_pending = 0

abbrev pub status_success : ℕ
status_success = 1

abbrev pub status_invalid : ℕ
status_invalid = 2

abbrev pub status_receiver_is_not_belong_to_agent : ℕ
status_receiver_is_not_belong_to_agent = 3

abbrev pub batch_handle_btc_deposit_txs_num : ℕ
batch_handle_btc_deposit_txs_num = 50
