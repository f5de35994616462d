-- ===== src/Btc/Types.antt =====
-- btc/types.go, and the parts of btcd's blocks and transactions that the program reads.
use lorenzo_btcstaking_submi.Base.{ℕ, String, Bool, List, Bytes}

pub record Vout : Type 0 where
  pub script_pub_key : String
  pub script_pub_key_asm : String
  pub script_pub_key_type : String
  pub script_pub_key_address : String
  pub value : ℕ

pub record Vin : Type 0 where
  pub txid : String
  pub vout : ℕ
  pub prevout : Vout
  pub script_sig : String
  pub script_sig_asm : String
  pub witness : List String
  pub is_coinbase : Bool
  pub sequence : ℕ

pub record TxStatus : Type 0 where
  pub confirmed : Bool
  pub block_height : ℕ
  pub block_hash : String
  pub block_time : ℕ

pub record BtcTx : Type 0 where
  pub txid : String
  pub version : ℕ
  pub locktime : ℕ
  pub vin : List Vin
  pub vout : List Vout
  pub size : ℕ
  pub weight : ℕ
  pub fee : ℕ
  pub status : TxStatus

-- `wire.TxOut`. The value is an `int64`, held as its 64-bit pattern, so that `uint64(out.Value)` is
-- the same number.
pub record TxOut : Type 0 where
  pub value : ℕ
  pub pk_script : Bytes

-- `wire.MsgTx`: its outputs, and `TxHash().String()`.
pub record MsgTx : Type 0 where
  pub tx_out : List TxOut
  pub tx_hash : String

-- `wire.MsgBlock`: its transactions, `BlockHash().String()` and `Header.Timestamp`.
pub record MsgBlock : Type 0 where
  pub transactions : List MsgTx
  pub block_hash : String
  pub timestamp : ℕ

-- The networks of `chaincfg` that the program knows.
pub data Params : Type 0 where
  main_net_params test_net3_params sig_net_params : Params
