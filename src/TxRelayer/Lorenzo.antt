-- ===== src/TxRelayer/Lorenzo.antt =====
-- What the relayers use of the Lorenzo node and of its keeper package: parameters, with no law.
use lorenzo_btcstaking_submi.Base.{ℕ, String, Option, Bytes, Result}

-- `types.MsgCreateBTCStaking` and its parts, as `newMsgCreateBTCStaking` fills them in.
pub record TransactionKey : Type 0 where
  pub index : ℕ
  pub hash : Bytes

pub record TransactionInfo : Type 0 where
  pub key : TransactionKey
  pub proof : Bytes
  pub transaction : Bytes

pub record MsgCreateBtcStaking : Type 0 where
  pub signer : String
  pub agent_id : ℕ
  pub staking_tx : TransactionInfo

-- `types.MsgCreateBTCBStaking`
pub record MsgCreateBtcbStaking : Type 0 where
  pub signer : String
  pub number : ℕ
  pub receipt : Bytes
  pub proof : Bytes

-- `lrzclient.Client`: the heights of the two light clients' tips, the staking record of a
-- transaction if there is one, and the two submissions.
pub record LorenzoClient : Type 0 where
  pub btc_header_chain_tip : Result ℕ
  pub bnb_latest_header : Result ℕ
  pub get_btc_staking_record : String → Result (Option Bytes)
  pub create_btc_staking_with_btc_proof : MsgCreateBtcStaking → Result (Unit {0})
  pub create_btcb_staking : MsgCreateBtcbStaking → Result (Unit {0})

-- `keeper.ParseMerkleBlock`, the hash of a merkle block's header in the node's byte order, and
-- `keeper.ParseBTCProof`.
pub record Keeper (MerkleBlock : Type 0) : Type 0 where
  pub parse_merkle_block : Bytes → Result MerkleBlock
  pub block_hash_bytes : MerkleBlock → Bytes
  pub parse_btc_proof : MerkleBlock → Result (ℕ × Bytes)
