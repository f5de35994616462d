-- ===== src/TxRelayer/Bnb.antt =====
-- txrelayer/bnb_txrelayer.go: the relayer of the BNB Smart Chain, and the rows that it makes of
-- receipts. The client of the chain is an interface here.
pub mod Scan
pub mod Submit
pub mod Steps
use lorenzo_btcstaking_submi.Base.{
  ℕ, String, Option, List, [], ◌∷◌, Bytes, ◌≡◌, ◌>>=◌, Error, Result, ok,
}
use lorenzo_btcstaking_submi.Db.Types.{WrappedBtcDepositTx, status_pending}

abbrev pub batch_plan_stake_block_size_fetch : ℕ
batch_plan_stake_block_size_fetch = 1000

abbrev pub default_delay_blocks : ℕ
default_delay_blocks = 15

-- What the relayer reads of a receipt: `TxHash.Hex()`, `BlockNumber.Uint64()` and `BlockHash.Hex()`,
-- and the receipt itself.
pub record Receipt (Body : Type 0) : Type 0 where
  pub tx_hash : String
  pub block_number : ℕ
  pub block_hash : String
  pub body : Body

pub record ReceiptWithProof (Body Proof : Type 0) : Type 0 where
  pub block_time : ℕ
  pub receipt : Receipt Body
  pub proof : Proof

-- `rlp.EncodeToBytes` of a receipt and of a proof, `hexutil.Encode` and `hexutil.Decode`.
pub record Encoding (Body Proof : Type 0) : Type 0 where
  pub encode_receipt : Receipt Body → Result Bytes
  pub encode_proof : Proof → Result Bytes
  pub hex_encode : Bytes → String
  pub hex_decode : String → Result Bytes

-- Decoding gives back what was encoded.
pub record IsInverse {Body Proof : Type 0} (encoding : Encoding Body Proof) : Type 0 where
  pub decode_encode : (bytes : Bytes) → encoding.hex_decode (encoding.hex_encode bytes) ≡ ok bytes

-- `GetStakeBTC2JoinStakePlanReceiptsWithProof` and `BlockNumber`, whose number is used whether or
-- not there is an error.
pub record BnbClient (Body Proof : Type 0) : Type 0 where
  pub block_number : ℕ × Option Error
  pub receipts_with_proof : String → ℕ → ℕ → Result (List (ReceiptWithProof Body Proof))

-- The fields of `BNBTxRelayer` that its loops read and never change.
pub record BnbRelayer : Type 0 where
  pub chain_name : String
  pub delay_blocks : ℕ
  pub plan_stake_hub_address : String
  pub submitter : String

module _ {Body Proof : Type 0} (encoding : Encoding Body Proof) (r : BnbRelayer) where
  pub wrapped_of : ReceiptWithProof Body Proof → Bytes → Bytes → WrappedBtcDepositTx
  wrapped_of found receipt_raw proof_raw = record {
    chain = r.chain_name;
    txid = found.receipt.tx_hash;
    height = found.receipt.block_number;
    block_hash = found.receipt.block_hash;
    block_time = found.block_time;
    receipt = encoding.hex_encode receipt_raw;
    proof = encoding.hex_encode proof_raw;
    status = status_pending;
  }

  -- `ReceiptWithProofList2WrappedBTCDepositTxList`
  unfoldable pub to_wrapped_list :
      List (ReceiptWithProof Body Proof) → Result (List WrappedBtcDepositTx)
  unfolding wrapped_of
  to_wrapped_list [] = ok []
  to_wrapped_list (found ∷ list) = do
    receipt_raw ← encoding.encode_receipt found.receipt
    proof_raw ← encoding.encode_proof found.proof
    rest ← to_wrapped_list list
    ok (wrapped_of found receipt_raw proof_raw ∷ rest)
