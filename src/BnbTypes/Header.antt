-- ===== src/BnbTypes/Header.antt =====
-- bnbclient/bnbtypes/block.go: the fields of a header.
use lorenzo_btcstaking_submi.Base.{ℕ, Bool, true, false, Option, none, some, Bytes}

-- `big.Int`; `negsuc n` is the number -(n + 1).
pub data ℤ : Type 0 where
  pos : ℕ → ℤ
  negsuc : ℕ → ℤ

-- A pointer is an option; hashes, addresses, the bloom filter and the nonce are their bytes.
pub record Header : Type 0 where
  pub parent_hash : Bytes
  pub uncle_hash : Bytes
  pub coinbase : Bytes
  pub root : Bytes
  pub tx_hash : Bytes
  pub receipt_hash : Bytes
  pub bloom : Bytes
  pub difficulty : Option ℤ
  pub number : Option ℤ
  pub gas_limit : ℕ
  pub gas_used : ℕ
  pub time : ℕ
  pub extra : Bytes
  pub mix_digest : Bytes
  pub nonce : Bytes
  pub base_fee : Option ℤ
  pub withdrawals_hash : Option Bytes
  pub blob_gas_used : Option ℕ
  pub excess_blob_gas : Option ℕ
  pub parent_beacon_root : Option Bytes

-- A number that is there and below zero.
abbrev pub is_negative : Option ℤ → Bool
is_negative (some (negsuc n)) = true
is_negative (some (pos n)) = false
is_negative none = false
