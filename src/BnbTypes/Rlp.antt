-- ===== src/BnbTypes/Rlp.antt =====
-- bnbclient/bnbtypes/gen_header_rlp.go: the items of a header's encoding, and block.go: its hash.
pub mod Layout
use lorenzo_btcstaking_submi.Base.{
  ℕ, Bool, true, false, ◌||◌, if◌then◌else◌, String, Option, none, some, List, [], ◌∷◌, ◌++◌, Bytes,
  Error, message, Result, ok, err, ◌>>=◌,
}
use lorenzo_btcstaking_submi.BnbTypes.Header.{ℤ, pos, negsuc, Header}

-- What is written to `rlp.EncoderBuffer` between `List` and `ListEnd`.
pub data Item : Type 0 where
  write_bytes : Bytes → Item
  write_big_int : ℕ → Item
  write_uint64 : ℕ → Item
  write_empty_string : Item
  write_raw : Bytes → Item

-- `rlp.ErrNegativeBigInt`
abbrev pub err_negative_big_int : Error
err_negative_big_int = message "rlp: cannot encode negative big.Int"

write_big : Option ℤ → Result (List Item)
write_big none = ok (write_empty_string ∷ [])
write_big (some (pos n)) = ok (write_big_int n ∷ [])
write_big (some (negsuc n)) = err err_negative_big_int

write_hash : Option Bytes → Item
write_hash none = write_raw (128 ∷ [])
write_hash (some hash) = write_bytes hash

write_number : Option ℕ → Item
write_number none = write_raw (128 ∷ [])
write_number (some n) = write_uint64 n

-- The pointer is not nil.
abbrev pub is_there {ℓ} : {A : Type ℓ} → Option A → Bool
is_there none = false
is_there (some a) = true

-- `EncodeRLP`, up to `Flush`.
unfoldable pub encode_rlp : Header → Result (List Item)
unfolding write_big write_hash write_number
encode_rlp h =
    let tmp1 = is_there h.base_fee in
    let tmp2 = is_there h.withdrawals_hash in
    let tmp3 = is_there h.blob_gas_used in
    let tmp4 = is_there h.excess_blob_gas in
    let tmp5 = is_there h.parent_beacon_root in
    do
      difficulty ← write_big h.difficulty
      number ← write_big h.number
      base_fee ← if tmp1 || tmp2 || tmp3 || tmp4 || tmp5 then write_big h.base_fee else ok []
      ok (
          (write_bytes h.parent_hash
            ∷ write_bytes h.uncle_hash
            ∷ write_bytes h.coinbase
            ∷ write_bytes h.root
            ∷ write_bytes h.tx_hash
            ∷ write_bytes h.receipt_hash
            ∷ write_bytes h.bloom
            ∷ [])
          ++ difficulty
          ++ number
          ++ (write_uint64 h.gas_limit
              ∷ write_uint64 h.gas_used
              ∷ write_uint64 h.time
              ∷ write_bytes h.extra
              ∷ write_bytes h.mix_digest
              ∷ write_bytes h.nonce
              ∷ [])
          ++ base_fee
          ++ (if tmp2 || tmp3 || tmp4 || tmp5 then write_hash h.withdrawals_hash ∷ [] else [])
          ++ (if tmp3 || tmp4 || tmp5 then write_number h.blob_gas_used ∷ [] else [])
          ++ (if tmp4 || tmp5 then write_number h.excess_blob_gas ∷ [] else [])
          ++ (if tmp5 then write_hash h.parent_beacon_root ∷ [] else []))

-- `Hash`, whose `rlpHash` drops the error of `rlp.Encode`. `digest` is the digest of what that call
-- writes, of a list's items or of nothing.
unfoldable pub hash : (Option (List Item) → String) → Header → String
unfolding encode_rlp
hash digest h = elim (encode_rlp h) [ ok items ↦ digest (some items) | err _ ↦ digest none ]
