-- ===== src/BnbTypes/Rlp/Layout.antt =====
-- The encoding against the rule for optional fields: those after the last one that is set are left
-- out, and a blank stands for one before it.
use lorenzo_btcstaking_submi.Base.{
  ℕ, ◌≡◌, refl, Bool, true, false, ◌||◌, if◌then◌else◌, Option, none, some, List, [], ◌∷◌, Bytes,
  arith, some_of, ok, err,
}
use lorenzo_btcstaking_submi.BnbTypes.Header.{ℤ, pos, negsuc, Header, is_negative}
use lorenzo_btcstaking_submi.BnbTypes.Rlp.{
  Item, write_bytes, write_big_int, write_uint64, write_empty_string, write_raw,
  err_negative_big_int, is_there, write_big, write_hash, write_number, encode_rlp,
}

-- A field that may be absent: whether it is set, and its item, a blank if it is not.
pub record Slot : Type 0 where
  pub is_set : Bool
  pub item : Item

-- The number's size is only asked for one that is not negative.
big_slot : Option ℤ → Slot
big_slot none = record { is_set = false; item = write_empty_string }
big_slot (some (pos n)) = record { is_set = true; item = write_big_int n }
big_slot (some (negsuc n)) = record { is_set = true; item = write_empty_string }

hash_slot : Option Bytes → Slot
hash_slot none = record { is_set = false; item = write_raw (128 ∷ []) }
hash_slot (some hash) = record { is_set = true; item = write_bytes hash }

number_slot : Option ℕ → Slot
number_slot none = record { is_set = false; item = write_raw (128 ∷ []) }
number_slot (some n) = record { is_set = true; item = write_uint64 n }

-- The items of the slots, without those of the slots at the end that are not set.
trimmed : List Slot → List Item
trimmed [] = []
trimmed (s ∷ slots) = if some_of (λ t. t.is_set) (s ∷ slots) then s.item ∷ trimmed slots else []

-- The items of a header.
unfoldable pub layout : Header → List Item
unfolding big_slot hash_slot number_slot trimmed
layout h =
    (write_bytes h.parent_hash
      ∷ write_bytes h.uncle_hash
      ∷ write_bytes h.coinbase
      ∷ write_bytes h.root
      ∷ write_bytes h.tx_hash
      ∷ write_bytes h.receipt_hash
      ∷ write_bytes h.bloom
      ∷ (big_slot h.difficulty).item
      ∷ (big_slot h.number).item
      ∷ write_uint64 h.gas_limit
      ∷ write_uint64 h.gas_used
      ∷ write_uint64 h.time
      ∷ write_bytes h.extra
      ∷ write_bytes h.mix_digest
      ∷ write_bytes h.nonce
      ∷ trimmed (
          big_slot h.base_fee
          ∷ hash_slot h.withdrawals_hash
          ∷ number_slot h.blob_gas_used
          ∷ number_slot h.excess_blob_gas
          ∷ hash_slot h.parent_beacon_root
          ∷ []))

write_big-slot :
    (n : Option ℤ)
    → write_big n
      ≡ (if is_negative n then err err_negative_big_int else ok ((big_slot n).item ∷ []))
unfolding write_big big_slot
write_big-slot none = refl
write_big-slot (some (pos n)) = refl
write_big-slot (some (negsuc n)) = refl

big-is_set : (n : Option ℤ) → (big_slot n).is_set ≡ is_there n
unfolding big_slot
big-is_set none = refl
big-is_set (some (pos n)) = refl
big-is_set (some (negsuc n)) = refl

hash-slot :
    (h : Option Bytes) → ((hash_slot h).is_set ≡ is_there h) × ((hash_slot h).item ≡ write_hash h)
unfolding hash_slot write_hash
hash-slot none = (refl, refl)
hash-slot (some h) = (refl, refl)

number-slot :
    (n : Option ℕ) → ((number_slot n).is_set ≡ is_there n) × ((number_slot n).item ≡ write_number n)
unfolding number_slot write_number
number-slot none = (refl, refl)
number-slot (some n) = (refl, refl)

-- The encoding of a header fails if its difficulty, number or base fee is negative, and otherwise
-- has the fifteen mandatory items and then those of the five optional fields, without the ones
-- after the last field that is set, and with a blank for each unset field before it.
pub encode_rlp-layout :
    (h : Header)
    → encode_rlp h ≡ (
        if is_negative h.difficulty || is_negative h.number || is_negative h.base_fee
        then err err_negative_big_int
        else ok (layout h))
unfolding encode_rlp layout trimmed
encode_rlp-layout h = ground (
  arith,
  write_big-slot h.difficulty,
  write_big-slot h.number,
  write_big-slot h.base_fee,
  big-is_set h.base_fee,
  hash-slot h.withdrawals_hash,
  number-slot h.blob_gas_used,
  number-slot h.excess_blob_gas,
  hash-slot h.parent_beacon_root,
)
