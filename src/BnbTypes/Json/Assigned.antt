-- ===== src/BnbTypes/Json/Assigned.antt =====
-- The assignments of the decoder, without its checks.
use lorenzo_btcstaking_submi.Base.{
  ◌≡◌, refl, inl, inr, none, some, List, [], ◌∷◌, arith, Option-cases,
}
use lorenzo_btcstaking_submi.BnbTypes.Header.{Header}
use lorenzo_btcstaking_submi.BnbTypes.Json.{Decoded, Field, required, optional, assign_fields}
use lorenzo_btcstaking_submi.BnbTypes.Json.Fields.{or_else, or_kept, first_missing}

-- All assignments, one after the other.
unfoldable pub assign_all : List Field → Header → Header
assign_all [] h = h
assign_all (f ∷ fields) h = assign_all fields (f.assign h)

pub assign_fields-all :
    (fields : List Field) (h : Header)
    → first_missing fields ≡ none
    → assign_fields fields h ≡ (assign_all fields h, none)
unfolding assign_fields first_missing assign_all
assign_fields-all [] h e = refl
assign_fields-all (f ∷ fields) h e = elim (Option-cases f.missing) [
  | inl free ↦ rw free (assign_fields-all fields (f.assign h) (ground arith))
  | inr (name, lacks) ↦ absurd (ground arith)
]

-- The hashes, the beneficiary and the bloom filter.
abbrev pub hash_fields : Decoded → List Field
hash_fields dec =
    required "parentHash" dec.parent_hash (λ a h. record h { parent_hash = a })
    ∷ required "sha3Uncles" dec.uncle_hash (λ a h. record h { uncle_hash = a })
    ∷ optional dec.coinbase (λ a h. record h { coinbase = a })
    ∷ required "stateRoot" dec.root (λ a h. record h { root = a })
    ∷ required "transactionsRoot" dec.tx_hash (λ a h. record h { tx_hash = a })
    ∷ required "receiptsRoot" dec.receipt_hash (λ a h. record h { receipt_hash = a })
    ∷ required "logsBloom" dec.bloom (λ a h. record h { bloom = a })
    ∷ []

pub hash-merged :
    (dec : Decoded) (h : Header)
    → assign_all (hash_fields dec) h ≡ record h {
      parent_hash = or_else dec.parent_hash h.parent_hash;
      uncle_hash = or_else dec.uncle_hash h.uncle_hash;
      coinbase = or_else dec.coinbase h.coinbase;
      root = or_else dec.root h.root;
      tx_hash = or_else dec.tx_hash h.tx_hash;
      receipt_hash = or_else dec.receipt_hash h.receipt_hash;
      bloom = or_else dec.bloom h.bloom;
    }
unfolding assign_all
hash-merged dec h = ground arith

-- The numbers, the data and the seal.
abbrev pub number_fields : Decoded → List Field
number_fields dec =
    required "difficulty" dec.difficulty (λ a h. record h { difficulty = some a })
    ∷ required "number" dec.number (λ a h. record h { number = some a })
    ∷ required "gasLimit" dec.gas_limit (λ a h. record h { gas_limit = a })
    ∷ required "gasUsed" dec.gas_used (λ a h. record h { gas_used = a })
    ∷ required "timestamp" dec.time (λ a h. record h { time = a })
    ∷ required "extraData" dec.extra (λ a h. record h { extra = a })
    ∷ optional dec.mix_digest (λ a h. record h { mix_digest = a })
    ∷ optional dec.nonce (λ a h. record h { nonce = a })
    ∷ []

pub number-merged :
    (dec : Decoded) (h : Header)
    → assign_all (number_fields dec) h ≡ record h {
      difficulty = or_kept dec.difficulty h.difficulty;
      number = or_kept dec.number h.number;
      gas_limit = or_else dec.gas_limit h.gas_limit;
      gas_used = or_else dec.gas_used h.gas_used;
      time = or_else dec.time h.time;
      extra = or_else dec.extra h.extra;
      mix_digest = or_else dec.mix_digest h.mix_digest;
      nonce = or_else dec.nonce h.nonce;
    }
unfolding assign_all
number-merged dec h = ground arith

-- The fields that later upgrades added.
abbrev pub late_fields : Decoded → List Field
late_fields dec =
    optional dec.base_fee (λ a h. record h { base_fee = some a })
    ∷ optional dec.withdrawals_hash (λ a h. record h { withdrawals_hash = some a })
    ∷ optional dec.blob_gas_used (λ a h. record h { blob_gas_used = some a })
    ∷ optional dec.excess_blob_gas (λ a h. record h { excess_blob_gas = some a })
    ∷ optional dec.parent_beacon_root (λ a h. record h { parent_beacon_root = some a })
    ∷ []

pub late-merged :
    (dec : Decoded) (h : Header)
    → assign_all (late_fields dec) h ≡ record h {
      base_fee = or_kept dec.base_fee h.base_fee;
      withdrawals_hash = or_kept dec.withdrawals_hash h.withdrawals_hash;
      blob_gas_used = or_kept dec.blob_gas_used h.blob_gas_used;
      excess_blob_gas = or_kept dec.excess_blob_gas h.excess_blob_gas;
      parent_beacon_root = or_kept dec.parent_beacon_root h.parent_beacon_root;
    }
unfolding assign_all
late-merged dec h = ground arith
