-- ===== src/BnbTypes/Json/Fields.antt =====
-- What the decoder asks of its input, and what it makes of it.
use mathlib.Core.Option.{map as map_option}
use lorenzo_btcstaking_submi.Base.{
  ◌≡◌, refl, inl, inr, Bool, true, false, String, Option, none, some, List, [], ◌∷◌, Option-cases,
}
use lorenzo_btcstaking_submi.BnbTypes.Header.{Header}
use lorenzo_btcstaking_submi.BnbTypes.Json.{
  Decoded, Field, required, optional, missing_required_field, assign_fields,
}

-- A field's value, or the one that was there.
abbrev pub or_else {ℓ} : {A : Type ℓ} → Option A → A → A
or_else none b = b
or_else (some a) b = a

-- A pointer that is not nil replaces the one that was there.
abbrev pub or_kept {ℓ} : {A : Type ℓ} → Option A → Option A → Option A
or_kept none b = b
or_kept (some a) b = some a

-- The required field is absent.
abbrev pub absent : {A : Type 0} → Option A → Bool
absent none = true
absent (some a) = false

-- The names of the required fields, and whether the input lacks them.
unfoldable pub requirements : Decoded → List (String × Bool)
requirements dec =
    ("parentHash", absent dec.parent_hash)
    ∷ ("sha3Uncles", absent dec.uncle_hash)
    ∷ ("stateRoot", absent dec.root)
    ∷ ("transactionsRoot", absent dec.tx_hash)
    ∷ ("receiptsRoot", absent dec.receipt_hash)
    ∷ ("logsBloom", absent dec.bloom)
    ∷ ("difficulty", absent dec.difficulty)
    ∷ ("number", absent dec.number)
    ∷ ("gasLimit", absent dec.gas_limit)
    ∷ ("gasUsed", absent dec.gas_used)
    ∷ ("timestamp", absent dec.time)
    ∷ ("extraData", absent dec.extra)
    ∷ []

-- The first that is lacking.
unfoldable pub first_absent : List (String × Bool) → Option String
first_absent [] = none
first_absent ((name, true) ∷ rest) = some name
first_absent ((name, false) ∷ rest) = first_absent rest

-- The header with what the input has.
unfoldable pub merged : Decoded → Header → Header
merged dec h = record {
  parent_hash = or_else dec.parent_hash h.parent_hash;
  uncle_hash = or_else dec.uncle_hash h.uncle_hash;
  coinbase = or_else dec.coinbase h.coinbase;
  root = or_else dec.root h.root;
  tx_hash = or_else dec.tx_hash h.tx_hash;
  receipt_hash = or_else dec.receipt_hash h.receipt_hash;
  bloom = or_else dec.bloom h.bloom;
  difficulty = or_kept dec.difficulty h.difficulty;
  number = or_kept dec.number h.number;
  gas_limit = or_else dec.gas_limit h.gas_limit;
  gas_used = or_else dec.gas_used h.gas_used;
  time = or_else dec.time h.time;
  extra = or_else dec.extra h.extra;
  mix_digest = or_else dec.mix_digest h.mix_digest;
  nonce = or_else dec.nonce h.nonce;
  base_fee = or_kept dec.base_fee h.base_fee;
  withdrawals_hash = or_kept dec.withdrawals_hash h.withdrawals_hash;
  blob_gas_used = or_kept dec.blob_gas_used h.blob_gas_used;
  excess_blob_gas = or_kept dec.excess_blob_gas h.excess_blob_gas;
  parent_beacon_root = or_kept dec.parent_beacon_root h.parent_beacon_root;
}

-- The first field that is missing.
unfoldable pub first_missing : List Field → Option String
first_missing [] = none
first_missing (f ∷ fields) = elim f.missing [ some name ↦ some name | none ↦ first_missing fields ]

pub assign_fields-missing :
    (fields : List Field) (h : Header)
    → (assign_fields fields h).1 ≡ map_option missing_required_field (first_missing fields)
unfolding assign_fields first_missing
assign_fields-missing [] h = refl
assign_fields-missing (f ∷ fields) h = elim (Option-cases f.missing) [
  | inl e ↦ rw e (assign_fields-missing fields (f.assign h))
  | inr (name, e) ↦ rw e refl
]

-- A required field that is not missing is there, and the fields after it come next.
pub first_missing-required :
    {A : Type 0} (name : String) (o : Option A) (put : A → Header → Header) (fields : List Field)
    (rest : List (String × Bool))
    → first_missing fields ≡ first_absent rest
    → first_missing (required name o put ∷ fields) ≡ first_absent ((name, absent o) ∷ rest)
unfolding first_missing first_absent
first_missing-required name none put fields rest e = refl
first_missing-required name (some a) put fields rest e = e

pub first_missing-optional :
    {A : Type 0} (o : Option A) (put : A → Header → Header) (fields : List Field)
    → first_missing (optional o put ∷ fields) ≡ first_missing fields
unfolding first_missing
first_missing-optional none put fields = refl
first_missing-optional (some a) put fields = refl
