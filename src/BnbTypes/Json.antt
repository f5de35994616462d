-- ===== src/BnbTypes/Json.antt =====
-- bnbclient/bnbtypes/gen_header_json.go: a header in JSON. `json.Marshal` and `json.Unmarshal` of
-- the two local structs are an interface.
pub mod Fields
pub mod Assigned
pub mod RoundTrip
use lorenzo_btcstaking_submi.Base.{
  ℕ, String, ◌<>◌, Option, none, some, List, [], ◌∷◌, Bytes, Error, message, Result, ok, err,
}
use lorenzo_btcstaking_submi.BnbTypes.Header.{ℤ, Header}

-- The struct of `MarshalJSON`: the header's fields and its hash.
pub record Encoded : Type 0 where
  pub header : Header
  pub hash : String

-- The struct of `UnmarshalJSON`, whose fields are nil where the input has none.
pub record Decoded : Type 0 where
  pub parent_hash : Option Bytes
  pub uncle_hash : Option Bytes
  pub coinbase : Option Bytes
  pub root : Option Bytes
  pub tx_hash : Option Bytes
  pub receipt_hash : Option Bytes
  pub bloom : Option Bytes
  pub difficulty : Option ℤ
  pub number : Option ℤ
  pub gas_limit : Option ℕ
  pub gas_used : Option ℕ
  pub time : Option ℕ
  pub extra : Option Bytes
  pub mix_digest : Option Bytes
  pub nonce : Option Bytes
  pub base_fee : Option ℤ
  pub withdrawals_hash : Option Bytes
  pub blob_gas_used : Option ℕ
  pub excess_blob_gas : Option ℕ
  pub parent_beacon_root : Option Bytes

pub record Json (Text : Type 0) : Type 0 where
  pub marshal : Encoded → Result Text
  pub unmarshal : Text → Result Decoded

module _ {Text : Type 0} (json : Json Text) where
  -- `MarshalJSON`; `hash` is `Header.Hash`.
  unfoldable pub marshal_json : (Header → String) → Header → Result Text
  marshal_json hash h = json.marshal (record {
    header = record {
      parent_hash = h.parent_hash;
      uncle_hash = h.uncle_hash;
      coinbase = h.coinbase;
      root = h.root;
      tx_hash = h.tx_hash;
      receipt_hash = h.receipt_hash;
      bloom = h.bloom;
      difficulty = h.difficulty;
      number = h.number;
      gas_limit = h.gas_limit;
      gas_used = h.gas_used;
      time = h.time;
      extra = h.extra;
      mix_digest = h.mix_digest;
      nonce = h.nonce;
      base_fee = h.base_fee;
      withdrawals_hash = h.withdrawals_hash;
      blob_gas_used = h.blob_gas_used;
      excess_blob_gas = h.excess_blob_gas;
      parent_beacon_root = h.parent_beacon_root;
    };
    hash = hash h;
  })

-- One field of the decoded struct: its name, if it is required and nil, and its assignment.
pub record Field : Type 0 where
  pub missing : Option String
  pub assign : Header → Header

-- `if dec.F == nil { return errors.New(...) }` and `h.F = *dec.F`.
abbrev pub required : {A : Type 0} → String → Option A → (A → Header → Header) → Field
required name none put = record { missing = some name; assign = λ h. h }
required name (some a) put = record { missing = none; assign = put a }

-- `if dec.F != nil { h.F = *dec.F }`
abbrev pub optional : {A : Type 0} → Option A → (A → Header → Header) → Field
optional none put = record { missing = none; assign = λ h. h }
optional (some a) put = record { missing = none; assign = put a }

abbrev pub missing_required_field : String → Error
missing_required_field name = message ("missing required field '" <> name <> "' for Header")

-- The fields in turn, with the header as it is when one is missing.
pub assign_fields : List Field → Header → Header × Option Error
assign_fields [] h = (h, none)
assign_fields (f ∷ fields) h = elim f.missing [
  | some name ↦ (h, some (missing_required_field name))
  | none ↦ assign_fields fields (f.assign h)
]

-- The fields in the order of `UnmarshalJSON`.
pub fields_of : Decoded → List Field
fields_of dec =
    required "parentHash" dec.parent_hash (λ a h. record h { parent_hash = a })
    ∷ required "sha3Uncles" dec.uncle_hash (λ a h. record h { uncle_hash = a })
    ∷ optional dec.coinbase (λ a h. record h { coinbase = a })
    ∷ required "stateRoot" dec.root (λ a h. record h { root = a })
    ∷ required "transactionsRoot" dec.tx_hash (λ a h. record h { tx_hash = a })
    ∷ required "receiptsRoot" dec.receipt_hash (λ a h. record h { receipt_hash = a })
    ∷ required "logsBloom" dec.bloom (λ a h. record h { bloom = a })
    ∷ required "difficulty" dec.difficulty (λ a h. record h { difficulty = some a })
    ∷ required "number" dec.number (λ a h. record h { number = some a })
    ∷ required "gasLimit" dec.gas_limit (λ a h. record h { gas_limit = a })
    ∷ required "gasUsed" dec.gas_used (λ a h. record h { gas_used = a })
    ∷ required "timestamp" dec.time (λ a h. record h { time = a })
    ∷ required "extraData" dec.extra (λ a h. record h { extra = a })
    ∷ optional dec.mix_digest (λ a h. record h { mix_digest = a })
    ∷ optional dec.nonce (λ a h. record h { nonce = a })
    ∷ optional dec.base_fee (λ a h. record h { base_fee = some a })
    ∷ optional dec.withdrawals_hash (λ a h. record h { withdrawals_hash = some a })
    ∷ optional dec.blob_gas_used (λ a h. record h { blob_gas_used = some a })
    ∷ optional dec.excess_blob_gas (λ a h. record h { excess_blob_gas = some a })
    ∷ optional dec.parent_beacon_root (λ a h. record h { parent_beacon_root = some a })
    ∷ []

module _ {Text : Type 0} (json : Json Text) where
  -- `UnmarshalJSON`: the receiver after the call, and the error.
  unfoldable pub unmarshal_json : Text → Header → Header × Option Error
  unfolding assign_fields fields_of
  unmarshal_json input h = elim (json.unmarshal input) [
    | err e ↦ (h, some e)
    | ok dec ↦ assign_fields (fields_of dec) h
  ]
