-- ===== src/Tests/BnbTypes.antt =====
-- A header with a base fee and a blob count, and none of the fields between them.
use lorenzo_btcstaking_submi.Base.{
  ◌≡◌, refl, sym, ap, arith, ◌⊎◌, inr, Result, ◌||◌, if◌then◌else◌, String, none, some, [], ◌∷◌, ok,
  err,
}
use lorenzo_btcstaking_submi.BnbTypes.Header.{pos, Header, is_negative}
use lorenzo_btcstaking_submi.BnbTypes.Rlp.{
  encode_rlp, err_negative_big_int, write_bytes, write_big_int, write_uint64, write_raw,
}
use lorenzo_btcstaking_submi.BnbTypes.Rlp.Layout.{layout, encode_rlp-layout}
use lorenzo_btcstaking_submi.BnbTypes.Json.{
  Encoded, Decoded, Json, unmarshal_json, marshal_json, missing_required_field,
}
use lorenzo_btcstaking_submi.BnbTypes.Json.Fields.{first_absent, requirements, merged}
use lorenzo_btcstaking_submi.BnbTypes.Json.RoundTrip.{
  pointers_of, IsInverse, unmarshal_json-Requires, unmarshal_json-marshal_json,
}

abbrev zero_header : Header
zero_header = record {
  parent_hash = 0 ∷ [];
  uncle_hash = 0 ∷ [];
  coinbase = 0 ∷ [];
  root = 0 ∷ [];
  tx_hash = 0 ∷ [];
  receipt_hash = 0 ∷ [];
  bloom = 0 ∷ [];
  difficulty = none;
  number = none;
  gas_limit = 0;
  gas_used = 0;
  time = 0;
  extra = [];
  mix_digest = 0 ∷ [];
  nonce = 0 ∷ [];
  base_fee = none;
  withdrawals_hash = none;
  blob_gas_used = none;
  excess_blob_gas = none;
  parent_beacon_root = none;
}

abbrev pub sealed : Header
sealed = record zero_header {
  difficulty = some (pos 2);
  number = some (pos 40000000);
  time = 1724000000;
  base_fee = some (pos 0);
  blob_gas_used = some 131072;
}

sealed-tail :
    layout sealed
    ≡ write_bytes (0 ∷ [])
      ∷ write_bytes (0 ∷ [])
      ∷ write_bytes (0 ∷ [])
      ∷ write_bytes (0 ∷ [])
      ∷ write_bytes (0 ∷ [])
      ∷ write_bytes (0 ∷ [])
      ∷ write_bytes (0 ∷ [])
      ∷ write_big_int 2
      ∷ write_big_int 40000000
      ∷ write_uint64 0
      ∷ write_uint64 0
      ∷ write_uint64 1724000000
      ∷ write_bytes []
      ∷ write_bytes (0 ∷ [])
      ∷ write_bytes (0 ∷ [])
      ∷ write_big_int 0
      ∷ write_raw (128 ∷ [])
      ∷ write_uint64 131072
      ∷ []
unfolding layout
sealed-tail = refl

encode_rlp-layout_example : encode_rlp sealed ≡ (
    if is_negative sealed.difficulty || is_negative sealed.number || is_negative sealed.base_fee
    then err err_negative_big_int
    else ok (layout sealed))
encode_rlp-layout_example = encode_rlp-layout sealed

-- A text is what it encodes.
abbrev json : Json Encoded
json = record { marshal = λ e. ok e; unmarshal = λ e. ok (pointers_of e.header) }

abbrev read : Result Encoded → Result Decoded
read (ok e) = ok (pointers_of e.header)
read (err e) = err e

json-IsInverse : IsInverse json
json-IsInverse = record { decode_encode = λ e text d n b written. sym (ap read written) }

abbrev text : Encoded
text = record { header = sealed; hash = "0xhash" }

sealed-written : marshal_json json (λ h. "0xhash") sealed ≡ ok text
unfolding marshal_json
sealed-written = refl

unmarshal_json-marshal_json_example : unmarshal_json json text zero_header ≡ (sealed, none)
unmarshal_json-marshal_json_example =
    unmarshal_json-marshal_json json (λ h. "0xhash") sealed zero_header text 2 40000000
      json-IsInverse refl refl (omega arith) (omega arith) (inr (0, refl, omega arith))
      (refl, refl, refl, refl, refl) sealed-written

-- The input has no number.
abbrev blank : Encoded
blank = record { header = record sealed { number = none }; hash = "0xhash" }

unmarshal_json-Requires_example :
    ((first_absent (requirements (pointers_of blank.header)) ≡ none)
      × (unmarshal_json json blank zero_header
          ≡ (merged (pointers_of blank.header) zero_header, none)))
    ⊎ ((name : String) × (first_absent (requirements (pointers_of blank.header)) ≡ some name)
        × ((unmarshal_json json blank zero_header).1 ≡ some (missing_required_field name)))
unmarshal_json-Requires_example =
    unmarshal_json-Requires json blank (pointers_of blank.header) zero_header refl
