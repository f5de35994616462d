-- ===== src/BnbTypes/Json/RoundTrip.antt =====
-- The decoder of a header against its required fields, and against the encoder.
use mathlib.Core.Option.{map as map_option}
use lorenzo_btcstaking_submi.Base.{
  ℕ, ◌^◌, ◌≡◌, refl, ◌∙◌, ap, ◌⊎◌, inl, inr, String, ◌<◌, Option, none, some, [], arith, ok,
  Option-cases,
}
use lorenzo_btcstaking_submi.BnbTypes.Header.{ℤ, pos, Header}
use lorenzo_btcstaking_submi.BnbTypes.Json.{
  Encoded, Decoded, Json, missing_required_field, assign_fields, fields_of, marshal_json,
  unmarshal_json,
}
use lorenzo_btcstaking_submi.BnbTypes.Json.Fields.{
  or_kept, requirements, first_absent, merged, first_missing, assign_fields-missing,
  first_missing-required, first_missing-optional,
}
use lorenzo_btcstaking_submi.BnbTypes.Json.Assigned.{
  assign_all, assign_fields-all, hash-merged, number_fields, number-merged, late_fields,
  late-merged,
}

-- What `hexutil.Big` reads has 256 bits at most.
abbrev pub big_limit : ℕ
big_limit = 2 ^ 256

late_fields-missing : (dec : Decoded) → first_missing (late_fields dec) ≡ first_absent []
unfolding first_missing first_absent
late_fields-missing dec = ground arith

fields_of-missing :
    (dec : Decoded) → first_missing (fields_of dec) ≡ first_absent (requirements dec)
unfolding fields_of requirements
fields_of-missing dec = first_missing-required "parentHash" dec.parent_hash _ _ _ (
    first_missing-required "sha3Uncles" dec.uncle_hash _ _ _ (
      first_missing-optional dec.coinbase _ _
      ∙ (first_missing-required "stateRoot" dec.root _ _ _ (
          first_missing-required "transactionsRoot" dec.tx_hash _ _ _ (
            first_missing-required "receiptsRoot" dec.receipt_hash _ _ _ (
              first_missing-required "logsBloom" dec.bloom _ _ _ (
                first_missing-required "difficulty" dec.difficulty _ _ _ (
                  first_missing-required "number" dec.number _ _ _ (
                    first_missing-required "gasLimit" dec.gas_limit _ _ _ (
                      first_missing-required "gasUsed" dec.gas_used _ _ _ (
                        first_missing-required "timestamp" dec.time _ _ _ (
                          first_missing-required "extraData" dec.extra _ _ _ (
                            first_missing-optional dec.mix_digest _ _
                            ∙ (first_missing-optional dec.nonce _ _
                                ∙ late_fields-missing dec))))))))))))))

fields_of-merged : (dec : Decoded) (h : Header) → assign_all (fields_of dec) h ≡ merged dec h
unfolding fields_of assign_all merged
fields_of-merged dec h =
    ap (λ g. assign_all (late_fields dec) (assign_all (number_fields dec) g)) (hash-merged dec h)
    ∙ ap (assign_all (late_fields dec)) (number-merged dec _)
    ∙ late-merged dec _

accepted :
    (dec : Decoded) (h : Header)
    → first_absent (requirements dec) ≡ none
    → assign_fields (fields_of dec) h ≡ (merged dec h, none)
accepted dec h full =
    assign_fields-all (fields_of dec) h (fields_of-missing dec ∙ full)
    ∙ ap (λ g. (g, none)) (fields_of-merged dec h)

-- The pointers of an encoded header.
unfoldable pub pointers_of : Header → Decoded
pointers_of h = record {
  parent_hash = some h.parent_hash;
  uncle_hash = some h.uncle_hash;
  coinbase = some h.coinbase;
  root = some h.root;
  tx_hash = some h.tx_hash;
  receipt_hash = some h.receipt_hash;
  bloom = some h.bloom;
  difficulty = h.difficulty;
  number = h.number;
  gas_limit = some h.gas_limit;
  gas_used = some h.gas_used;
  time = some h.time;
  extra = some h.extra;
  mix_digest = some h.mix_digest;
  nonce = some h.nonce;
  base_fee = h.base_fee;
  withdrawals_hash = h.withdrawals_hash;
  blob_gas_used = h.blob_gas_used;
  excess_blob_gas = h.excess_blob_gas;
  parent_beacon_root = h.parent_beacon_root;
}

-- The number is nil, or `hexutil.Big` reads it: it writes negative numbers and numbers of more than
-- 256 bits too, and reads neither.
abbrev pub IsReadable : Option ℤ → Type 0
IsReadable o = (o ≡ none) ⊎ ((n : ℕ) × (o ≡ some (pos n)) × (n < big_limit))

-- Decoding gives back what was encoded; a nil pointer is encoded as null, which leaves a nil
-- pointer.
pub record IsInverse {Text : Type 0} (json : Json Text) : Type 0 where
  pub decode_encode :
      (e : Encoded) (text : Text)
      → IsReadable e.header.difficulty
      → IsReadable e.header.number
      → IsReadable e.header.base_fee
      → json.marshal e ≡ ok text
      → json.unmarshal text ≡ ok (pointers_of e.header)

full_header :
    (h : Header) (difficulty number : ℕ)
    → h.difficulty ≡ some (pos difficulty)
    → h.number ≡ some (pos number)
    → first_absent (requirements (pointers_of h)) ≡ none
unfolding first_absent requirements pointers_of
full_header h difficulty number d n = rw (d, n) refl

or_kept-none {ℓ} : {A : Type ℓ} (o : Option A) → or_kept o none ≡ o
or_kept-none none = refl
or_kept-none (some a) = refl

merged-pointers_of :
    (h fresh : Header) (difficulty number : ℕ)
    → h.difficulty ≡ some (pos difficulty)
    → h.number ≡ some (pos number)
    → (fresh.base_fee ≡ none)
      × (fresh.withdrawals_hash ≡ none)
      × (fresh.blob_gas_used ≡ none)
      × (fresh.excess_blob_gas ≡ none)
      × (fresh.parent_beacon_root ≡ none)
    → merged (pointers_of h) fresh ≡ h
unfolding merged pointers_of
merged-pointers_of h fresh difficulty number d n (e1, e2, e3, e4, e5) =
    ground (arith, e1, e2, e3, e4, e5, or_kept-none h.base_fee)

module _ {Text : Type 0} (json : Json Text) where
  unmarshal_json-fields :
      (input : Text) (dec : Decoded) (h : Header)
      → json.unmarshal input ≡ ok dec
      → unmarshal_json json input h ≡ assign_fields (fields_of dec) h
  unfolding unmarshal_json
  unmarshal_json-fields input dec h read = rw (unmarshal_json, read) refl

  -- When the codec decodes an input: either the input has every required field, and the receiver
  -- gets every field that the input has, keeps the others, and there is no error; or the error
  -- names the first required field that is missing.
  pub unmarshal_json-Requires :
      (input : Text) (dec : Decoded) (h : Header)
      → json.unmarshal input ≡ ok dec
      → ((first_absent (requirements dec) ≡ none)
          × (unmarshal_json json input h ≡ (merged dec h, none)))
        ⊎ ((name : String) × (first_absent (requirements dec) ≡ some name)
            × ((unmarshal_json json input h).1 ≡ some (missing_required_field name)))
  unmarshal_json-Requires input dec h read = elim (Option-cases (first_absent (requirements dec))) [
    | inl full ↦ inl (full, unmarshal_json-fields input dec h read ∙ accepted dec h full)
    | inr (name, lacks) ↦ inr (
      name,
      lacks,
      ap (λ r. r.1) (unmarshal_json-fields input dec h read)
          ∙ assign_fields-missing (fields_of dec) h
          ∙ ap (map_option missing_required_field) (fields_of-missing dec ∙ lacks),
    )
  ]

  -- Where the JSON codec gives back the structs that it encodes whose big numbers are nil or have
  -- from 0 up to 256 bits, decoding an encoded header into a header whose pointers for the later
  -- upgrades are nil gives the header and no error, if its difficulty and number are there, not
  -- negative and below 2^256, and its base fee is nil or so too.
  pub unmarshal_json-marshal_json :
      (hash : Header → String) (h fresh : Header) (text : Text) (difficulty number : ℕ)
      → IsInverse json
      → h.difficulty ≡ some (pos difficulty)
      → h.number ≡ some (pos number)
      → difficulty < big_limit
      → number < big_limit
      → IsReadable h.base_fee
      → (fresh.base_fee ≡ none)
        × (fresh.withdrawals_hash ≡ none)
        × (fresh.blob_gas_used ≡ none)
        × (fresh.excess_blob_gas ≡ none)
        × (fresh.parent_beacon_root ≡ none)
      → marshal_json json hash h ≡ ok text
      → unmarshal_json json text fresh ≡ (h, none)
  unfolding marshal_json
  unmarshal_json-marshal_json hash h fresh text difficulty number inverse d n d_fits n_fits b unset
        written =
      let read =
        inverse.decode_encode (record { header = h; hash = hash h }) text
          (inr (difficulty, d, d_fits)) (inr (number, n, n_fits)) b written in
      unmarshal_json-fields text (pointers_of h) fresh read
      ∙ accepted (pointers_of h) fresh (full_header h difficulty number d n)
      ∙ ap (λ g. (g, none)) (merged-pointers_of h fresh difficulty number d n unset)
