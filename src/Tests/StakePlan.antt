-- ===== src/Tests/StakePlan.antt =====
-- A window with three events of two transactions, and caches of one place.
use mathlib.Core.List.{Mem, Nodup}
use mathlib.Core.List.Perm
use lorenzo_btcstaking_submi.Base.{
  ℕ, ◌≡◌, refl, inl, String, str_eq, eq_iff, Option, none, some, List, [], ◌∷◌, Bytes, arith, All,
  if◌then◌else◌, Result, ok, done,
}
use lorenzo_btcstaking_submi.BnbTypes.Header.{Header}
use lorenzo_btcstaking_submi.BnbClient.{Lru, IsFaithfulLru, receipts_by_block_hash}
use lorenzo_btcstaking_submi.BnbClient.Headers.{header_by_hash, Keyed}
use lorenzo_btcstaking_submi.BnbClient.StakePlan.{
  StakePlanEvent, FilterQuery, Log, Ethereum, Node, Caches, get_stake_plan_events,
  get_receipts_with_proof, block_hash_set,
}
use lorenzo_btcstaking_submi.BnbClient.StakePlan.Proofs.{
  tx_hashes, Proven, get_receipts_with_proof-Proven,
}
use lorenzo_btcstaking_submi.TxRelayer.Bnb.{Receipt, ReceiptWithProof}
use lorenzo_btcstaking_submi.Tests.BnbTypes.{sealed}

-- A cache with one place.
abbrev pub Place : Type 0 → Type 0
Place Value = Option (String × Value)

abbrev held : {Value : Type 0} → String → Place Value → Option Value
held key none = none
held key (some (k, value)) = if str_eq k key then some value else none

abbrev pub place_lru : {Value : Type 0} → Lru Value (Place Value)
place_lru = record {
  get = λ key place. (held key place, place);
  add = λ key value place. some (key, value);
}

abbrev pub Entry : Place (Option Header) → String → Option Header → Type 0
Entry place key value = place ≡ some (key, value)

held-found :
    (key : String) (value : Option Header) (place : Place (Option Header))
    → held key place ≡ some value
    → place ≡ some (key, value)
held-found key value none h = cc
held-found key value (some (k, v)) h = ground (arith, eq_iff k key)

pub place-IsFaithfulLru : IsFaithfulLru place_lru Entry
place-IsFaithfulLru = record {
  found = held-found;
  after_get = λ asked key value place h. h;
  after_add = λ new key added value place h. inl (ground arith, ground arith);
}

abbrev log : String → Log
log txhash = record {
  tx_hash = txhash;
  block_hash = "0xb";
  topics = (0 ∷ []) ∷ (1 ∷ []) ∷ (2 ∷ []) ∷ (3 ∷ []) ∷ [];
  log_data = 9 ∷ [];
}

abbrev pub ethereum : Ethereum
ethereum = record {
  parsed_abi = ok (λ bytes. ok ("0xcontract", 5, 5));
  big = λ bytes. 1;
  address = λ bytes. "0xuser";
  event_topic = 0 ∷ [];
}

abbrev pub filter_logs : FilterQuery → Result (List Log)
filter_logs query = ok (log "0xt" ∷ log "0xu" ∷ log "0xt" ∷ [])

abbrev receipt : String → ℕ → Receipt ℕ
receipt txhash index = record {
  tx_hash = txhash;
  block_number = 40000000;
  block_hash = "0xb";
  body = index;
}

abbrev pub block : List (Receipt ℕ)
block = receipt "0xs" 0 ∷ receipt "0xt" 1 ∷ receipt "0xu" 2 ∷ []

abbrev pub node : ℕ → Node ℕ
node n = record {
  block_receipts = λ hash. (some block, none);
  header = λ hash. (some sealed, none);
}

abbrev pub hash_of : Option Header → String
hash_of header = "0xb"

-- The proof of a receipt is its index.
abbrev pub gen_receipt_proof : ℕ → Bytes → List (Receipt ℕ) → Result ℕ
gen_receipt_proof index root receipts = ok index

abbrev pub empty : Caches place_lru place_lru hash_of (λ r. r.body) gen_receipt_proof
empty = record { receipts = none; headers = none }

abbrev pub filled : Caches place_lru place_lru hash_of (λ r. r.body) gen_receipt_proof
filled = record { receipts = some ("0xb", some block); headers = some ("0xb", some sealed) }

abbrev pub proof : String → ℕ → ReceiptWithProof ℕ ℕ
proof txhash index = record {
  block_time = 1724000000;
  receipt = receipt txhash index;
  proof = index;
}

pub window-run :
    get_receipts_with_proof place_lru place_lru hash_of
      (λ r. r.body)
      gen_receipt_proof
      ethereum
      filter_logs
      (λ entries. entries)
      node
      "0xhub"
      1
      1000
      empty
    ≡ done (ok (proof "0xt" 1 ∷ proof "0xu" 2 ∷ []), filled)
unfolding get_receipts_with_proof get_stake_plan_events block_hash_set header_by_hash
    receipts_by_block_hash
window-run = refl

pub empty-Keyed : Keyed place_lru hash_of Entry place-IsFaithfulLru none
empty-Keyed key value h = cc

get_receipts_with_proof-Proven_example :
    (events : List StakePlanEvent) × (get_stake_plan_events ethereum filter_logs "0xhub" 1 1000
      ≡ done (ok events))
    × All
        (λ e. Mem e.tx_hash (
          tx_hashes place_lru place_lru hash_of
            (λ r. r.body)
            gen_receipt_proof
            Entry
            place-IsFaithfulLru
            (proof "0xt" 1 ∷ proof "0xu" 2 ∷ [])))
        events
    × Nodup (
        tx_hashes place_lru place_lru hash_of
          (λ r. r.body)
          gen_receipt_proof
          Entry
          place-IsFaithfulLru
          (proof "0xt" 1 ∷ proof "0xu" 2 ∷ []))
    × All
        (Proven place_lru place_lru hash_of
          (λ r. r.body)
          gen_receipt_proof
          Entry
          place-IsFaithfulLru
          node
          events)
        (proof "0xt" 1 ∷ proof "0xu" 2 ∷ [])
    × Keyed place_lru hash_of Entry place-IsFaithfulLru filled.headers
get_receipts_with_proof-Proven_example =
    get_receipts_with_proof-Proven place_lru place_lru hash_of (λ r. r.body) gen_receipt_proof Entry
      place-IsFaithfulLru ethereum filter_logs (λ entries. entries) node "0xhub" 1 1000 empty filled
      (proof "0xt" 1 ∷ proof "0xu" 2 ∷ []) (λ entries. Perm.refl entries) empty-Keyed window-run
