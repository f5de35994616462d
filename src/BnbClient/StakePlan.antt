-- ===== src/BnbClient/StakePlan.antt =====
-- bnbclient/stake_plan.go: the receipts of the stake plan's events with their proofs.
pub mod Set
pub mod Answered
pub mod Proofs
use lorenzo_btcstaking_submi.Base.{
  ℕ, suc, String, str_eq, Option, none, some, List, [], ◌∷◌, Bytes, Error, message, Result, ok, err,
  Run, done, panicked, then_run, if◌then◌else◌,
}
use lorenzo_btcstaking_submi.BnbTypes.Header.{Header}
use lorenzo_btcstaking_submi.BnbClient.{Lru, Receipts, receipts_by_block_hash}
use lorenzo_btcstaking_submi.BnbClient.Headers.{Answer, header_by_hash}
use lorenzo_btcstaking_submi.TxRelayer.Bnb.{Receipt, ReceiptWithProof}

-- `types.Log`; addresses and the hashes of blocks and transactions are their hexadecimal texts.
pub record Log : Type 0 where
  pub tx_hash : String
  pub block_hash : String
  pub topics : List Bytes
  pub log_data : Bytes

pub record StakePlanEvent : Type 0 where
  pub tx_hash : String
  pub block_hash : String
  pub stake_index : ℕ
  pub plan_id : ℕ
  pub user : String
  pub btc_contract_address : String
  pub stake_amount : ℕ
  pub st_btc_amount : ℕ

pub record FilterQuery : Type 0 where
  pub from_block : ℕ
  pub to_block : ℕ
  pub addresses : List String
  pub topics : List (List Bytes)

-- go-ethereum: the parsed ABI of the event with its decoder of the fields that are not indexed,
-- `Hash.Big`, `BytesToAddress` of a topic, and the Keccak hash of the event's signature.
pub record Ethereum : Type 0 where
  pub parsed_abi : Result (Bytes → Result (String × ℕ × ℕ))
  pub big : Bytes → ℕ
  pub address : Bytes → String
  pub event_topic : Bytes

-- The node while one block of a window is read.
pub record Node (Body : Type 0) : Type 0 where
  pub block_receipts : String → Receipts (Receipt Body)
  pub header : String → Answer

-- `getStakeBTC2JoinStakePlanEvents`
unfoldable pub get_stake_plan_logs :
    Ethereum → (FilterQuery → Result (List Log)) → String → ℕ → ℕ → Result (List Log)
get_stake_plan_logs ethereum filter_logs plan_stake_hub_address start stop = filter_logs (record {
  from_block = start;
  to_block = stop;
  addresses = plan_stake_hub_address ∷ [];
  topics = (ethereum.event_topic ∷ []) ∷ [];
})

-- `log.Topics[1]` to `log.Topics[3]`
abbrev pub indexed : List Bytes → Option (Bytes × Bytes × Bytes)
indexed (_ ∷ t1 ∷ t2 ∷ t3 ∷ _) = some (t1, t2, t3)
indexed _ = none

event_of_log : Ethereum → (Bytes → Result (String × ℕ × ℕ)) → Log → Run (Result StakePlanEvent)
event_of_log ethereum unpack log = elim (unpack log.log_data) [
  | err e ↦ done (err e)
  | ok (contract, stake_amount, st_btc_amount) ↦ elim (indexed log.topics) [
    | none ↦ panicked
    | some (t1, t2, t3) ↦ done (
        ok (record {
          tx_hash = log.tx_hash;
          block_hash = log.block_hash;
          stake_index = ethereum.big t1;
          plan_id = ethereum.big t2;
          user = ethereum.address t3;
          btc_contract_address = contract;
          stake_amount = stake_amount;
          st_btc_amount = st_btc_amount;
        }))
  ]
]

events_of_logs :
    Ethereum → (Bytes → Result (String × ℕ × ℕ)) → List Log → Run (Result (List StakePlanEvent))
unfolding event_of_log
events_of_logs ethereum unpack [] = done (ok [])
events_of_logs ethereum unpack (log ∷ logs) =
    let rest = events_of_logs ethereum unpack logs in
    then_run (event_of_log ethereum unpack log) λ found. elim found [
      | err e ↦ done (err e)
      | ok event ↦
          then_run rest
            λ more. elim more [ err e ↦ done (err e) | ok events ↦ done (ok (event ∷ events)) ]
    ]

-- `GetStakeBTC2JoinStakePlanEventByRangeBlock`
unfoldable pub get_stake_plan_events :
    Ethereum
    → (FilterQuery → Result (List Log))
    → String
    → ℕ
    → ℕ
    → Run (Result (List StakePlanEvent))
unfolding get_stake_plan_logs events_of_logs
get_stake_plan_events ethereum filter_logs plan_stake_hub_address start stop =
    elim ethereum.parsed_abi [
      | err e ↦ done (err e)
      | ok unpack ↦
          elim (get_stake_plan_logs ethereum filter_logs plan_stake_hub_address start stop) [
            | err e ↦ done (err e)
            | ok logs ↦ events_of_logs ethereum unpack logs
          ]
    ]

-- An assignment to a key of a Go map.
abbrev pub set_key : String → String → List (String × String) → List (String × String)
set_key key value [] = (key, value) ∷ []
set_key key value ((k, v) ∷ entries) =
    let rest = set_key key value entries in
    if str_eq k key then (k, value) ∷ entries else (k, v) ∷ rest

-- `txhashBlockHashSet`
unfoldable pub block_hash_set :
    List StakePlanEvent → List (String × String) → List (String × String)
block_hash_set [] entries = entries
block_hash_set (event ∷ events) entries =
    block_hash_set events (set_key event.tx_hash event.block_hash entries)

module _ {Body Proof ReceiptStore HeaderStore : Type 0}
    (receipt_lru : Lru (Option (List (Receipt Body))) ReceiptStore)
    (header_lru : Lru (Option Header) HeaderStore) (hash_of : Option Header → String)
    -- `Receipt.TransactionIndex` and `GenReceiptProof`
    (transaction_index : Receipt Body → ℕ)
    (gen_receipt_proof : ℕ → Bytes → List (Receipt Body) → Result Proof) where
  -- The client's caches.
  pub record Caches : Type 0 where
    pub receipts : ReceiptStore
    pub headers : HeaderStore

  -- The first receipt of the transaction.
  find_receipt : String → List (Receipt Body) → Option (Receipt Body)
  find_receipt txhash [] = none
  find_receipt txhash (r ∷ receipts) =
      let rest = find_receipt txhash receipts in if str_eq r.tx_hash txhash then some r else rest

  -- A nil slice has no members.
  abbrev pub members : Option (List (Receipt Body)) → List (Receipt Body)
  members none = []
  members (some receipts) = receipts

  -- With the header of the receipt's block; a nil header is dereferenced.
  attach_proof :
      Receipt Body → List (Receipt Body) → Answer → Run (Result (ReceiptWithProof Body Proof))
  attach_proof receipt receipts (_, some e) = done (err e)
  attach_proof receipt receipts (none, none) = panicked
  attach_proof receipt receipts (some header, none) =
      elim (gen_receipt_proof (transaction_index receipt) header.receipt_hash receipts) [
        | err e ↦ done (err e)
        | ok proof ↦
            done (ok (record { block_time = header.time; receipt = receipt; proof = proof }))
      ]

  -- One pass through the loop over the set.
  receipt_with_proof :
      Node Body → String → String → Caches → Run (Result (ReceiptWithProof Body Proof) × Caches)
  unfolding find_receipt attach_proof
  receipt_with_proof node txhash block_hash caches =
      let ((receipts, failed), receipt_store) =
        receipts_by_block_hash receipt_lru node.block_receipts block_hash caches.receipts in
      let caches' = record caches { receipts = receipt_store } in
      elim failed [
        | some e ↦ done (err e, caches')
        | none ↦ elim (find_receipt txhash (members receipts)) [
          | none ↦ done (
            err (message "receipt not found in his block, it's impossible, maybe something wrong"),
            caches',
          )
          | some receipt ↦
              let (answer, header_store) =
                header_by_hash header_lru hash_of node.header block_hash caches.headers in
              then_run (attach_proof receipt (members receipts) answer)
                λ found. done (found, record caches' { headers = header_store })
        ]
      ]

  -- The loop, where the node may answer differently each time.
  pub receipts_with_proofs :
      (ℕ → Node Body)
      → ℕ
      → List (String × String)
      → Caches
      → Run (Result (List (ReceiptWithProof Body Proof)) × Caches)
  unfolding receipt_with_proof
  receipts_with_proofs node n [] caches = done (ok [], caches)
  receipts_with_proofs node n ((txhash, block_hash) ∷ entries) caches =
      then_run (receipt_with_proof (node n) txhash block_hash caches) λ one. elim one.0 [
        | err e ↦ done (err e, one.1)
        | ok found ↦ then_run (receipts_with_proofs node (suc n) entries one.1) λ rest.
            elim rest.0 [
              | err e ↦ done (err e, rest.1)
              | ok more ↦ done (ok (found ∷ more), rest.1)
            ]
      ]

  -- `GetStakeBTC2JoinStakePlanReceiptsWithProof`. `order` is the order in which the loop visits the
  -- set.
  unfoldable pub get_receipts_with_proof :
      Ethereum
      → (FilterQuery → Result (List Log))
      → (List (String × String) → List (String × String))
      → (ℕ → Node Body)
      → String
      → ℕ
      → ℕ
      → Caches
      → Run (Result (List (ReceiptWithProof Body Proof)) × Caches)
  unfolding receipts_with_proofs
  get_receipts_with_proof ethereum filter_logs order node plan_stake_hub_address start stop caches =
      then_run (get_stake_plan_events ethereum filter_logs plan_stake_hub_address start stop)
        λ events. elim events [
          | err e ↦ done (err e, caches)
          | ok list ↦ receipts_with_proofs node 0 (order (block_hash_set list [])) caches
        ]
