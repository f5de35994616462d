-- ===== src/BnbClient.antt =====
-- bnbclient/client.go: the receipts of a block and the headers, with their caches. bnbclient/stake_plan.go
-- is in StakePlan.
pub mod Cached
pub mod Headers
pub mod StakePlan
use lorenzo_btcstaking_submi.Base.{
  ℕ, ◌≡◌, ◌⊎◌, String, Option, none, some, List, Error, eth_not_found,
}

-- `lru.Cache` of golang-lru: a lookup may reorder the entries.
pub record Lru (Value Store : Type 0) : Type 0 where
  pub get : String → Store → Option Value × Store
  pub add : String → Value → Store → Store

-- An entry that was added last is found.
pub record IsLawfulLru {Value Store : Type 0} (lru : Lru Value Store) : Type 0 where
  pub get_add :
      (key : String) (value : Value) (store : Store)
      → (lru.get key (lru.add key value store)).0 ≡ some value

-- `Entry store key value`: the store holds the value under the key. A lookup finds what is held, and
-- only an addition adds.
pub record IsFaithfulLru {Value Store : Type 0} (lru : Lru Value Store)
    (Entry : Store → String → Value → Type 0) : Type 0 where
  pub found :
      (key : String) (value : Value) (store : Store)
      → (lru.get key store).0 ≡ some value
      → Entry store key value
  pub after_get :
      (asked key : String) (value : Value) (store : Store)
      → Entry (lru.get asked store).1 key value
      → Entry store key value
  pub after_add :
      (new key : String) (added value : Value) (store : Store)
      → Entry (lru.add new added store) key value
      → ((key ≡ new) × (value ≡ added)) ⊎ Entry store key value

-- Receipts that may be nil, and the error.
abbrev pub Receipts : Type 0 → Type 0
Receipts Receipt = Option (List Receipt) × Option Error

module _ {Receipt Store : Type 0} (lru : Lru (Option (List Receipt)) Store) where
  -- Of a call that was made. A nil list without an error is no block.
  keep_receipts : String → Receipts Receipt → Store → Receipts Receipt × Store
  keep_receipts hash (none, none) store = ((none, some eth_not_found), store)
  keep_receipts hash (some receipts, e) store =
      ((some receipts, e), lru.add hash (some receipts) store)
  keep_receipts hash (none, some e) store = ((none, some e), lru.add hash none store)

  -- `call` is eth_getBlockReceipts.
  unfoldable pub receipts_by_block_hash :
      (String → Receipts Receipt) → String → Store → Receipts Receipt × Store
  unfolding keep_receipts
  receipts_by_block_hash call hash store = elim (lru.get hash store).0 [
    | some receipts ↦ ((receipts, none), (lru.get hash store).1)
    | none ↦ keep_receipts hash (call hash) (lru.get hash store).1
  ]

-- A nil list without an error is no block.
not_found_if_nil : {Receipt : Type 0} → Receipts Receipt → Receipts Receipt
not_found_if_nil (none, none) = (none, some eth_not_found)
not_found_if_nil (some receipts, e) = (some receipts, e)
not_found_if_nil (none, some e) = (none, some e)

-- The receipts by number have no cache.
unfoldable pub receipts_by_block_number :
    {Receipt : Type 0} → (ℕ → Receipts Receipt) → ℕ → Receipts Receipt
unfolding not_found_if_nil
receipts_by_block_number call number = not_found_if_nil (call number)

abbrev pub block_receipts_cache_size : ℕ
block_receipts_cache_size = 100

abbrev pub block_header_cache_size : ℕ
block_header_cache_size = 100

-- `ethclient.Dial`, `rpc.DialContext`, and `lru.New` of both caches by their sizes: the errors, if
-- there are any.
pub record Dial : Type 0 where
  pub eth : String → Option Error
  pub rpc : String → Option Error
  pub receipts_cache : ℕ → Option Error
  pub header_cache : ℕ → Option Error

-- `New`: the error, if the client cannot be made.
unfoldable pub new_client : Dial → String → Option Error
new_client dial rpc_url = elim (dial.eth rpc_url) [
  | some e ↦ some e
  | none ↦ elim (dial.rpc rpc_url) [
    | some e ↦ some e
    | none ↦ elim (dial.receipts_cache block_receipts_cache_size) [
      | some e ↦ some e
      | none ↦ dial.header_cache block_header_cache_size
    ]
  ]
]
