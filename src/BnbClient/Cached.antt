-- ===== src/BnbClient/Cached.antt =====
-- The cache of `ReceiptsByBlockHash` in bnbclient/client.go.
use lorenzo_btcstaking_submi.Base.{◌≡◌, ◌≢◌, String, Option, none, List, arith}
use lorenzo_btcstaking_submi.BnbClient.{
  Lru, IsLawfulLru, Receipts, keep_receipts, receipts_by_block_hash,
}

module _ {Receipt Store : Type 0} (lru : Lru (Option (List Receipt)) Store)
    (lawful : IsLawfulLru lru) where
  -- Where the cache finds what was added last and has nothing for a hash, and the first call for it
  -- gives receipts or an error, asking again gives the receipts of the first call without an error,
  -- whatever the node would answer by then; so a call that failed is followed by nil receipts and
  -- no error.
  pub receipts_by_block_hash-twice :
      (call later : String → Receipts Receipt) (hash : String) (store : Store)
      → call hash ≢ (none, none)
      → (lru.get hash store).0 ≡ none
      → (receipts_by_block_hash lru later hash (receipts_by_block_hash lru call hash store).1).0
        ≡ ((call hash).0, none)
  unfolding receipts_by_block_hash keep_receipts
  receipts_by_block_hash-twice call later hash store answered absent =
      let fresh = (lru.get hash store).1 in ground (arith, lawful.get_add hash (call hash).0 fresh)
