-- ===== src/BnbClient/StakePlan/Proofs.antt =====
-- The receipts and proofs of a range, against its events.
use mathlib.Core.Path.{subst}
use mathlib.Core.List.{Mem, Perm, Nodup, Nodup-nil}
use mathlib.Core.List.Perm
use lorenzo_btcstaking_submi.Base.{
  ℕ, ◌≡◌, refl, sym, ◌∙◌, ap, inl, inr, true, String, Option, List, [], ◌∷◌, map, arith, All, Each,
  Bytes, Result, ok, Result-cases, done, then_run-done,
}
use lorenzo_btcstaking_submi.BnbTypes.Header.{Header}
use lorenzo_btcstaking_submi.BnbClient.{Lru, IsFaithfulLru}
use lorenzo_btcstaking_submi.BnbClient.Headers.{Keyed}
use lorenzo_btcstaking_submi.BnbClient.StakePlan.{
  StakePlanEvent, FilterQuery, Log, Ethereum, Node, get_stake_plan_events, block_hash_set,
  get_receipts_with_proof,
}
use lorenzo_btcstaking_submi.BnbClient.StakePlan.Set.{
  keys, happened, block_hash_set-Covers, block_hash_set-Nodup, block_hash_set-All, happened-All,
  Perm-test,
}
use lorenzo_btcstaking_submi.TxRelayer.Bnb.{Receipt, ReceiptWithProof}
use lorenzo_btcstaking_submi.BnbClient.StakePlan.Answered.{
  Backed, Answers, Store, receipts_with_proofs-Answers,
}

module _ {Body Proof ReceiptStore HeaderStore : Type 0}
    (receipt_lru : Lru (Option (List (Receipt Body))) ReceiptStore)
    (header_lru : Lru (Option Header) HeaderStore) (hash_of : Option Header → String)
    (transaction_index : Receipt Body → ℕ)
    (gen_receipt_proof : ℕ → Bytes → List (Receipt Body) → Result Proof)
    (Entry : HeaderStore → String → Option Header → Type 0)
    (faithful : IsFaithfulLru header_lru Entry) where
  abbrev pub tx_hashes : List (ReceiptWithProof Body Proof) → List String
  tx_hashes found = map (λ f. f.receipt.tx_hash) found

  answered_keys :
      (node : ℕ → Node Body) (entries : List (String × String))
      (found : List (ReceiptWithProof Body Proof))
      → Each
          (Answers receipt_lru header_lru hash_of transaction_index gen_receipt_proof Entry faithful
            node)
          entries
          found
      → tx_hashes found ≡ keys entries
  answered_keys node [] [] h = refl
  answered_keys node [] (f ∷ found) h = elim h [ ]
  answered_keys node (e ∷ entries) [] h = elim h [ ]
  answered_keys node (e ∷ entries) (f ∷ found) ((same, backed), h) =
      ap (λ k. k ∷ tx_hashes found) same ∙ ap (◌∷◌ e.0) (answered_keys node entries found h)

  -- Of an event that happened, and backed.
  abbrev pub Proven : (ℕ → Node Body) → List StakePlanEvent → ReceiptWithProof Body Proof → Type 0
  Proven node events f =
      (block_hash : String) × (happened events f.receipt.tx_hash block_hash ≡ true)
      × Backed receipt_lru header_lru hash_of transaction_index gen_receipt_proof Entry faithful
          node block_hash f

  answered-Proven :
      (node : ℕ → Node Body) (events : List StakePlanEvent) (entries : List (String × String))
      (found : List (ReceiptWithProof Body Proof))
      → Each
          (Answers receipt_lru header_lru hash_of transaction_index gen_receipt_proof Entry faithful
            node)
          entries
          found
      → All (λ e. happened events e.0 e.1 ≡ true) entries
      → All (Proven node events) found
  answered-Proven node events [] [] h all = tt
  answered-Proven node events [] (f ∷ found) h all = elim h [ ]
  answered-Proven node events (e ∷ entries) [] h all = elim h [ ]
  answered-Proven node events (e ∷ entries) (f ∷ found) ((same, backed), h) (a, all) = (
    (e.1, ap (λ t. happened events t e.1) same ∙ a, backed),
    answered-Proven node events entries found h all,
  )

  mem_order :
      (events more : List StakePlanEvent) (set ordered : List String)
      → Perm ordered set
      → All (λ e. Mem e.tx_hash set) more
      → All (λ e. Mem e.tx_hash ordered) more
  mem_order events [] set ordered same h = tt
  mem_order events (e ∷ more) set ordered same (m, h) =
      ((Perm.mem_iff same).1 m, mem_order events more set ordered same h)

  -- Where the loop visits the set in some order, the cache of headers holds only what was added to
  -- it, and every header in it is under its own hash: when the call returns receipts without an
  -- error, the events of the range were listed; the transaction of each event has a receipt, and no
  -- transaction has two; each receipt is of a transaction and a block of which there is an event,
  -- its proof is the one generated for it among receipts that hold it, against the receipts root of
  -- a header that has the hash of that block or that the node answered with for that hash, and its
  -- time is that header's; and the cache still has every header under its own hash.
  pub get_receipts_with_proof-Proven :
      (ethereum : Ethereum) (filter_logs : FilterQuery → Result (List Log))
      (order : List (String × String) → List (String × String)) (node : ℕ → Node Body)
      (plan_stake_hub_address : String) (start stop : ℕ)
      (caches after : Store receipt_lru header_lru hash_of transaction_index gen_receipt_proof Entry
        faithful)
      (found : List (ReceiptWithProof Body Proof))
      → ((entries : List (String × String)) → Perm (order entries) entries)
      → Keyed header_lru hash_of Entry faithful caches.headers
      → get_receipts_with_proof receipt_lru header_lru hash_of transaction_index gen_receipt_proof
          ethereum filter_logs order node plan_stake_hub_address start stop caches
        ≡ done (ok found, after)
      → (events : List StakePlanEvent) × (get_stake_plan_events ethereum filter_logs
            plan_stake_hub_address start stop
          ≡ done (ok events))
        × All (λ e. Mem e.tx_hash (tx_hashes found)) events
        × Nodup (tx_hashes found)
        × All (Proven node events) found
        × Keyed header_lru hash_of Entry faithful after.headers
  unfolding get_receipts_with_proof
  get_receipts_with_proof-Proven ethereum filter_logs order node plan_stake_hub_address start stop
        caches after found reorders keyed h =
      let (events, listed, g) =
        then_run-done (get_stake_plan_events ethereum filter_logs plan_stake_hub_address start stop)
          _ h in
      elim (Result-cases events) [
        | inr (failure, failed) ↦ absurd (ground arith)
        | inl (list, got) ↦
            let set = block_hash_set list [] in
            let (answers, keyed') =
              receipts_with_proofs-Answers receipt_lru header_lru hash_of transaction_index
                gen_receipt_proof Entry faithful node 0 (order set) caches after found keyed
                (rw got at g) in
            let visited = answered_keys node (order set) found answers in
            let reordered : Perm (tx_hashes found) (keys set) =
              subst (λ ks. Perm ks (keys set)) (sym visited) (Perm.map (λ e. e.0) (reorders set)) in
            (
              list,
              listed ∙ ap done got,
              mem_order list list (keys set) (tx_hashes found) reordered
                  (block_hash_set-Covers list []),
              Perm.nodup (Perm.symm reordered) (block_hash_set-Nodup list [] Nodup-nil),
              answered-Proven node list (order set) found answers (
                  Perm-test (λ e. happened list e.0 e.1) (order set) set (reorders set)
                    (block_hash_set-All (happened list) list [] (happened-All list) tt)),
              keyed',
            )
      ]
