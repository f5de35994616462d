-- ===== src/BnbClient/StakePlan/Answered.antt =====
-- The receipts and proofs that the loop over the set makes, one for each entry.
use mathlib.Core.Path.{subst}
use mathlib.Core.List.{Mem, mem-cons_self, mem-cons_of_mem}
use lorenzo_btcstaking_submi.Base.{
  ℕ, suc, ◌≡◌, refl, sym, ◌∙◌, ap, inl, inr, String, str_eq, eq_iff, Option, none, some, List, [],
  ◌∷◌, arith, Bool-cases, Option-cases, Each, Bytes, Result, ok, Result-cases, done, then_run-done,
}
use lorenzo_btcstaking_submi.BnbTypes.Header.{Header}
use lorenzo_btcstaking_submi.BnbClient.{Lru, IsFaithfulLru, receipts_by_block_hash}
use lorenzo_btcstaking_submi.BnbClient.Headers.{
  Answer, header_by_hash, Keyed, IsFor, header_by_hash-Keyed, header_by_hash-IsFor,
}
use lorenzo_btcstaking_submi.BnbClient.StakePlan.{
  Node, Caches, find_receipt, members, attach_proof, receipt_with_proof, receipts_with_proofs,
}
use lorenzo_btcstaking_submi.TxRelayer.Bnb.{Receipt, ReceiptWithProof}

module _ {Body Proof ReceiptStore HeaderStore : Type 0}
    (receipt_lru : Lru (Option (List (Receipt Body))) ReceiptStore)
    (header_lru : Lru (Option Header) HeaderStore) (hash_of : Option Header → String)
    (transaction_index : Receipt Body → ℕ)
    (gen_receipt_proof : ℕ → Bytes → List (Receipt Body) → Result Proof)
    (Entry : HeaderStore → String → Option Header → Type 0)
    (faithful : IsFaithfulLru header_lru Entry) where
  -- The proof is of the receipt among receipts, against the receipts' root of a header of the block.
  abbrev pub Backed : (ℕ → Node Body) → String → ReceiptWithProof Body Proof → Type 0
  Backed node block_hash f =
      (receipts : List (Receipt Body)) × (header : Header) × (n : ℕ) × Mem f.receipt receipts
      × IsFor header_lru hash_of Entry faithful (node n).header block_hash header
      × (gen_receipt_proof (transaction_index f.receipt) header.receipt_hash receipts ≡ ok f.proof)
      × (f.block_time ≡ header.time)

  abbrev pub Answers : (ℕ → Node Body) → String × String → ReceiptWithProof Body Proof → Type 0
  Answers node entry f = (f.receipt.tx_hash ≡ entry.0) × Backed node entry.1 f

  found_receipt :
      (txhash : String) (receipts : List (Receipt Body)) (r : Receipt Body)
      → find_receipt receipt_lru header_lru hash_of transaction_index gen_receipt_proof txhash
          receipts
        ≡ some r
      → (r.tx_hash ≡ txhash) × Mem r receipts
  unfolding find_receipt
  found_receipt txhash [] r h = cc
  found_receipt txhash (s ∷ receipts) r h = elim (Bool-cases (str_eq s.tx_hash txhash)) [
    | inl same ↦
        let e : s ≡ r = ground arith in
        subst (λ q. (q.tx_hash ≡ txhash) × Mem q (s ∷ receipts)) e
          ((eq_iff s.tx_hash txhash).0 same, mem-cons_self)
    | inr other ↦
        let (e, m) = found_receipt txhash receipts r (ground arith) in (e, mem-cons_of_mem s m)
  ]

  abbrev pub Store : Type 0
  Store = Caches receipt_lru header_lru hash_of transaction_index gen_receipt_proof

  attached :
      (receipt : Receipt Body) (receipts : List (Receipt Body)) (answer : Answer)
      (f : ReceiptWithProof Body Proof)
      → attach_proof receipt_lru header_lru hash_of transaction_index gen_receipt_proof receipt
          receipts answer
        ≡ done (ok f)
      → (header : Header) × (answer ≡ (some header, none))
        × (f.receipt ≡ receipt)
        × (gen_receipt_proof (transaction_index receipt) header.receipt_hash receipts ≡ ok f.proof)
        × (f.block_time ≡ header.time)
  unfolding attach_proof
  attached receipt receipts (_, some e) f h = cc
  attached receipt receipts (none, none) f h = cc
  attached receipt receipts (some header, none) f h =
      elim (Result-cases
        (gen_receipt_proof (transaction_index receipt) header.receipt_hash receipts)) [
          | inr (e, failed) ↦ absurd (ground arith)
          | inl (proof, made) ↦ (header, refl, ground arith, ground arith, ground arith)
        ]

  receipt_with_proof-Answers :
      (node : ℕ → Node Body) (n : ℕ) (txhash block_hash : String) (caches after : Store)
      (f : ReceiptWithProof Body Proof)
      → Keyed header_lru hash_of Entry faithful caches.headers
      → receipt_with_proof receipt_lru header_lru hash_of transaction_index gen_receipt_proof
          (node n)
          txhash
          block_hash
          caches
        ≡ done (ok f, after)
      → Answers node (txhash, block_hash) f × Keyed header_lru hash_of Entry faithful after.headers
  unfolding receipt_with_proof
  receipt_with_proof-Answers node n txhash block_hash caches after f keyed h =
      let got =
        receipts_by_block_hash receipt_lru (node n).block_receipts block_hash caches.receipts in
      let receipts =
        members receipt_lru header_lru hash_of transaction_index gen_receipt_proof got.0.0 in
      let asked = header_by_hash header_lru hash_of (node n).header block_hash caches.headers in
      elim (Option-cases got.0.1) [
        | inr (e, failed) ↦ absurd (ground arith)
        | inl fine ↦
            elim (Option-cases (
              find_receipt receipt_lru header_lru hash_of transaction_index gen_receipt_proof txhash
                receipts)) [
                  | inl absent ↦ absurd (ground arith)
                  | inr (receipt, seen) ↦
                      let (same, m) = found_receipt txhash receipts receipt seen in
                      let (found, e, g) =
                        then_run-done
                          (attach_proof receipt_lru header_lru hash_of transaction_index
                            gen_receipt_proof receipt receipts asked.0)
                          _ (rw (receipt_with_proof, fine, seen) at h) in
                      let made : found ≡ ok f = ground arith in
                      let kept : asked.1 ≡ after.headers = ground arith in
                      let (header, answered, r, p, t) =
                        attached receipt receipts asked.0 f (e ∙ ap done made) in
                      let is_for =
                        header_by_hash-IsFor header_lru hash_of Entry faithful (node n).header
                          block_hash caches.headers header keyed answered in
                      (
                        (
                          ap (λ q. q.tx_hash) r ∙ same,
                          (
                            members receipt_lru header_lru hash_of transaction_index
                                gen_receipt_proof got.0.0,
                            header,
                            n,
                            subst (λ q. Mem q receipts) (sym r) m,
                            is_for,
                            subst
                                (λ q.
                                  gen_receipt_proof (transaction_index q) header.receipt_hash
                                    receipts
                                  ≡ ok f.proof)
                                (sym r) p,
                            t,
                          ),
                        ),
                        subst (Keyed header_lru hash_of Entry faithful) kept (
                            header_by_hash-Keyed header_lru hash_of Entry faithful (node n).header
                              block_hash caches.headers keyed),
                      )
                ]
      ]

  pub receipts_with_proofs-Answers :
      (node : ℕ → Node Body) (n : ℕ) (entries : List (String × String)) (caches after : Store)
      (found : List (ReceiptWithProof Body Proof))
      → Keyed header_lru hash_of Entry faithful caches.headers
      → receipts_with_proofs receipt_lru header_lru hash_of transaction_index gen_receipt_proof node
          n entries caches
        ≡ done (ok found, after)
      → Each (Answers node) entries found × Keyed header_lru hash_of Entry faithful after.headers
  unfolding receipts_with_proofs
  receipts_with_proofs-Answers node n [] caches after found keyed h =
      let none_found : found ≡ [] = ground arith in
      let same : caches.headers ≡ after.headers = ground arith in
      (
        subst (Each (Answers node) []) (sym none_found) tt,
        subst (Keyed header_lru hash_of Entry faithful) same keyed,
      )
  receipts_with_proofs-Answers node n ((txhash, block_hash) ∷ entries) caches after found keyed h =
      let ((one, between), e, g) =
        then_run-done
          (receipt_with_proof receipt_lru header_lru hash_of transaction_index gen_receipt_proof
            (node n) txhash block_hash caches)
          _ h in
      elim (Result-cases one) [
        | inr (failure, failed) ↦ absurd (ground arith)
        | inl (f, got) ↦
            let first =
              receipt_with_proof-Answers node n txhash block_hash caches between f keyed
                (e ∙ ap (λ r. done (r, between)) got) in
            let ((rest, final), e', g') =
              then_run-done
                (receipts_with_proofs receipt_lru header_lru hash_of transaction_index
                  gen_receipt_proof node (suc n) entries between)
                _ (rw got at g) in
            elim (Result-cases rest) [
              | inr (failure, failed) ↦ absurd (ground arith)
              | inl (more, got') ↦
                  let last : final ≡ after = ground arith in
                  let all : f ∷ more ≡ found = ground arith in
                  let (others, keyed') =
                    receipts_with_proofs-Answers node (suc n) entries between final more first.1
                      (e' ∙ ap (λ r. done (r, final)) got') in
                  (
                    subst (Each (Answers node) ((txhash, block_hash) ∷ entries)) all
                        (first.0, others),
                    subst (λ c. Keyed header_lru hash_of Entry faithful c.headers) last keyed',
                  )
            ]
      ]
