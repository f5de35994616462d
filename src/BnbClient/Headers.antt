-- ===== src/BnbClient/Headers.antt =====
-- `HeaderByNumber` and `HeaderByHash` of bnbclient/client.go. The header is the one of BnbTypes, and
-- `hash_of` is its method `Hash`, which also takes a nil header.
use mathlib.Core.Path.{subst}
use lorenzo_btcstaking_submi.Base.{
  ℕ, ◌≡◌, ◌⊎◌, inl, inr, sym, ◌∙◌, ap, String, Option, none, some, Option-cases, Error,
  eth_not_found, arith,
}
use lorenzo_btcstaking_submi.BnbTypes.Header.{Header}
use lorenzo_btcstaking_submi.BnbClient.{Lru, IsFaithfulLru}

-- A header that may be nil, and the error.
abbrev pub Answer : Type 0
Answer = Option Header × Option Error

-- `if err == nil && header == nil {err = ethereum.NotFound }`
header_not_found : Answer → Answer
header_not_found (none, none) = (none, some eth_not_found)
header_not_found (some header, e) = (some header, e)
header_not_found (none, some e) = (none, some e)

-- `call` is eth_getBlockByNumber.
unfoldable pub header_by_number : (ℕ → Answer) → ℕ → Answer
unfolding header_not_found
header_by_number call number = header_not_found (call number)

module _ {Store : Type 0} (lru : Lru (Option Header) Store) (hash_of : Option Header → String) where
  -- `call` is eth_getBlockByHash. Whatever it answers is stored, under the hash of its own.
  unfoldable pub header_by_hash : (String → Answer) → String → Store → Answer × Store
  unfolding header_not_found
  header_by_hash call hash store = elim (lru.get hash store).0 [
    | some header ↦ ((header, none), (lru.get hash store).1)
    | none ↦
        let answer = header_not_found (call hash) in
        (answer, lru.add (hash_of answer.0) answer.0 (lru.get hash store).1)
  ]

  module _ (Entry : Store → String → Option Header → Type 0)
      (faithful : IsFaithfulLru lru Entry) where
    -- Every header of the cache is under its own hash.
    abbrev pub Keyed : Store → Type 0
    Keyed store =
        (key : String) (value : Option Header) → Entry store key value → hash_of value ≡ key

    -- The header's hash is the one that was asked for, or the node answered with it.
    abbrev pub IsFor : (String → Answer) → String → Header → Type 0
    IsFor call hash header = (hash_of (some header) ≡ hash) ⊎ (call hash ≡ (some header, none))

    pub header_by_hash-Keyed :
        (call : String → Answer) (hash : String) (store : Store)
        → Keyed store
        → Keyed (header_by_hash call hash store).1
    unfolding header_by_hash header_not_found
    header_by_hash-Keyed call hash store keyed key value entry =
        let fresh = (lru.get hash store).1 in
        elim (Option-cases (lru.get hash store).0) [
          | inl missed ↦
              let kept : Entry
                  (lru.add (hash_of (header_not_found (call hash)).0)
                    (header_not_found (call hash)).0 fresh)
                  key value =
                subst (λ s. Entry s key value) (ground arith) entry in
              elim (faithful.after_add _ key _ value fresh kept) [
                | inl (e, f) ↦ ap hash_of f ∙ sym e
                | inr old ↦ keyed key value (faithful.after_get hash key value store old)
              ]
          | inr (header, hit) ↦ keyed key value (
              faithful.after_get hash key value store
                (subst (λ s. Entry s key value) (ground arith) entry))
        ]

    pub header_by_hash-IsFor :
        (call : String → Answer) (hash : String) (store : Store) (header : Header)
        → Keyed store
        → (header_by_hash call hash store).0 ≡ (some header, none)
        → IsFor call hash header
    unfolding header_by_hash header_not_found
    header_by_hash-IsFor call hash store header keyed h =
        elim (Option-cases (lru.get hash store).0) [
          | inl missed ↦ inr (ground arith)
          | inr (cached, hit) ↦
              let same : cached ≡ some header = ground arith in
              inl (ap hash_of (sym same) ∙ keyed hash cached (faithful.found hash cached store hit))
        ]
