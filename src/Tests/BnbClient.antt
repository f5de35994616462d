-- ===== src/Tests/BnbClient.antt =====
-- A failed request for the receipts of a block, and the next one.
use lorenzo_btcstaking_submi.Base.{
  ◌≡◌, ◌≢◌, refl, String, str_eq, eq_iff, Option, none, some, List, [], ◌∷◌, ℕ, arith,
  if◌then◌else◌, message,
}
use lorenzo_btcstaking_submi.BnbClient.{Lru, IsLawfulLru, Receipts, receipts_by_block_hash}
use lorenzo_btcstaking_submi.BnbClient.Cached.{receipts_by_block_hash-twice}

abbrev Entries : Type 0
Entries = List (String × Option (List ℕ))

abbrev find_entry : String → Entries → Option (Option (List ℕ))
find_entry key [] = none
find_entry key ((k, value) ∷ entries) = if str_eq k key then some value else find_entry key entries

-- A cache that never forgets.
abbrev entries_lru : Lru (Option (List ℕ)) Entries
entries_lru = record {
  get = λ key entries. (find_entry key entries, entries);
  add = λ key value entries. (key, value) ∷ entries;
}

entries_lru-IsLawfulLru : IsLawfulLru entries_lru
entries_lru-IsLawfulLru = record {
  get_add = λ key value store. ground (arith, (eq_iff key key).1 refl);
}

abbrev timeout : String → Receipts ℕ
timeout hash = (none, some (message "timeout"))

abbrev answer : String → Receipts ℕ
answer hash = (some (7 ∷ []), none)

timeout-answered : timeout "0xb" ≢ (none, none)
timeout-answered h = cc

receipts_by_block_hash-twice_example :
    (receipts_by_block_hash entries_lru answer "0xb"
      (receipts_by_block_hash entries_lru timeout "0xb" []).1).0
    ≡ (none, none)
receipts_by_block_hash-twice_example =
    receipts_by_block_hash-twice entries_lru entries_lru-IsLawfulLru timeout answer "0xb" []
      timeout-answered refl
