-- ===== src/BnbClient/StakePlan/Set.antt =====
-- The map from the transactions of the events to their blocks.
use mathlib.Core.Path.{subst}
use mathlib.Core.Bool.{Bool-set}
use mathlib.Core.Logic.Or
use mathlib.Core.List.{
  Mem, Perm, Nodup, Nodup-nil, Nodup-cons, Mem-prop, mem-cons, not-mem-nil, mem-cons_self,
  mem-cons_of_mem,
}
use mathlib.Core.List.Perm
use lorenzo_btcstaking_submi.Base.{
  ◌≡◌, ◌≢◌, refl, sym, ◌∙◌, ap, inl, inr, Bool, true, ◌&&◌, String, str_eq, eq_iff, List, [], ◌∷◌,
  map, arith, All, Bool-cases, some_of,
}
use lorenzo_btcstaking_submi.Base.Members.{All-of_mem}
use lorenzo_btcstaking_submi.BnbClient.StakePlan.{StakePlanEvent, set_key, block_hash_set}

abbrev pub keys : List (String × String) → List String
keys entries = map (λ e. e.0) entries

-- Some event is of the transaction and in the block.
abbrev pub happened : List StakePlanEvent → String → String → Bool
happened events txhash block_hash =
    some_of (λ e. str_eq e.tx_hash txhash && str_eq e.block_hash block_hash) events

set_key-Mem_self :
    (key value : String) (entries : List (String × String))
    → Mem key (keys (set_key key value entries))
set_key-Mem_self key value [] = mem-cons_self
set_key-Mem_self key value ((k, v) ∷ entries) = elim (Bool-cases (str_eq k key)) [
  | inl same ↦
      rw same (subst (λ a. Mem key (a ∷ keys entries)) (sym ((eq_iff k key).0 same)) mem-cons_self)
  | inr other ↦ rw other (mem-cons_of_mem k (set_key-Mem_self key value entries))
]

set_key-Mem :
    (key value x : String) (entries : List (String × String))
    → Mem x (keys entries)
    → Mem x (keys (set_key key value entries))
set_key-Mem key value x [] m = absurd (not-mem-nil m)
set_key-Mem key value x ((k, v) ∷ entries) m = elim (Bool-cases (str_eq k key)) [
  | inl same ↦ rw same m
  | inr other ↦ rw other (
      Or.elim Mem-prop (mem-cons.0 m) (λ e. rw e mem-cons_self)
        (λ m'. mem-cons_of_mem k (set_key-Mem key value x entries m')))
]

-- Only the key is new.
Mem-set_key :
    (key value x : String) (entries : List (String × String))
    → x ≢ key
    → Mem x (keys (set_key key value entries))
    → Mem x (keys entries)
Mem-set_key key value x [] ne m = Or.elim Mem-prop (mem-cons.0 m) (λ e. absurd (ne e)) (λ n. n)
Mem-set_key key value x ((k, v) ∷ entries) ne m = elim (Bool-cases (str_eq k key)) [
  | inl same ↦ rw same at m
  | inr other ↦
      Or.elim Mem-prop (mem-cons.0 (rw other at m)) (λ e. rw e mem-cons_self)
        (λ n. mem-cons_of_mem k (Mem-set_key key value x entries ne n))
]

set_key-Nodup :
    (key value : String) (entries : List (String × String))
    → Nodup (keys entries)
    → Nodup (keys (set_key key value entries))
set_key-Nodup key value [] d = Nodup-cons.1 (not-mem-nil, Nodup-nil)
set_key-Nodup key value ((k, v) ∷ entries) d =
    let (fresh, rest) = Nodup-cons.0 d in
    elim (Bool-cases (str_eq k key)) [
      | inl same ↦ rw same d
      | inr other ↦
          let ne : k ≢ key = ground (arith, eq_iff k key) in
          rw other (
            Nodup-cons.1 (
              λ m. fresh (Mem-set_key key value k entries ne m),
              set_key-Nodup key value entries rest,
            ))
    ]

set_key-All :
    (test : String → String → Bool) (key value : String) (entries : List (String × String))
    → test key value ≡ true
    → All (λ e. test e.0 e.1 ≡ true) entries
    → All (λ e. test e.0 e.1 ≡ true) (set_key key value entries)
set_key-All test key value [] h all = (h, tt)
set_key-All test key value ((k, v) ∷ entries) h (a, all) = elim (Bool-cases (str_eq k key)) [
  | inl same ↦ rw same (ap (λ x. test x value) ((eq_iff k key).0 same) ∙ h, all)
  | inr other ↦ rw other (a, set_key-All test key value entries h all)
]

block_hash_set-Mem :
    (events : List StakePlanEvent) (x : String) (entries : List (String × String))
    → Mem x (keys entries)
    → Mem x (keys (block_hash_set events entries))
unfolding block_hash_set
block_hash_set-Mem [] x entries m = m
block_hash_set-Mem (e ∷ events) x entries m =
    block_hash_set-Mem events x (set_key e.tx_hash e.block_hash entries)
      (set_key-Mem e.tx_hash e.block_hash x entries m)

-- Every event's transaction is a key.
pub block_hash_set-Covers :
    (events : List StakePlanEvent) (entries : List (String × String))
    → All (λ e. Mem e.tx_hash (keys (block_hash_set events entries))) events
unfolding block_hash_set
block_hash_set-Covers [] entries = tt
block_hash_set-Covers (e ∷ events) entries = (
  block_hash_set-Mem events e.tx_hash _ (set_key-Mem_self e.tx_hash e.block_hash entries),
  block_hash_set-Covers events _,
)

-- No key is there twice.
pub block_hash_set-Nodup :
    (events : List StakePlanEvent) (entries : List (String × String))
    → Nodup (keys entries)
    → Nodup (keys (block_hash_set events entries))
unfolding block_hash_set
block_hash_set-Nodup [] entries d = d
block_hash_set-Nodup (e ∷ events) entries d =
    block_hash_set-Nodup events _ (set_key-Nodup e.tx_hash e.block_hash entries d)

-- What holds of the events' transactions and blocks holds of the entries.
pub block_hash_set-All :
    (test : String → String → Bool) (events : List StakePlanEvent)
    (entries : List (String × String))
    → All (λ e. test e.tx_hash e.block_hash ≡ true) events
    → All (λ e. test e.0 e.1 ≡ true) entries
    → All (λ e. test e.0 e.1 ≡ true) (block_hash_set events entries)
unfolding block_hash_set
block_hash_set-All test [] entries h all = all
block_hash_set-All test (e ∷ events) entries (a, h) all =
    block_hash_set-All test events _ h (set_key-All test e.tx_hash e.block_hash entries a all)

-- Each event happened.
happened_more :
    (e : StakePlanEvent) (events rest : List StakePlanEvent)
    → All (λ r. happened events r.tx_hash r.block_hash ≡ true) rest
    → All (λ r. happened (e ∷ events) r.tx_hash r.block_hash ≡ true) rest
happened_more e events [] h = tt
happened_more e events (r ∷ rest) (a, h) = (ground arith, happened_more e events rest h)

pub happened-All :
    (events : List StakePlanEvent) → All (λ e. happened events e.tx_hash e.block_hash ≡ true) events
happened-All [] = tt
happened-All (e ∷ events) = (
  ground (arith, (eq_iff e.tx_hash e.tx_hash).1 refl, (eq_iff e.block_hash e.block_hash).1 refl),
  happened_more e events events (happened-All events),
)

-- A test that all members pass is passed by every member, in whatever order.
Mem-test :
    (test : String × String → Bool) (x : String × String) (entries : List (String × String))
    → All (λ e. test e ≡ true) entries
    → Mem x entries
    → test x ≡ true
Mem-test test x [] all m = absurd (not-mem-nil m)
Mem-test test x (e ∷ entries) (a, all) m =
    Or.elim (Bool-set _ _) (mem-cons.0 m) (λ same. ap test same ∙ a) (Mem-test test x entries all)

pub Perm-test :
    (test : String × String → Bool) (xs ys : List (String × String))
    → Perm xs ys
    → All (λ e. test e ≡ true) ys
    → All (λ e. test e ≡ true) xs
Perm-test test xs ys same all =
    All-of_mem (λ e. test e ≡ true) xs λ x m. Mem-test test x ys all ((Perm.mem_iff same).0 m)
