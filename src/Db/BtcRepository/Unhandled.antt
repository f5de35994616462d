-- ===== src/Db/BtcRepository/Unhandled.antt =====
-- Which deposits `GetUnhandledBtcDepositTxs` hands to the submitter.
use lorenzo_btcstaking_submi.Base.{
  ℕ, ◌+◌, ◌≤◌, ◌<◌, ◌^◌, ◌≡◌, ◌↔◌, ◌⊎◌, true, arith, ltb, u64_mod, sub_u64, if◌then◌else◌,
}
use lorenzo_btcstaking_submi.Db.Types.{
  BtcDepositTx, dep0_amount, dep1_amount, dep2_amount, dep3_amount, status_pending,
}
use lorenzo_btcstaking_submi.Db.Orm.{Model, IsLawful, Ascending, Ascending-take}
use lorenzo_btcstaking_submi.Base.Members.{Perm-keep, take_of_length-lt}
use lorenzo_btcstaking_submi.Base.{
  List, inl, inr, take, ok, some, length, length-take-le, All, All-take, keep,
}
use mathlib.Core.List.{Mem, Perm}
use native.Mathlib.Decide.{dec_lt}
use lorenzo_btcstaking_submi.Db.BtcRepository.{is_unhandled, get_unhandled_btc_deposit_txs}

-- How many blocks must lie on a deposit's block in the Lorenzo light client, by its amount.
pub wait : ℕ → ℕ
wait amount =
    if ltb amount dep0_amount
    then 0
    else if ltb amount dep1_amount
    then 1
    else if ltb amount dep2_amount
    then 2
    else if ltb amount dep3_amount
    then 3
    else 4

-- For a tip from 4 on and below 2^64, a deposit is handed out exactly when it is pending and either
-- below the smallest threshold or as deep as its amount asks: 1, 2, 3 or 4 blocks by its tier.
pub is_unhandled_iff :
    (tip : ℕ) (row : BtcDepositTx)
    → 4 ≤ tip
    → tip < u64_mod
    → (is_unhandled tip row ≡ true) ↔ (
        (row.status ≡ status_pending)
        × ((row.amount < dep0_amount) ⊎ (row.height + wait row.amount ≤ tip)))
unfolding is_unhandled wait sub_u64
is_unhandled_iff tip row low high = ground arith

-- Below a tip of 4 the subtraction wraps around: a pending deposit of the largest tier is handed
-- out whatever its height, up to 2^63.
pub is_unhandled_of_low_tip :
    (tip : ℕ) (row : BtcDepositTx)
    → tip < 4
    → row.status ≡ status_pending
    → dep3_amount ≤ row.amount
    → row.height < 2 ^ 63
    → is_unhandled tip row ≡ true
unfolding is_unhandled sub_u64
is_unhandled_of_low_tip tip row low pending large bounded = ground arith

module _ (db : Model BtcDepositTx) (lawful : IsLawful db) where
  -- On a database that obeys its laws, a batch that is handed out holds at most 50 deposits, by
  -- ascending height; each is in the table and unhandled; it has 50 or is a reordering of all
  -- unhandled deposits of the table.
  pub get_unhandled-Ascending :
      (tip : ℕ) (rows found : List BtcDepositTx)
      → get_unhandled_btc_deposit_txs db tip rows ≡ ok found
      → (length found ≤ 50)
        × Ascending (λ row. row.height) found
        × All (λ row. Mem row rows × (is_unhandled tip row ≡ true)) found
        × ((length found ≡ 50) ⊎ Perm found (keep (is_unhandled tip) rows))
  unfolding get_unhandled_btc_deposit_txs
  get_unhandled-Ascending tip rows found h =
      let (sorted, same, ascending, cut) =
        lawful.find_answers (is_unhandled tip) (λ row. row.height) (some 50) rows found h in
      rw cut (
        length-take-le 50 sorted,
        Ascending-take _ 50 sorted ascending,
        All-take _ 50 sorted (Perm-keep (is_unhandled tip) rows sorted same),
        elim (dec_lt (length (take 50 sorted)) 50) [
          | yes short ↦ inr (rw (take_of_length-lt 50 sorted short) same)
          | no full ↦ inl (omega (arith, length-take-le 50 sorted))
        ],
      )
