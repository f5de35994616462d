-- ===== src/TxRelayer/Bnb/Scan/Windows.antt =====
-- What one round of the BNB scanner does to the tables.
use native.Mathlib.Decide.{dec_le}
use mathlib.Core.Path.{subst}
use mathlib.Core.List.{append-nil}
use lorenzo_btcstaking_submi.Base.{
  ℕ, ◌+◌, ◌≤◌, ◌<◌, ◌≡◌, ◌⊎◌, refl, sym, ◌∙◌, inl, inr, eq_iff, List, [], ◌++◌, arith, leb, u64_mod,
  add_u64, sub_u64, Bool-cases, false, Result, ok, Result-cases,
}
use lorenzo_btcstaking_submi.Db.Types.{Config, WrappedBtcDepositTx, submitter_bnb_sync_point_key}
use lorenzo_btcstaking_submi.Db.Orm.{IsLawful, Answers, eq_of_Answers}
use lorenzo_btcstaking_submi.Db.Kv.SyncPoint.{stored, get_uint64-stored, stored-set_uint64}
use lorenzo_btcstaking_submi.Db.Insertion.{Covers, insert_new-append}
use lorenzo_btcstaking_submi.Db.BnbRepository.{
  get_sync_point, update_sync_point, insert_wrapped_btc_deposit_txs,
}
use lorenzo_btcstaking_submi.Db.BnbRepository.Deposits.{
  same_chain_txid, insert_wrapped-insert_new, insert_wrapped-Covers,
}
use lorenzo_btcstaking_submi.TxRelayer.Bnb.{ReceiptWithProof, Encoding, BnbRelayer, to_wrapped_list}
use lorenzo_btcstaking_submi.TxRelayer.Bnb.Scan.{
  WindowEnv, WrappedState, window_end, store_window, read_window, scan_round,
}

-- Both databases obey their laws, and the tip is a `uint64`.
pub record IsLawfulWindow {Body Proof : Type 0} (env : WindowEnv Body Proof) : Type 0 where
  pub config_lawful : IsLawful env.config_db
  pub wrapped_lawful : IsLawful env.wrapped_db
  pub tip_fits : env.client.block_number.0 < u64_mod

abbrev pub bnb_point_of : WrappedState → Result ℕ
bnb_point_of s = stored submitter_bnb_sync_point_key s.configs

-- Rows are only added, at the end.
abbrev pub Grows : WrappedState → WrappedState → Type 0
Grows s t = (added : List WrappedBtcDepositTx) × (t.wrapped ≡ s.wrapped ++ added)

pub Grows-refl : (s : WrappedState) → Grows s s
Grows-refl s = ([], sym (append-nil s.wrapped))

-- A window is not empty, holds 1000 heights at most and ends at the deepest block at most.
window_end-bounds :
    (start deepest : ℕ)
    → 1 ≤ start
    → start ≤ deepest
    → start + 1000 < u64_mod
    → deepest < u64_mod
    → (start ≤ window_end start deepest)
      × (window_end start deepest < start + 1000)
      × (window_end start deepest ≤ deepest)
unfolding window_end add_u64 sub_u64
window_end-bounds start deepest positive le fits fits' = ground arith

module _ {Body Proof : Type 0} (encoding : Encoding Body Proof) (r : BnbRelayer) where
  -- The round read the receipts of a window that is deep enough, and made rows of them.
  abbrev pub ReadWindow : WindowEnv Body Proof → ℕ → ℕ → List WrappedBtcDepositTx → Type 0
  ReadWindow env start end txs =
      (list : List (ReceiptWithProof Body Proof)) × (end + r.delay_blocks
        ≤ env.client.block_number.0)
      × (env.client.receipts_with_proof r.plan_stake_hub_address start end ≡ ok list)
      × (to_wrapped_list encoding r list ≡ ok txs)

  module _ (env : WindowEnv Body Proof) (lawful : IsLawfulWindow env) where
    pub update_bnb_point-stored :
        (height : ℕ) (s : WrappedState) (configs : List Config)
        → height < u64_mod
        → update_sync_point env.config_db height s.configs ≡ ok configs
        → stored submitter_bnb_sync_point_key configs ≡ ok height
    unfolding update_sync_point
    update_bnb_point-stored height s configs fits written = ground (
      arith,
      eq_iff submitter_bnb_sync_point_key submitter_bnb_sync_point_key,
      stored-set_uint64 env.config_db lawful.config_lawful submitter_bnb_sync_point_key
          submitter_bnb_sync_point_key height s.configs fits written,
    )

    pub get_bnb_point-stored :
        (point : ℕ) (s : WrappedState)
        → bnb_point_of s ≡ ok point
        → Answers (get_sync_point env.config_db s.configs) (ok point)
    unfolding get_sync_point
    get_bnb_point-stored point s at_point = rw at_point at (
        get_uint64-stored env.config_db lawful.config_lawful submitter_bnb_sync_point_key s.configs)

    -- What storing a window does: rows are added, and the sync point stays or moves to its end with
    -- all rows in the table.
    abbrev Kept : ℕ → List WrappedBtcDepositTx → WrappedState → WrappedState → Type 0
    Kept end txs s t =
        Grows s t
        × ((bnb_point_of t ≡ bnb_point_of s)
            ⊎ ((bnb_point_of t ≡ ok end) × Covers same_chain_txid t.wrapped txs))

    store_window-Kept :
        (end : ℕ) (s : WrappedState) (txs : List WrappedBtcDepositTx)
        → end < u64_mod
        → Kept end txs s (store_window encoding r env end s txs)
    unfolding store_window
    store_window-Kept end s txs fits =
        let becomes : (t : WrappedState)
            → store_window encoding r env end s txs ≡ t
            → Kept end txs s t
            → Kept end txs s (store_window encoding r env end s txs) =
          λ t e. subst (Kept end txs s) (sym e) in
        elim (Result-cases (insert_wrapped_btc_deposit_txs env.wrapped_db txs s.wrapped)) [
          | inr (e, failed) ↦ becomes s (ground arith) (Grows-refl s, inl refl)
          | inl (wrapped, inserted) ↦
              let done_rows =
                eq_of_Answers
                  (insert_wrapped-insert_new env.wrapped_db lawful.wrapped_lawful txs s.wrapped)
                  inserted in
              let (added, more) = insert_new-append same_chain_txid txs s.wrapped in
              let grown : Grows s (record s { wrapped = wrapped }) = (added, done_rows ∙ more) in
              elim (Result-cases (update_sync_point env.config_db end s.configs)) [
                | inr (e, failed) ↦
                    becomes (record s { wrapped = wrapped }) (ground arith) (grown, inl refl)
                | inl (configs, written) ↦
                    becomes (record { configs = configs; wrapped = wrapped }) (ground arith)
                      (
                        grown,
                        inr (
                          update_bnb_point-stored end s configs fits written,
                          insert_wrapped-Covers env.wrapped_db lawful.wrapped_lawful txs s.wrapped
                              wrapped inserted,
                        ),
                      )
              ]
        ]

    -- The bounds of a round's window, and that nothing in it wraps around.
    pub window-bounds :
        (point : ℕ)
        → point + 1001 + r.delay_blocks < u64_mod
        → leb env.client.block_number.0 (add_u64 point r.delay_blocks) ≡ false
        → (add_u64 point 1 ≡ point + 1)
          × ((end : ℕ) × (window_end (point + 1) (sub_u64 env.client.block_number.0 r.delay_blocks)
                ≡ end)
              × (point < end)
              × (end ≤ point + 1000)
              × (end + r.delay_blocks ≤ env.client.block_number.0))
    unfolding add_u64 sub_u64
    window-bounds point fits deep =
        let tip = env.client.block_number.0 in
        let tip_fits = lawful.tip_fits in
        let past : point + r.delay_blocks < tip = ground arith in
        let deepest : sub_u64 tip r.delay_blocks + r.delay_blocks ≡ tip = omega arith in
        let (low, high, deep_enough) =
          window_end-bounds (point + 1) (sub_u64 tip r.delay_blocks) (omega arith) (omega arith)
            (omega arith) (omega arith) in
        (
          omega arith,
          (
            window_end (point + 1) (sub_u64 tip r.delay_blocks),
            refl,
            omega arith,
            omega arith,
            omega arith,
          ),
        )

    -- A window of less than 1000 heights ends at the last height with its confirmations.
    pub window-full :
        (point : ℕ)
        → point + 1001 + r.delay_blocks < u64_mod
        → leb env.client.block_number.0 (add_u64 point r.delay_blocks) ≡ false
        → (window_end (point + 1) (sub_u64 env.client.block_number.0 r.delay_blocks) ≡ point + 1000)
          ⊎ (window_end (point + 1) (sub_u64 env.client.block_number.0 r.delay_blocks)
                + r.delay_blocks
              ≡ env.client.block_number.0)
    unfolding add_u64 sub_u64 window_end
    window-full point fits deep =
        let tip = env.client.block_number.0 in
        let tip_fits = lawful.tip_fits in
        let past : point + r.delay_blocks < tip = ground arith in
        elim (dec_le (point + 1001 + r.delay_blocks) tip) [
          | yes long ↦ inl (ground arith)
          | no short ↦ inr (ground arith)
        ]

    -- A round that moves the sync point has read a window of 1000 heights at most that starts
    -- after it and ends at the new one, with its confirmations.
    abbrev pub Advance : ℕ → WrappedState → WrappedState → Type 0
    Advance point s t =
        Grows s t
        × ((bnb_point_of t ≡ ok point)
            ⊎ ((end : ℕ) × (txs : List WrappedBtcDepositTx) × (point < end)
                × (end ≤ point + 1000)
                × ReadWindow env (point + 1) end txs
                × (bnb_point_of t ≡ ok end)
                × Covers same_chain_txid t.wrapped txs))

    read_window-Advance :
        (point end : ℕ) (s : WrappedState)
        → bnb_point_of s ≡ ok point
        → end < u64_mod
        → point < end
        → end ≤ point + 1000
        → end + r.delay_blocks ≤ env.client.block_number.0
        → Advance point s (read_window encoding r env (point + 1) end s)
    unfolding read_window
    read_window-Advance point end s at_point fits low high deep =
        let becomes : (t : WrappedState)
            → read_window encoding r env (point + 1) end s ≡ t
            → Advance point s t
            → Advance point s (read_window encoding r env (point + 1) end s) =
          λ t e. subst (Advance point s) (sym e) in
        elim (Result-cases
          (env.client.receipts_with_proof r.plan_stake_hub_address (point + 1) end)) [
            | inr (e, failed) ↦ becomes s (ground arith) (Grows-refl s, inl at_point)
            | inl (list, got) ↦ elim (Result-cases (to_wrapped_list encoding r list)) [
              | inr (e, failed) ↦ becomes s (ground arith) (Grows-refl s, inl at_point)
              | inl (txs, rows) ↦
                  let (grown, change) = store_window-Kept end s txs fits in
                  becomes (store_window encoding r env end s txs) (ground arith) (
                    grown,
                    elim change [
                      | inl same ↦ inl (same ∙ at_point)
                      | inr (moved, covers) ↦
                          inr (end, txs, low, high, (list, deep, got, rows), moved, covers)
                    ],
                  )
            ]
          ]

    pub scan_round-Advance :
        (point : ℕ) (s : WrappedState)
        → bnb_point_of s ≡ ok point
        → point + 1001 + r.delay_blocks < u64_mod
        → Advance point s (scan_round encoding r env s)
    unfolding scan_round
    scan_round-Advance point s at_point fits =
        let becomes : (t : WrappedState)
            → scan_round encoding r env s ≡ t
            → Advance point s t
            → Advance point s (scan_round encoding r env s) =
          λ t e. subst (Advance point s) (sym e) in
        elim (get_bnb_point-stored point s at_point) [
          | inr (e, failed) ↦ becomes s (ground arith) (Grows-refl s, inl at_point)
          | inl read ↦
              elim (Bool-cases (leb env.client.block_number.0 (add_u64 point r.delay_blocks))) [
                | inl shallow ↦ becomes s (ground arith) (Grows-refl s, inl at_point)
                | inr far ↦
                    let (next, (end, e, low, high, deep)) = window-bounds point fits far in
                    becomes (read_window encoding r env (point + 1) end s) (ground arith)
                      (read_window-Advance point end s at_point (omega arith) low high deep)
              ]
        ]
