-- ===== src/TxRelayer/Scan/Round.antt =====
-- What one round of the scanner does to the tables.
use lorenzo_btcstaking_submi.Base.{
  ℕ, ◌+◌, ◌≤◌, ◌<◌, ◌≡◌, ◌⊎◌, refl, sym, ◌∙◌, inl, inr, eq_iff, List, [], ◌++◌, arith, ltb, u64_mod,
  add_u64, Bool-cases, Result, ok, done, then_run-done, Result-cases,
}
use mathlib.Core.Path.{subst}
use mathlib.Core.List.{append-nil}
use lorenzo_btcstaking_submi.Btc.Types.{MsgBlock}
use lorenzo_btcstaking_submi.Btc.Network.{Codec}
use lorenzo_btcstaking_submi.Btc.Query.{get_btc_current_height, get_block_by_height}
use lorenzo_btcstaking_submi.Btc.Utils.{Btcd}
use lorenzo_btcstaking_submi.Db.Types.{Config, BtcDepositTx, submitter_btc_sync_point_key}
use lorenzo_btcstaking_submi.Db.Orm.{IsLawful, Answers}
use lorenzo_btcstaking_submi.Db.Kv.SyncPoint.{stored, get_uint64-stored, stored-set_uint64}
use lorenzo_btcstaking_submi.Db.Insertion.{Covers}
use lorenzo_btcstaking_submi.Db.BtcRepository.{
  get_sync_point, update_sync_point, insert_btc_deposit_txs,
}
use lorenzo_btcstaking_submi.Db.BtcRepository.Deposits.{
  same_txid, insert_btc_deposit_txs-append, insert_btc_deposit_txs-Covers,
}
use lorenzo_btcstaking_submi.TxRelayer.Deposits.{get_valid_deposit_txs}
use lorenzo_btcstaking_submi.TxRelayer.Scan.{
  Relayer, RoundEnv, ScanState, store_block, scanner, handle_block, fetch_block, scan_block_round,
}

-- Both databases obey their laws.
pub record IsLawfulEnv (env : RoundEnv) : Type 0 where
  pub config_lawful : IsLawful env.config_db
  pub deposit_lawful : IsLawful env.deposit_db

abbrev pub sync_point_of : ScanState → Result ℕ
sync_point_of s = stored submitter_btc_sync_point_key s.configs

-- Deposits are only added, at the end.
abbrev pub Extends : ScanState → ScanState → Type 0
Extends s t = (added : List BtcDepositTx) × (t.deposits ≡ s.deposits ++ added)

pub Extends-refl : (s : ScanState) → Extends s s
Extends-refl s = ([], sym (append-nil s.deposits))

-- The sync point has moved to the height, and the table covers the block's deposits.
abbrev pub Stored : ℕ → List BtcDepositTx → ScanState → Type 0
Stored height txs t = (sync_point_of t ≡ ok height) × Covers same_txid t.deposits txs

module _ {PkScript Address : Type 0} (btcd : Btcd PkScript Address) (codec : Codec)
    (r : Relayer) where
  -- The round found a block deep enough and read its deposits.
  abbrev pub Scanned : RoundEnv → ℕ → List BtcDepositTx → Type 0
  Scanned env height txs =
      (tip : ℕ) × (block : MsgBlock) × (get_btc_current_height env.http codec r.btc_query ≡ ok tip)
      × (height + r.delay_blocks ≤ tip)
      × (get_block_by_height env.http codec r.btc_query height ≡ ok block)
      × (get_valid_deposit_txs btcd (scanner btcd codec r env) height block ≡ done txs)

module _ (env : RoundEnv) (lawful : IsLawfulEnv env) where
  pub update_sync_point-stored :
      (height : ℕ) (s : ScanState) (configs : List Config)
      → height < u64_mod
      → update_sync_point env.config_db height s.configs ≡ ok configs
      → stored submitter_btc_sync_point_key configs ≡ ok height
  unfolding update_sync_point
  update_sync_point-stored height s configs fits written = ground (
    arith,
    eq_iff submitter_btc_sync_point_key submitter_btc_sync_point_key,
    stored-set_uint64 env.config_db lawful.config_lawful submitter_btc_sync_point_key
        submitter_btc_sync_point_key height s.configs fits written,
  )

  store_block-Stored :
      (height : ℕ) (s : ScanState) (txs : List BtcDepositTx)
      → height < u64_mod
      → Extends s (store_block env height s txs)
        × ((sync_point_of (store_block env height s txs) ≡ sync_point_of s)
            ⊎ Stored height txs (store_block env height s txs))
  unfolding store_block
  store_block-Stored height s txs fits =
      elim (Result-cases (insert_btc_deposit_txs env.deposit_db txs s.deposits)) [
        | inr (e, failed) ↦
            let same : store_block env height s txs ≡ s = ground arith in
            rw same (Extends-refl s, inl refl)
        | inl (deposits, inserted) ↦
            let more =
              insert_btc_deposit_txs-append env.deposit_db lawful.deposit_lawful txs s.deposits
                deposits inserted in
            let covers =
              insert_btc_deposit_txs-Covers env.deposit_db lawful.deposit_lawful txs s.deposits
                deposits inserted in
            elim (Result-cases (update_sync_point env.config_db height s.configs)) [
              | inr (e, failed) ↦
                  let kept : store_block env height s txs ≡ record s { deposits = deposits } =
                    ground arith in
                  rw kept (more, inl refl)
              | inl (configs, written) ↦
                  let moved : store_block env height s txs
                      ≡ record { configs = configs; deposits = deposits } =
                    ground arith in
                  rw moved
                    (more, inr (update_sync_point-stored height s configs fits written, covers))
            ]
      ]

  pub get_sync_point-stored :
      (point : ℕ) (s : ScanState)
      → sync_point_of s ≡ ok point
      → Answers (get_sync_point env.config_db s.configs) (ok point)
  unfolding get_sync_point
  get_sync_point-stored point s at_point =
      rw at_point at (
        get_uint64-stored env.config_db lawful.config_lawful submitter_btc_sync_point_key s.configs)

  module _ {PkScript Address : Type 0} (btcd : Btcd PkScript Address) (codec : Codec)
      (r : Relayer) where
    pub next_height :
        (point : ℕ)
        → point + 1 + r.delay_blocks < u64_mod
        → (add_u64 point 1 ≡ point + 1)
          × (add_u64 (point + 1) r.delay_blocks ≡ point + 1 + r.delay_blocks)
    unfolding add_u64
    next_height point fits = omega arith

    abbrev Outcome : ℕ → ScanState → ScanState → Type 0
    Outcome point s t =
        Extends s t
        × ((sync_point_of t ≡ ok point)
            ⊎ ((txs : List BtcDepositTx) × Scanned btcd codec r env (point + 1) txs
                × Stored (point + 1) txs t))

    stays : (point : ℕ) (s t : ScanState) → sync_point_of s ≡ ok point → s ≡ t → Outcome point s t
    stays point s t at_point same = subst (Outcome point s) same (Extends-refl s, inl at_point)

    fetch_block-Scanned :
        (point tip : ℕ) (s t : ScanState)
        → sync_point_of s ≡ ok point
        → point + 1 < u64_mod
        → get_btc_current_height env.http codec r.btc_query ≡ ok tip
        → point + 1 + r.delay_blocks ≤ tip
        → fetch_block btcd codec r env (point + 1) s ≡ done t
        → Outcome point s t
    unfolding fetch_block handle_block
    fetch_block-Scanned point tip s t at_point fits height deep h =
        elim (Result-cases (get_block_by_height env.http codec r.btc_query (point + 1))) [
          | inr (e, failed) ↦ stays point s t at_point (ground arith)
          | inl (block, got) ↦
              let (txs, read, e) =
                then_run-done
                  (get_valid_deposit_txs btcd (scanner btcd codec r env) (point + 1) block) _
                  (rw (got, fetch_block) at h) in
              let (extends, change) = store_block-Stored (point + 1) s txs fits in
              let same : store_block env (point + 1) s txs ≡ t = ground arith in
              subst (Outcome point s) same (
                extends,
                elim change [
                  | inl kept ↦ inl (kept ∙ at_point)
                  | inr moved ↦ inr (txs, (tip, block, height, deep, got, read), moved)
                ],
              )
        ]

    -- With databases that obey their laws, a sync point at some height and no overflow, a round
    -- that returns adds deposits at most, and leaves the sync point where it was or moves it by
    -- one: then the new height has its confirmations, its block was read, and each deposit of the
    -- block is in the table.
    pub scan_block_round-Scanned :
        (point : ℕ) (s t : ScanState)
        → sync_point_of s ≡ ok point
        → point + 1 + r.delay_blocks < u64_mod
        → scan_block_round btcd codec r env s ≡ done t
        → Extends s t
          × ((sync_point_of t ≡ ok point)
              ⊎ ((txs : List BtcDepositTx) × Scanned btcd codec r env (point + 1) txs
                  × Stored (point + 1) txs t))
    unfolding scan_block_round
    scan_block_round-Scanned point s t at_point fits h =
        elim (Result-cases (get_btc_current_height env.http codec r.btc_query)) [
          | inr (e, failed) ↦ stays point s t at_point (ground arith)
          | inl (tip, height) ↦ elim (get_sync_point-stored point s at_point) [
            | inr (e, failed) ↦ stays point s t at_point (ground arith)
            | inl read ↦ elim (Bool-cases (ltb tip (point + 1 + r.delay_blocks))) [
              | inl shallow ↦
                  stays point s t at_point (ground (arith, next_height point fits, shallow))
              | inr deep ↦
                  fetch_block-Scanned point tip s t at_point (omega arith) height (ground arith)
                    (ground (arith, next_height point fits))
            ]
          ]
        ]
