-- ===== src/TxRelayer/Scan/Reached.antt =====
-- `scanBlockLoop` while the explorer and the databases answer.
use lorenzo_btcstaking_submi.Base.{
  ℕ, ◌+◌, ◌<◌, ◌≡◌, refl, ◌∙◌, List, [], ◌∷◌, arith, length, u64_mod, ok, done,
}
use lorenzo_btcstaking_submi.Btc.Network.{Codec}
use lorenzo_btcstaking_submi.Btc.Utils.{Btcd}
use lorenzo_btcstaking_submi.Db.Types.{BtcDepositTx, submitter_btc_sync_point_key}
use lorenzo_btcstaking_submi.Db.Insertion.{insert_new}
use lorenzo_btcstaking_submi.Db.Kv.{named}
use lorenzo_btcstaking_submi.Db.Kv.SyncPoint.{get_uint64-answered}
use lorenzo_btcstaking_submi.Db.Reliable.{IsReliable}
use lorenzo_btcstaking_submi.Db.BtcRepository.{get_sync_point}
use lorenzo_btcstaking_submi.Db.BtcRepository.Deposits.{same_txid}
use lorenzo_btcstaking_submi.Db.BtcRepository.Success.{
  insert_btc_deposit_txs-succeeds, update_sync_point-succeeds,
}
use lorenzo_btcstaking_submi.TxRelayer.Scan.{
  Relayer, RoundEnv, ScanState, store_block, handle_block, fetch_block, scan_block_round,
  scan_block_loop,
}
use lorenzo_btcstaking_submi.TxRelayer.Scan.Round.{
  IsLawfulEnv, sync_point_of, Scanned, update_sync_point-stored, next_height,
}

-- Both databases obey their laws, and no statement fails.
pub record IsReliableEnv (env : RoundEnv) : Type 0 where
  pub lawful : IsLawfulEnv env
  pub config_reliable : IsReliable env.config_db
  pub deposit_reliable : IsReliable env.deposit_db

store_block-reaches :
    (env : RoundEnv) (height : ℕ) (s : ScanState) (txs : List BtcDepositTx)
    → IsReliableEnv env
    → height < u64_mod
    → sync_point_of (store_block env height s txs) ≡ ok height
unfolding store_block
store_block-reaches env height s txs reliable fits =
    let inserted =
      insert_btc_deposit_txs-succeeds env.deposit_db txs s.deposits reliable.deposit_reliable in
    let (configs, written) =
      update_sync_point-succeeds env.config_db height s.configs reliable.config_reliable in
    let t : ScanState = record {
      configs = configs;
      deposits = insert_new same_txid txs s.deposits;
    } in
    let moved : store_block env height s txs ≡ t = ground (arith, inserted, written) in
    rw moved (update_sync_point-stored env reliable.lawful height s configs fits written)

get_sync_point-reliable :
    (env : RoundEnv) (point : ℕ) (s : ScanState)
    → IsReliableEnv env
    → sync_point_of s ≡ ok point
    → get_sync_point env.config_db s.configs ≡ ok point
unfolding get_sync_point
get_sync_point-reliable env point s reliable at_point =
    get_uint64-answered env.config_db submitter_btc_sync_point_key s.configs
      (reliable.config_reliable.first_replies (named submitter_btc_sync_point_key) s.configs)
    ∙ at_point

module _ {PkScript Address : Type 0} (btcd : Btcd PkScript Address) (codec : Codec)
    (r : Relayer) where
  -- Each round finds the next block, from `height` on, and reads its deposits, and no statement
  -- fails.
  abbrev pub Answered : ℕ → List RoundEnv → Type 0
  Answered height [] = Unit
  Answered height (env ∷ envs) =
      IsReliableEnv env
      × ((txs : List BtcDepositTx) × Scanned btcd codec r env height txs)
      × Answered (height + 1) envs

  scan_block_round-reaches :
      (env : RoundEnv) (point : ℕ) (s : ScanState) (txs : List BtcDepositTx)
      → IsReliableEnv env
      → Scanned btcd codec r env (point + 1) txs
      → sync_point_of s ≡ ok point
      → point + 1 + r.delay_blocks < u64_mod
      → scan_block_round btcd codec r env s ≡ done (store_block env (point + 1) s txs)
  unfolding scan_block_round fetch_block handle_block
  scan_block_round-reaches env point s txs reliable (tip, block, height, deep, got, read) at_point
        fits =
      ground (
        arith,
        height,
        got,
        read,
        get_sync_point-reliable env point s reliable at_point,
        next_height env reliable.lawful btcd codec r point fits,
      )

  -- From a sync point on and with no overflow, a loop whose rounds find the next block with its
  -- confirmations and read its deposits, and in which no statement of the database fails, returns
  -- and has moved the sync point by one in every round.
  pub scan_block_loop-reaches :
      (envs : List RoundEnv) (point : ℕ) (s : ScanState)
      → Answered (point + 1) envs
      → sync_point_of s ≡ ok point
      → point + length envs + 1 + r.delay_blocks < u64_mod
      → (t : ScanState) × (scan_block_loop btcd codec r envs s ≡ done t)
        × (sync_point_of t ≡ ok (point + length envs))
  unfolding scan_block_loop
  scan_block_loop-reaches [] point s answered at_point fits = (s, refl, rw at_point (ground arith))
  scan_block_loop-reaches (env ∷ envs) point s (reliable, (txs, scanned), answered) at_point fits =
      let u = store_block env (point + 1) s txs in
      let one = scan_block_round-reaches env point s txs reliable scanned at_point (omega arith) in
      let at_next = store_block-reaches env (point + 1) s txs reliable (omega arith) in
      let (t, rest, reached) =
        scan_block_loop-reaches envs (point + 1) u answered at_next (omega arith) in
      (t, ground (arith, one, rest), reached ∙ ground arith)
