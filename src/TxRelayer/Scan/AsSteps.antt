-- ===== src/TxRelayer/Scan/AsSteps.antt =====
-- A pass of `scanBlockLoop` of txrelayer/tx_relayer.go as steps of the relayer.
use mathlib.Core.Path.{subst}
use lorenzo_btcstaking_submi.Base.{
  ℕ, ◌+◌, ◌<◌, ◌≡◌, refl, sym, ap, inl, inr, none, some, List, [], ◌∷◌, All, arith, ltb, u64_mod,
  Bool-cases, ok, Result-cases, done, then_run-done,
}
use lorenzo_btcstaking_submi.Btc.Network.{Codec}
use lorenzo_btcstaking_submi.Btc.Query.{get_btc_current_height, get_block_by_height}
use lorenzo_btcstaking_submi.Btc.Utils.{Btcd}
use lorenzo_btcstaking_submi.Db.Types.{BtcDepositTx}
use lorenzo_btcstaking_submi.Db.BtcRepository.{
  get_sync_point, update_sync_point, insert_btc_deposit_txs,
}
use lorenzo_btcstaking_submi.TxRelayer.Deposits.{get_valid_deposit_txs}
use lorenzo_btcstaking_submi.TxRelayer.Lorenzo.{Keeper}
use lorenzo_btcstaking_submi.TxRelayer.Submit.{Submitter}
use lorenzo_btcstaking_submi.TxRelayer.Scan.{
  Relayer, RoundEnv, ScanState, scanner, store_block, handle_block, fetch_block, scan_block_round,
}
use lorenzo_btcstaking_submi.TxRelayer.Scan.Round.{
  IsLawfulEnv, sync_point_of, Scanned, get_sync_point-stored, next_height,
}
use lorenzo_btcstaking_submi.TxRelayer.Steps.{
  System, Act, scans, Step, insert_deposits, move_sync_point, keep_sync_point, Reach, start, next,
}

module _ {PkScript Address MerkleBlock : Type 0} (btcd : Btcd PkScript Address)
    (keeper : Keeper MerkleBlock) (codec : Codec) (r : Relayer) (submitter : Submitter)
    (env : RoundEnv) (lawful : IsLawfulEnv env) where
  -- The scanner's tables in the system, and the system with these tables and an idle scanner.
  abbrev pub tables : System → ScanState
  tables s = record { configs = s.configs; deposits = s.deposits }

  abbrev pub with_tables : System → ScanState → System
  with_tables s t = record s { configs = t.configs; deposits = t.deposits; storing = none }

  -- A run with steps of this pass only.
  abbrev pub Runs : System → System → Type 0
  Runs s t =
      (acts : List Act) × All (λ act. act ≡ scans env) acts
      × Reach btcd keeper codec r submitter s acts t

  more : (s t u : System) → Runs s t → Step btcd keeper codec r submitter t u (scans env) → Runs s u
  more s t u (acts, all, run) step = (scans env ∷ acts, (refl, all), next t run step)

  nothing : (s : System) → Runs s s
  nothing s = ([], tt, start)

  idle : (s : System) → s.storing ≡ none → with_tables s (tables s) ≡ s
  idle s e = ap (λ storing. record s { storing = storing }) (sym e)

  stand : (s : System) (t : ScanState) → s.storing ≡ none → tables s ≡ t → Runs s (with_tables s t)
  stand s t free e =
      subst (λ u. Runs s (with_tables s u)) e (subst (Runs s) (sym (idle s free)) (nothing s))

  store_block-Reach :
      (s : System) (point : ℕ) (txs : List BtcDepositTx)
      → s.storing ≡ none
      → get_sync_point env.config_db s.configs ≡ ok point
      → point + 1 < u64_mod
      → Scanned btcd codec r env (point + 1) txs
      → Runs s (with_tables s (store_block env (point + 1) (tables s) txs))
  unfolding store_block
  store_block-Reach s point txs free at_point fits scanned =
      elim (Result-cases (insert_btc_deposit_txs env.deposit_db txs s.deposits)) [
        | inr (e, failed) ↦ stand s (store_block env (point + 1) (tables s) txs) free (ground arith)
        | inl (rows, inserted) ↦
            let mid = record s { deposits = rows; storing = some (point + 1) } in
            let one = more s s mid (nothing s) (
              insert_deposits env point txs rows lawful free at_point fits scanned inserted refl) in
            elim (Result-cases (update_sync_point env.config_db (point + 1) s.configs)) [
              | inr (e, failed) ↦
                  let stop : Runs s (record mid { storing = none }) =
                    more s mid (record mid { storing = none }) one
                      (keep_sync_point env (point + 1) e refl failed refl) in
                  let same : record mid { storing = none }
                      ≡ with_tables s (store_block env (point + 1) (tables s) txs) =
                    ground arith in
                  subst (Runs s) same stop
              | inl (configs, written) ↦
                  let moved : Runs s (record mid { configs = configs; storing = none }) =
                    more s mid (record mid { configs = configs; storing = none }) one
                      (move_sync_point env (point + 1) configs lawful refl written refl) in
                  let same : record mid { configs = configs; storing = none }
                      ≡ with_tables s (store_block env (point + 1) (tables s) txs) =
                    ground arith in
                  subst (Runs s) same moved
            ]
      ]

  -- With databases that obey their laws, an idle scanner, a sync point at some height and no
  -- overflow, a pass of scanBlockLoop that returns is a run of steps of this pass alone, in the
  -- world that it has: from the system before it such steps lead to the system with the tables that
  -- the pass leaves.
  pub scan_block_round-Reach :
      (point : ℕ) (s : System) (t : ScanState)
      → s.storing ≡ none
      → sync_point_of (tables s) ≡ ok point
      → point + 1 + r.delay_blocks < u64_mod
      → scan_block_round btcd codec r env (tables s) ≡ done t
      → Runs s (with_tables s t)
  unfolding scan_block_round fetch_block handle_block
  scan_block_round-Reach point s t free at_point fits h =
      elim (Result-cases (get_btc_current_height env.http codec r.btc_query)) [
        | inr (e, failed) ↦ stand s t free (ground arith)
        | inl (tip, height) ↦ elim (get_sync_point-stored env lawful point (tables s) at_point) [
          | inr (e, failed) ↦ stand s t free (ground arith)
          | inl read ↦ elim (Bool-cases (ltb tip (point + 1 + r.delay_blocks))) [
            | inl shallow ↦
                stand s t free
                  (ground (arith, next_height env lawful btcd codec r point fits, shallow))
            | inr deep ↦
                elim (Result-cases (get_block_by_height env.http codec r.btc_query (point + 1))) [
                  | inr (e, failed) ↦
                      stand s t free
                        (ground (arith, next_height env lawful btcd codec r point fits, deep))
                  | inl (block, got) ↦
                      let handled : handle_block btcd codec r env (point + 1) block (tables s)
                          ≡ done t =
                        ground (arith, next_height env lawful btcd codec r point fits, deep) in
                      let (txs, found, e) =
                        then_run-done
                          (get_valid_deposit_txs btcd (scanner btcd codec r env) (point + 1) block)
                          _ handled in
                      let same : store_block env (point + 1) (tables s) txs ≡ t = ground arith in
                      subst (λ u. Runs s (with_tables s u)) same
                        (store_block-Reach s point txs free read (omega arith)
                          (tip, block, height, ground arith, got, found))
                ]
          ]
        ]
      ]
