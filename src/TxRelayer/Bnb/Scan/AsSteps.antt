-- ===== src/TxRelayer/Bnb/Scan/AsSteps.antt =====
-- A pass of `scanLoop` of txrelayer/bnb_txrelayer.go as steps of the BNB relayer.
use mathlib.Core.Path.{subst}
use lorenzo_btcstaking_submi.Base.{
  ℕ, ◌+◌, ◌<◌, ◌≡◌, ◌⊎◌, ◌∙◌, refl, sym, ap, inl, inr, none, some, List, [], ◌∷◌, All, arith, false,
  leb, u64_mod, add_u64, sub_u64, Bool-cases, ok, Result-cases,
}
use lorenzo_btcstaking_submi.Db.Types.{WrappedBtcDepositTx}
use lorenzo_btcstaking_submi.Db.BnbRepository.{
  get_sync_point, update_sync_point, insert_wrapped_btc_deposit_txs,
}
use lorenzo_btcstaking_submi.TxRelayer.Bnb.{ReceiptWithProof, Encoding, BnbRelayer, to_wrapped_list}
use lorenzo_btcstaking_submi.TxRelayer.Bnb.Scan.{
  WindowEnv, WrappedState, window_end, store_window, read_window, scan_round,
}
use lorenzo_btcstaking_submi.TxRelayer.Bnb.Scan.Windows.{
  IsLawfulWindow, bnb_point_of, window-bounds, window-full, get_bnb_point-stored,
}
use lorenzo_btcstaking_submi.TxRelayer.Bnb.Steps.{
  BnbSystem, Window, BnbAct, reads, BnbStep, insert_window, move_bnb_point, keep_bnb_point,
  BnbReach, start, next,
}
use lorenzo_btcstaking_submi.TxRelayer.Bnb.Steps.Gaps.{bnb_tables}

-- The system with the scanner's tables and an idle scanner.
abbrev pub with_bnb_tables : BnbSystem → WrappedState → BnbSystem
with_bnb_tables s t = record s { configs = t.configs; wrapped = t.wrapped; storing = none }

module _ {Body Proof : Type 0} (encoding : Encoding Body Proof) (r : BnbRelayer) where
  module _ (env : WindowEnv Body Proof) (lawful : IsLawfulWindow env) where
    -- A run with steps of this pass only.
    abbrev pub Runs : BnbSystem → BnbSystem → Type 0
    Runs s t =
        (acts : List (BnbAct Body Proof)) × All (λ act. act ≡ reads env) acts
        × BnbReach encoding r s acts t

    more : (s t u : BnbSystem) → Runs s t → BnbStep encoding r t u (reads env) → Runs s u
    more s t u (acts, all, run) step = (reads env ∷ acts, (refl, all), next t run step)

    nothing : (s : BnbSystem) → Runs s s
    nothing s = ([], tt, start)

    stand :
        (s : BnbSystem) (t : WrappedState)
        → s.storing ≡ none
        → bnb_tables s ≡ t
        → Runs s (with_bnb_tables s t)
    stand s t free e =
        let idle : with_bnb_tables s (bnb_tables s) ≡ s =
          ap (λ storing. record s { storing = storing }) (sym free) in
        subst (λ u. Runs s (with_bnb_tables s u)) e (subst (Runs s) (sym idle) (nothing s))

    store_window-Reach :
        (s : BnbSystem) (point end : ℕ) (txs : List WrappedBtcDepositTx)
        → s.storing ≡ none
        → get_sync_point env.config_db s.configs ≡ ok point
        → point + 1001 + r.delay_blocks < u64_mod
        → Window encoding r env point end txs
        → Runs s (with_bnb_tables s (store_window encoding r env end (bnb_tables s) txs))
    unfolding store_window
    store_window-Reach s point end txs free at_point fits read =
        let after = with_bnb_tables s (store_window encoding r env end (bnb_tables s) txs) in
        elim (Result-cases (insert_wrapped_btc_deposit_txs env.wrapped_db txs s.wrapped)) [
          | inr (e, failed) ↦
              stand s (store_window encoding r env end (bnb_tables s) txs) free (ground arith)
          | inl (rows, inserted) ↦
              let mid = record s { wrapped = rows; storing = some end } in
              let one = more s s mid (nothing s) (
                insert_window env point end txs rows lawful free at_point fits read inserted
                  refl) in
              elim (Result-cases (update_sync_point env.config_db end s.configs)) [
                | inr (e, failed) ↦
                    let stop : Runs s (record mid { storing = none }) =
                      more s mid (record mid { storing = none }) one
                        (keep_bnb_point env end e refl failed refl) in
                    let same : record mid { storing = none } ≡ after = ground arith in
                    subst (Runs s) same stop
                | inl (configs, written) ↦
                    let moved : Runs s (record mid { configs = configs; storing = none }) =
                      more s mid (record mid { configs = configs; storing = none }) one
                        (move_bnb_point env end configs lawful refl written refl) in
                    let same : record mid { configs = configs; storing = none } ≡ after =
                      ground arith in
                    subst (Runs s) same moved
              ]
        ]

    scan_round-Window :
        (point : ℕ) (list : List (ReceiptWithProof Body Proof)) (txs : List WrappedBtcDepositTx)
        → point + 1001 + r.delay_blocks < u64_mod
        → leb env.client.block_number.0 (add_u64 point r.delay_blocks) ≡ false
        → env.client.receipts_with_proof r.plan_stake_hub_address
            (add_u64 point 1)
            (window_end (add_u64 point 1) (sub_u64 env.client.block_number.0 r.delay_blocks))
          ≡ ok list
        → to_wrapped_list encoding r list ≡ ok txs
        → Window encoding r env point
            (window_end (add_u64 point 1) (sub_u64 env.client.block_number.0 r.delay_blocks))
            txs
    scan_round-Window point list txs fits deep got made =
        let deepest = sub_u64 env.client.block_number.0 r.delay_blocks in
        let (next_one, (last, f, low, high, confirmed)) =
          window-bounds encoding r env lawful point fits deep in
        let full = window-full encoding r env lawful point fits deep in
        let e : window_end (add_u64 point 1) deepest ≡ last =
          ap (λ n. window_end n deepest) next_one ∙ f in
        let got' : env.client.receipts_with_proof r.plan_stake_hub_address (point + 1) last
            ≡ ok list =
          subst (λ n. env.client.receipts_with_proof r.plan_stake_hub_address n last ≡ ok list)
            next_one
            (subst
              (λ n.
                env.client.receipts_with_proof r.plan_stake_hub_address (add_u64 point 1) n
                ≡ ok list)
              e got) in
        let full' : (last ≡ point + 1000) ⊎ (last + r.delay_blocks ≡ env.client.block_number.0) =
          subst (λ n. (n ≡ point + 1000) ⊎ (n + r.delay_blocks ≡ env.client.block_number.0)) f
            full in
        subst (λ n. Window encoding r env point n txs) (sym e)
          (low, high, full', (list, confirmed, got', made))

    -- With databases that obey their laws, an idle scanner, a sync point at some height and no
    -- overflow, a pass of the BNB scanner is a run of steps of this pass alone, in the world that
    -- it has: from the system before it such steps lead to the system with the tables that the pass
    -- leaves. A step that inserts rows takes them from the window right after the sync point, with
    -- its confirmations, of 1000 heights or else up to the last height that has them.
    pub scan_round-Reach :
        (point : ℕ) (s : BnbSystem)
        → s.storing ≡ none
        → bnb_point_of (bnb_tables s) ≡ ok point
        → point + 1001 + r.delay_blocks < u64_mod
        → Runs s (with_bnb_tables s (scan_round encoding r env (bnb_tables s)))
    unfolding scan_round read_window
    scan_round-Reach point s free at_point fits =
        let t = scan_round encoding r env (bnb_tables s) in
        let end = window_end (add_u64 point 1) (sub_u64 env.client.block_number.0 r.delay_blocks) in
        elim (get_bnb_point-stored encoding r env lawful point (bnb_tables s) at_point) [
          | inr (e, failed) ↦ stand s t free (ground arith)
          | inl at_read ↦
              elim (Bool-cases (leb env.client.block_number.0 (add_u64 point r.delay_blocks))) [
                | inl shallow ↦ stand s t free (ground arith)
                | inr deep ↦
                    elim (Result-cases (
                      env.client.receipts_with_proof r.plan_stake_hub_address (add_u64 point 1)
                        end)) [
                          | inr (e, failed) ↦ stand s t free (ground arith)
                          | inl (list, got) ↦
                              elim (Result-cases (to_wrapped_list encoding r list)) [
                                | inr (e, failed) ↦ stand s t free (ground arith)
                                | inl (txs, made) ↦
                                    let same : store_window encoding r env end (bnb_tables s) txs
                                        ≡ t =
                                      ground arith in
                                    subst (λ u. Runs s (with_bnb_tables s u)) same
                                      (store_window-Reach s point end txs free at_read fits
                                        (scan_round-Window point list txs fits deep got made))
                              ]
                        ]
              ]
        ]
