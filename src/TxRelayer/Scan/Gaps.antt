-- ===== src/TxRelayer/Scan/Gaps.antt =====
-- The heights that `scanBlockLoop` of txrelayer/tx_relayer.go passes.
use lorenzo_btcstaking_submi.Base.{
  ℕ, ◌+◌, ◌≤◌, ◌<◌, ◌≡◌, ◌⊎◌, refl, ◌∙◌, sym, inl, inr, List, [], ◌∷◌, ◌++◌, arith, length, All,
  Has, here, there, u64_mod, ok, done, then_run-done,
}
use mathlib.Core.Path.{subst}
use mathlib.Core.List.{append_assoc}
use native.Mathlib.Decide.{dec_le}
use lorenzo_btcstaking_submi.Btc.Network.{Codec}
use lorenzo_btcstaking_submi.Btc.Utils.{Btcd}
use lorenzo_btcstaking_submi.Db.Types.{BtcDepositTx}
use lorenzo_btcstaking_submi.Db.Insertion.{Covers, Covers-append}
use lorenzo_btcstaking_submi.Db.BtcRepository.Deposits.{same_txid}
use lorenzo_btcstaking_submi.TxRelayer.Scan.{
  Relayer, RoundEnv, ScanState, scan_block_round, scan_block_loop,
}
use lorenzo_btcstaking_submi.TxRelayer.Scan.Round.{
  IsLawfulEnv, sync_point_of, Extends, Extends-refl, Scanned, scan_block_round-Scanned,
}

Extends-trans : (s t u : ScanState) → Extends s t → Extends t u → Extends s u
Extends-trans s t u (first, e) (second, f) =
    (first ++ second, ground (arith, append_assoc s.deposits first second))

Covers-Extends :
    (s t : ScanState) (txs : List BtcDepositTx)
    → Extends s t
    → Covers same_txid s.deposits txs
    → Covers same_txid t.deposits txs
Covers-Extends s t txs (added, e) h = rw e (Covers-append same_txid txs s.deposits added h)

module _ {PkScript Address : Type 0} (btcd : Btcd PkScript Address) (codec : Codec)
    (r : Relayer) where
  round_point :
      (env : RoundEnv)
      → IsLawfulEnv env
      → (point : ℕ) (s u : ScanState) → sync_point_of s ≡ ok point
      → point + 1 + r.delay_blocks < u64_mod
      → scan_block_round btcd codec r env s ≡ done u
      → Extends s u
        × ((mid : ℕ) × (sync_point_of u ≡ ok mid)
            × (point ≤ mid)
            × (mid ≤ point + 1)
            × ((mid ≤ point)
                ⊎ ((txs : List BtcDepositTx) × Scanned btcd codec r env (point + 1) txs
                    × Covers same_txid u.deposits txs)))
  round_point env law point s u at_point fits h =
      let (extends, change) =
        scan_block_round-Scanned env law btcd codec r point s u at_point fits h in
      elim change [
        | inl kept ↦ (extends, (point, kept, omega arith, omega arith, inl (omega arith)))
        | inr (txs, scanned, (moved, covers)) ↦
            (extends, (point + 1, moved, omega arith, omega arith, inr (txs, scanned, covers)))
      ]

  -- With databases that obey their laws in every round, a sync point that starts at some height, no
  -- overflow of the heights, and a loop that returns, the deposits are only added to, at the end,
  -- and the sync point never goes back and moves by one in a round at most.
  pub scan_block_loop-Extends :
      (envs : List RoundEnv) (point : ℕ) (s t : ScanState)
      → All IsLawfulEnv envs
      → sync_point_of s ≡ ok point
      → point + length envs + 1 + r.delay_blocks < u64_mod
      → scan_block_loop btcd codec r envs s ≡ done t
      → Extends s t
        × ((reached : ℕ) × (sync_point_of t ≡ ok reached)
            × (point ≤ reached)
            × (reached ≤ point + length envs))
  unfolding scan_block_loop
  scan_block_loop-Extends [] point s t lawful at_point fits h =
      let same : s ≡ t = ground arith in
      (
        subst (Extends s) same (Extends-refl s),
        (point, subst (λ u. sync_point_of u ≡ ok point) same at_point, omega arith, omega arith),
      )
  scan_block_loop-Extends (env ∷ envs) point s t (law, lawful) at_point fits h =
      let (u, one, rest) = then_run-done (scan_block_round btcd codec r env s) _ h in
      let (extends, (mid, at_mid, low, high, why)) =
        round_point env law point s u at_point (omega arith) one in
      let (more, (reached, e, low', high')) =
        scan_block_loop-Extends envs mid u t lawful at_mid (omega arith) rest in
      (Extends-trans s u t extends more, (reached, e, omega arith, omega arith))

  -- No block is skipped: with databases that obey their laws in every round, a sync point that
  -- starts at some height, no overflow of the heights, and a loop that returns, every height that
  -- the sync point has passed is one for which a round of the loop found the block with its
  -- confirmations and read its deposits, and each of these deposits is in the table at the end.
  pub scan_block_loop-Covers :
      (envs : List RoundEnv) (point reached height : ℕ) (s t : ScanState)
      → All IsLawfulEnv envs
      → sync_point_of s ≡ ok point
      → point + length envs + 1 + r.delay_blocks < u64_mod
      → scan_block_loop btcd codec r envs s ≡ done t
      → sync_point_of t ≡ ok reached
      → point < height
      → height ≤ reached
      → (env : RoundEnv) × (txs : List BtcDepositTx) × Has (λ e. e ≡ env) envs
        × Scanned btcd codec r env height txs
        × Covers same_txid t.deposits txs
  unfolding scan_block_loop
  scan_block_loop-Covers [] point reached height s t lawful at_point fits h ends above below =
      let same : s ≡ t = ground arith in
      let at_end : ok reached ≡ ok point =
        sym ends ∙ subst (λ u. sync_point_of u ≡ ok point) same at_point in
      absurd (ground arith)
  scan_block_loop-Covers (env ∷ envs) point reached height s t (law, lawful) at_point fits h ends
        above below =
      let (u, one, rest) = then_run-done (scan_block_round btcd codec r env s) _ h in
      let (_, (mid, at_mid, low, high, why)) =
        round_point env law point s u at_point (omega arith) one in
      elim (dec_le height mid) [
        | no beyond ↦
            let (env', txs, place, scanned, covers) =
              scan_block_loop-Covers envs mid reached height u t lawful at_mid (omega arith) rest
                ends (omega arith) below in
            (env', txs, there place, scanned, covers)
        | yes passed ↦ elim why [
          | inl kept ↦ absurd (omega arith)
          | inr (txs, scanned, covers) ↦
              let next : point + 1 ≡ height = omega arith in
              let (more, _) =
                scan_block_loop-Extends envs mid u t lawful at_mid (omega arith) rest in
              (
                env,
                txs,
                here refl,
                subst (λ n. Scanned btcd codec r env n txs) next scanned,
                Covers-Extends u t txs more covers,
              )
        ]
      ]
