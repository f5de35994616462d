-- ===== src/TxRelayer/Bnb/Scan/NoGaps.antt =====
-- The heights that `scanLoop` of txrelayer/bnb_txrelayer.go passes.
use mathlib.Core.List.{append_assoc}
use native.Mathlib.Decide.{dec_le}
use lorenzo_btcstaking_submi.Base.{
  ℕ, ◌+◌, ◌≤◌, ◌<◌, ◌≡◌, ◌*◌, ◌⊎◌, refl, sym, ◌∙◌, inl, inr, List, [], ◌∷◌, ◌++◌, arith, u64_mod,
  length, All, Has, here, there, ok,
}
use lorenzo_btcstaking_submi.Db.Types.{WrappedBtcDepositTx}
use lorenzo_btcstaking_submi.Db.Insertion.{Covers, Covers-append}
use lorenzo_btcstaking_submi.Db.BnbRepository.Deposits.{same_chain_txid}
use lorenzo_btcstaking_submi.TxRelayer.Bnb.{Encoding, BnbRelayer}
use lorenzo_btcstaking_submi.TxRelayer.Bnb.Scan.{WindowEnv, WrappedState, scan_round, scan_loop}
use lorenzo_btcstaking_submi.TxRelayer.Bnb.Scan.Windows.{
  IsLawfulWindow, bnb_point_of, Grows, Grows-refl, ReadWindow, scan_round-Advance,
}

Grows-trans : (s t u : WrappedState) → Grows s t → Grows t u → Grows s u
Grows-trans s t u (first, e) (second, f) =
    (first ++ second, ground (arith, append_assoc s.wrapped first second))

Covers-Grows :
    (s t : WrappedState) (txs : List WrappedBtcDepositTx)
    → Grows s t
    → Covers same_chain_txid s.wrapped txs
    → Covers same_chain_txid t.wrapped txs
Covers-Grows s t txs (added, e) h = rw e (Covers-append same_chain_txid txs s.wrapped added h)

module _ {Body Proof : Type 0} (encoding : Encoding Body Proof) (r : BnbRelayer) where
  -- What a round does to the sync point, the move that it may make included.
  advance_point :
      (env : WindowEnv Body Proof)
      → IsLawfulWindow env
      → (point : ℕ) (s : WrappedState) → bnb_point_of s ≡ ok point
      → point + 1001 + r.delay_blocks < u64_mod
      → Grows s (scan_round encoding r env s)
        × ((mid : ℕ) × (bnb_point_of (scan_round encoding r env s) ≡ ok mid)
            × (point ≤ mid)
            × (mid ≤ point + 1000)
            × ((mid ≤ point)
                ⊎ ((txs : List WrappedBtcDepositTx) × ReadWindow encoding r env (point + 1) mid txs
                    × Covers same_chain_txid (scan_round encoding r env s).wrapped txs)))
  advance_point env law point s at_point fits =
      let (grown, change) = scan_round-Advance encoding r env law point s at_point fits in
      (
        grown,
        elim change [
          | inl same ↦ (point, same, omega arith, omega arith, inl (omega arith))
          | inr (end, txs, low, high, read, moved, covers) ↦
              (end, moved, omega arith, high, inr (txs, read, covers))
        ],
      )

  -- With databases that obey their laws in every round, a sync point that starts at some height and
  -- no overflow, the BNB scanner only adds rows, at the end, and its sync point never goes back and
  -- moves by 1000 in a round at most.
  pub scan_loop-Grows :
      (envs : List (WindowEnv Body Proof)) (point : ℕ) (s : WrappedState)
      → All IsLawfulWindow envs
      → bnb_point_of s ≡ ok point
      → point + 1000 * length envs + 1001 + r.delay_blocks < u64_mod
      → Grows s (scan_loop encoding r envs s)
        × ((reached : ℕ) × (bnb_point_of (scan_loop encoding r envs s) ≡ ok reached)
            × (point ≤ reached)
            × (reached ≤ point + 1000 * length envs))
  unfolding scan_loop
  scan_loop-Grows [] point s lawful at_point fits =
      (Grows-refl s, (point, at_point, omega arith, omega arith))
  scan_loop-Grows (env ∷ envs) point s (law, lawful) at_point fits =
      let u = scan_round encoding r env s in
      let (one, (mid, at_mid, low, high, _)) =
        advance_point env law point s at_point (omega arith) in
      let (more, (reached, e, low', high')) =
        scan_loop-Grows envs mid u lawful at_mid (omega arith) in
      (
        Grows-trans s u (scan_loop encoding r envs u) one more,
        (reached, e, omega arith, omega arith),
      )

  -- The BNB scanner leaves no gap: with databases that obey their laws in every round, a sync point
  -- that starts at some height and no overflow, for every height that the sync point has passed one
  -- of the rounds read the receipts of a window that holds the height and has its confirmations,
  -- and each deposit made of them is in the table.
  pub scan_loop-Covers :
      (envs : List (WindowEnv Body Proof)) (point reached height : ℕ) (s : WrappedState)
      → All IsLawfulWindow envs
      → bnb_point_of s ≡ ok point
      → point + 1000 * length envs + 1001 + r.delay_blocks < u64_mod
      → bnb_point_of (scan_loop encoding r envs s) ≡ ok reached
      → point < height
      → height ≤ reached
      → (env : WindowEnv Body Proof) × (start end : ℕ) × (txs : List WrappedBtcDepositTx) × Has
          (λ e. e ≡ env)
          envs
        × (start ≤ height)
        × (height ≤ end)
        × ReadWindow encoding r env start end txs
        × Covers same_chain_txid (scan_loop encoding r envs s).wrapped txs
  unfolding scan_loop
  scan_loop-Covers [] point reached height s lawful at_point fits ends above below =
      let at_end : ok reached ≡ ok point = sym ends ∙ at_point in absurd (ground arith)
  scan_loop-Covers (env ∷ envs) point reached height s (law, lawful) at_point fits ends above
        below =
      let u = scan_round encoding r env s in
      let (_, (mid, at_mid, low, high, why)) =
        advance_point env law point s at_point (omega arith) in
      elim (dec_le height mid) [
        | no beyond ↦
            let (env', start, end, txs, place, lo, hi, read, covers) =
              scan_loop-Covers envs mid reached height u lawful at_mid (omega arith) ends
                (omega arith) below in
            (env', start, end, txs, there place, lo, hi, read, covers)
        | yes passed ↦ elim why [
          | inl kept ↦ absurd (omega arith)
          | inr (txs, read, covers) ↦
              let (more, _) = scan_loop-Grows envs mid u lawful at_mid (omega arith) in
              (
                env,
                point + 1,
                mid,
                txs,
                here refl,
                omega arith,
                passed,
                read,
                Covers-Grows u (scan_loop encoding r envs u) txs more covers,
              )
        ]
      ]
