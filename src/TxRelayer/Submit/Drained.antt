-- ===== src/TxRelayer/Submit/Drained.antt =====
-- How many passes `submitLoop` of txrelayer/tx_relayer.go needs for the deposits that wait.
use mathlib.Core.List.{Mem, Perm, mem-cons_self, not-mem-nil}
use mathlib.Core.List.Perm
use lorenzo_btcstaking_submi.Base.{
  ℕ, ◌≤◌, ◌<◌, ◌≡◌, ◌⊎◌, refl, ap, inl, inr, true, List, [], ◌∷◌, arith, All, Each, keep, length,
  ok,
}
use lorenzo_btcstaking_submi.Base.Members.{All-Mem}
use lorenzo_btcstaking_submi.Btc.Network.{Codec}
use lorenzo_btcstaking_submi.Db.Types.{BtcDepositTx}
use lorenzo_btcstaking_submi.Db.Orm.{IsLawful}
use lorenzo_btcstaking_submi.Db.Reliable.{IsReliable}
use lorenzo_btcstaking_submi.Db.Insertion.{Distinct}
use lorenzo_btcstaking_submi.Db.BtcRepository.{is_unhandled, get_unhandled_btc_deposit_txs}
use lorenzo_btcstaking_submi.Db.BtcRepository.Columns.{btc_columns-IsColumns}
use lorenzo_btcstaking_submi.Db.BtcRepository.Deposits.{same_txid}
use lorenzo_btcstaking_submi.Db.BtcRepository.Unhandled.{get_unhandled-Ascending}
use lorenzo_btcstaking_submi.TxRelayer.Lorenzo.{Keeper}
use lorenzo_btcstaking_submi.TxRelayer.Submit.{
  Submitter, SubmitEnv, SubmitState, submit_round, submit_loop,
}
use lorenzo_btcstaking_submi.TxRelayer.Submit.Final.{Progress, submit_round-Progress}
use lorenzo_btcstaking_submi.TxRelayer.Submit.Clears.{IsDecisive, submit_round-Clears}
use lorenzo_btcstaking_submi.TxRelayer.Submit.Waiting.{
  waiting, waiting-le, waiting-lt, Distinct-Progress, All-Progress,
}

module _ {MerkleBlock : Type 0} (keeper : Keeper MerkleBlock) (codec : Codec) (r : Submitter) where
  -- The database and the light client answer, and for each of the rows every service does and the
  -- node does not say to try again.
  pub record IsServing (tip : ℕ) (rows : List BtcDepositTx) (env : SubmitEnv) : Type 0 where
    pub reliable : IsReliable env.deposit_db
    pub lawful : IsLawful env.deposit_db
    pub at_tip : env.lorenzo.btc_header_chain_tip ≡ ok tip
    pub finds :
        (table : List BtcDepositTx)
        → (found : List BtcDepositTx) × (get_unhandled_btc_deposit_txs env.deposit_db tip table
            ≡ ok found)
    pub decides : All (λ t. IsDecisive keeper codec r env t.txid) rows

  batch-decides :
      (env : SubmitEnv) (tip : ℕ) (rows txs : List BtcDepositTx)
      → All (λ t. IsDecisive keeper codec r env t.txid) rows
      → All (λ t. Mem t rows × (is_unhandled tip t ≡ true)) txs
      → All (λ t. IsDecisive keeper codec r env t.txid) txs
  batch-decides env tip rows [] all h = tt
  batch-decides env tip rows (t ∷ txs) all ((m, _), h) = (
    All-Mem btc_columns-IsColumns.row_discrete (λ o. IsDecisive keeper codec r env o.txid) t rows
        all m,
    batch-decides env tip rows txs all h,
  )

  -- A batch that is not empty makes fewer rows wait.
  batch-drains :
      (env : SubmitEnv) (tip : ℕ) (s : SubmitState) (found : List BtcDepositTx)
      → IsServing tip s.deposits env
      → Distinct same_txid s.deposits
      → get_unhandled_btc_deposit_txs env.deposit_db tip s.deposits ≡ ok found
      → (keep (is_unhandled tip) s.deposits ≡ [])
        ⊎ (waiting tip (submit_round keeper codec r env s).deposits < waiting tip s.deposits)
  batch-drains env tip s [] serving distinct h =
      let (_, _, _, why) =
        get_unhandled-Ascending env.deposit_db serving.lawful tip s.deposits [] h in
      elim why [
        | inl full ↦ absurd (omega arith)
        | inr same ↦ inl (none_kept (keep (is_unhandled tip) s.deposits) same)
      ]
    where
      none_kept : (kept : List BtcDepositTx) → Perm [] kept → kept ≡ []
      none_kept [] same = refl
      none_kept (row ∷ kept) same = absurd (not-mem-nil ((Perm.mem_iff same).1 mem-cons_self))
  batch-drains env tip s (t ∷ found) serving distinct h =
      let (_, _, all, _) =
        get_unhandled-Ascending env.deposit_db serving.lawful tip s.deposits (t ∷ found) h in
      let ((m, waits), _) = all in
      let (settled, _) =
        submit_round-Clears keeper codec r env serving.reliable tip (t ∷ found) s serving.lawful
          serving.at_tip h (batch-decides env tip s.deposits (t ∷ found) serving.decides all) in
      inr (
        waiting-lt keeper codec r env tip t s.deposits (submit_round keeper codec r env s).deposits
          (submit_round-Progress keeper codec r env serving.lawful s distinct) distinct m waits
          settled)

  All-IsServing :
      (env : SubmitEnv) (tip : ℕ) (rows after : List BtcDepositTx) (envs : List SubmitEnv)
      → Each (Progress keeper codec r env) rows after
      → All (IsServing tip rows) envs
      → All (IsServing tip after) envs
  All-IsServing env tip rows after [] h all = tt
  All-IsServing env tip rows after (e ∷ envs) h (serving, all) = (
    record {
      reliable = serving.reliable;
      lawful = serving.lawful;
      at_tip = serving.at_tip;
      finds = serving.finds;
      decides =
          All-Progress keeper codec r env tip (λ txid. IsDecisive keeper codec r e txid) rows after
            h serving.decides;
    },
    All-IsServing env tip rows after envs h all,
  )

  -- The backlog drains: where in every pass the database and the light client answer, with one tip,
  -- and for each deposit of the table every service answers and the node does not say to try again,
  -- as many passes of the submitter as there are unhandled deposits leave none unhandled, from a
  -- table with no two rows of one txid.
  pub submit_loop-Drains :
      (envs : List SubmitEnv) (tip : ℕ) (s : SubmitState)
      → All (IsServing tip s.deposits) envs
      → Distinct same_txid s.deposits
      → length (keep (is_unhandled tip) s.deposits) ≤ length envs
      → keep (is_unhandled tip) (submit_loop keeper codec r envs s).deposits ≡ []
  unfolding submit_loop
  submit_loop-Drains [] tip s all distinct few = nothing (keep (is_unhandled tip) s.deposits) few
    where
      nothing : (kept : List BtcDepositTx) → length kept ≤ 0 → kept ≡ []
      nothing [] few = refl
      nothing (row ∷ kept) few = absurd (omega arith)
  submit_loop-Drains (env ∷ envs) tip s (serving, all) distinct few =
      let u = submit_round keeper codec r env s in
      let progress = submit_round-Progress keeper codec r env serving.lawful s distinct in
      let (found, h) = serving.finds s.deposits in
      let less = waiting-le keeper codec r env tip s.deposits u.deposits progress in
      let fewer : waiting tip u.deposits ≤ length envs =
        elim (batch-drains env tip s found serving distinct h) [
          | inl none_waits ↦
              let none_now : waiting tip s.deposits ≡ 0 = ap length none_waits in omega arith
          | inr drained ↦ omega arith
        ] in
      submit_loop-Drains envs tip u (All-IsServing env tip s.deposits u.deposits envs progress all)
        (Distinct-Progress keeper codec r env tip s.deposits u.deposits progress distinct) fewer
