-- ===== src/TxRelayer/Submit/Final.antt =====
-- A round of the submitter, for a table without two rows of one txid.
use lorenzo_btcstaking_submi.Base.{
  ℕ, ◌≡◌, refl, sym, ◌∙◌, ap, ◌⊎◌, inl, inr, str_eq, eq_iff, true, List, [], ◌∷◌, arith, Bool-cases,
  Result-cases, All, Each, Each-refl,
}
use mathlib.Core.Path.{subst}
use mathlib.Core.List.{Mem}
use lorenzo_btcstaking_submi.Base.Members.{All-of_mem}
use lorenzo_btcstaking_submi.Btc.Network.{Codec}
use lorenzo_btcstaking_submi.Db.Types.{BtcDepositTx, status_pending}
use lorenzo_btcstaking_submi.Db.Orm.{IsLawful}
use lorenzo_btcstaking_submi.Db.Insertion.{Distinct}
use lorenzo_btcstaking_submi.Db.BtcRepository.{is_unhandled, get_unhandled_btc_deposit_txs}
use lorenzo_btcstaking_submi.Db.BtcRepository.Deposits.{same_txid}
use lorenzo_btcstaking_submi.Db.Queue.Rows.{unique_row}
use lorenzo_btcstaking_submi.Db.BtcRepository.Columns.{btc_columns-IsColumns, unhandled-pending}
use lorenzo_btcstaking_submi.Db.BtcRepository.Unhandled.{get_unhandled-Ascending}
use lorenzo_btcstaking_submi.TxRelayer.Lorenzo.{Keeper}
use lorenzo_btcstaking_submi.TxRelayer.Submit.{
  Submitter, SubmitEnv, SubmitState, submit_tx, submit_txs, submit_round,
}
use lorenzo_btcstaking_submi.TxRelayer.Submit.Marks.{marked, Justified, submit_tx-Handled}

module _ {MerkleBlock : Type 0} (keeper : Keeper MerkleBlock) (codec : Codec) (r : Submitter)
    (env : SubmitEnv) where
  -- The row as it was, or a pending row with a new status for which there is a reason.
  abbrev pub Progress : BtcDepositTx → BtcDepositTx → Type 0
  Progress before after =
      (after ≡ before)
      ⊎ ((status : ℕ) × (before.status ≡ status_pending)
          × (after ≡ record before { status = status })
          × Justified keeper codec r env before status)

  mark-Progress :
      (tx o c : BtcDepositTx) (status : ℕ)
      → (tx.txid ≡ o.txid → o ≡ tx)
      → tx.status ≡ status_pending
      → Justified keeper codec r env tx status
      → c.txid ≡ tx.txid
      → Progress o c
      → Progress o (record c { status = status })
  mark-Progress tx o c status only pending why same (inl e) =
      let is_tx : o ≡ tx = only (sym same ∙ ap (λ t. t.txid) e) in
      let remark : BtcDepositTx → BtcDepositTx = λ t. record t { status = status } in
      inr (
        status,
        ap (λ t. t.status) is_tx ∙ pending,
        ap remark e,
        subst (λ t. Justified keeper codec r env t status) (sym is_tx) why,
      )
  mark-Progress tx o c status only pending why same (inr (old, was, e, reason)) =
      let is_tx : o ≡ tx = only (sym same ∙ ap (λ t. t.txid) e) in
      let remark : BtcDepositTx → BtcDepositTx = λ t. record t { status = status } in
      inr (
        status,
        was,
        ap remark e,
        subst (λ t. Justified keeper codec r env t status) (sym is_tx) why,
      )

  marked-Progress :
      (tx : BtcDepositTx) (status : ℕ) (before rows : List BtcDepositTx)
      → All (λ o. tx.txid ≡ o.txid → o ≡ tx) before
      → tx.status ≡ status_pending
      → Justified keeper codec r env tx status
      → Each Progress before rows
      → Each Progress before (marked tx.txid status rows)
  marked-Progress tx status [] [] only pending why h = tt
  marked-Progress tx status [] (c ∷ rows) only pending why h = h
  marked-Progress tx status (o ∷ before) [] only pending why h = h
  marked-Progress tx status (o ∷ before) (c ∷ rows) (first, only) pending why (p, h) =
      let rest = marked-Progress tx status before rows only pending why h in
      elim (Bool-cases (str_eq c.txid tx.txid)) [
        | inl same ↦
            rw same (
              mark-Progress tx o c status first pending why ((eq_iff c.txid tx.txid).0 same) p,
              rest,
            )
        | inr other ↦ rw other (p, rest)
      ]

  module _ (lawful : IsLawful env.deposit_db) (before : List BtcDepositTx)
      (distinct : Distinct same_txid before) where
    submit_txs-Progress :
        (tip : ℕ) (txs : List BtcDepositTx) (s : SubmitState)
        → All (λ row. Mem row before × (is_unhandled tip row ≡ true)) txs
        → Each Progress before s.deposits
        → Each Progress before (submit_txs keeper codec r env txs s).deposits
    unfolding submit_txs
    submit_txs-Progress tip [] s all h = h
    submit_txs-Progress tip (tx ∷ txs) s ((m, ready), all) h =
        submit_txs-Progress tip txs (submit_tx keeper codec r env tx s) all
          (elim (submit_tx-Handled keeper codec r env lawful tx s) [
            | inl same ↦ rw same h
            | inr (status, changed, why) ↦ rw changed (
                marked-Progress tx status before s.deposits
                  (All-of_mem _ before
                    (λ o n e. unique_row btc_columns-IsColumns tx o before distinct e m n))
                  (unhandled-pending tip tx ready) why h)
          ])

  -- A round of the submitter, on a database that obeys its laws and a table with no two rows of one
  -- txid, leaves every row in its place and changes nothing but the status, and that of pending
  -- rows only; each new status has its reason: a record or an acceptance by the Lorenzo node, a
  -- receiver that is no agent, a proof that does not parse, or a refusal that is not to be retried.
  pub submit_round-Progress :
      IsLawful env.deposit_db
      → (s : SubmitState) → Distinct same_txid s.deposits
      → Each Progress s.deposits (submit_round keeper codec r env s).deposits
  unfolding submit_round
  submit_round-Progress lawful s distinct =
      let same = Each-refl Progress s.deposits (λ row. inl refl) in
      let becomes : (u : SubmitState)
          → submit_round keeper codec r env s ≡ u
          → Each Progress s.deposits u.deposits
          → Each Progress s.deposits (submit_round keeper codec r env s).deposits =
        λ u e. subst (λ t. Each Progress s.deposits t.deposits) (sym e) in
      elim (Result-cases env.lorenzo.btc_header_chain_tip) [
        | inr (e, failed) ↦ becomes s (ground arith) same
        | inl (tip, got) ↦
            elim (Result-cases (get_unhandled_btc_deposit_txs env.deposit_db tip s.deposits)) [
              | inr (e, failed) ↦ becomes s (ground arith) same
              | inl (txs, found) ↦
                  let (_, _, all, _) =
                    get_unhandled-Ascending env.deposit_db lawful tip s.deposits txs found in
                  becomes (submit_txs keeper codec r env txs s) (ground arith)
                    (submit_txs-Progress lawful s.deposits distinct tip txs s all same)
            ]
      ]
