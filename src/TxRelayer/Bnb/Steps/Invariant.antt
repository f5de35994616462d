-- ===== src/TxRelayer/Bnb/Steps/Invariant.antt =====
-- What every step of the BNB relayer keeps, and what it may do to the table of wrapped deposits.
use mathlib.Core.Path.{subst}
use lorenzo_btcstaking_submi.Base.{
  ℕ, ◌≡◌, ◌≢◌, ◌==◌, ◌&&◌, leb, refl, inl, inr, str_eq, eq_iff, true, none, some, List, [], ◌∷◌,
  arith, All, All-append, ok, Result-cases, Bool-cases,
}
use lorenzo_btcstaking_submi.Base.Members.{All-Mem}
use lorenzo_btcstaking_submi.Db.Types.{WrappedBtcDepositTx, status_pending}
use lorenzo_btcstaking_submi.Db.Orm.{IsLawful}
use lorenzo_btcstaking_submi.Db.Queue.{marked, IsQueue, Grows}
use lorenzo_btcstaking_submi.Db.Queue.Marking.{
  IsQueue-append, IsQueue-dropped, IsQueue-tail, IsQueue-fetched, Grows-append, Grows-refl,
  marked-IsQueue,
}
use lorenzo_btcstaking_submi.Db.BnbRepository.{
  insert_wrapped_btc_deposit_txs, get_unhandled_wrapped_btc_deposit_txs,
}
use lorenzo_btcstaking_submi.Db.BnbRepository.Deposits.{
  insert_wrapped-Distinct, insert_wrapped-added,
}
use lorenzo_btcstaking_submi.Db.BnbRepository.Columns.{wrapped_columns, wrapped_columns-IsColumns}
use lorenzo_btcstaking_submi.TxRelayer.Bnb.{
  ReceiptWithProof, Encoding, BnbRelayer, wrapped_of, to_wrapped_list,
}
use lorenzo_btcstaking_submi.TxRelayer.Bnb.Scan.{WindowEnv}
use lorenzo_btcstaking_submi.TxRelayer.Bnb.Submit.{WrappedEnv, WrappedSubmission}
use lorenzo_btcstaking_submi.TxRelayer.Bnb.Submit.Settled.{
  WrappedReason, unreadable_receipt, unreadable_proof, duplicate, rejected, Settled,
  submit_wrapped-Settled,
}
use lorenzo_btcstaking_submi.TxRelayer.Bnb.Steps.{
  BnbSystem, wrapped_submission, BnbAct, BnbStep, insert_window, move_bnb_point, keep_bnb_point,
  fetch_wrapped, submit_row, quit_batch, crash_bnb,
}

module _ {Body Proof : Type 0} (encoding : Encoding Body Proof) (r : BnbRelayer) where
  -- The row is of the relayer's chain.
  abbrev pub OfChain : WrappedBtcDepositTx → Type 0
  OfChain row = str_eq row.chain r.chain_name ≡ true

  -- A reason of the submitter, with the world in which it had it.
  abbrev pub BnbReason : WrappedBtcDepositTx → ℕ → Type 0
  BnbReason tx status = (env : WrappedEnv) × WrappedReason encoding r env tx status

  pub BnbReason-ne-pending :
      (tx : WrappedBtcDepositTx) (status : ℕ) → BnbReason tx status → status ≢ status_pending
  BnbReason-ne-pending tx status (env, unreadable_receipt e h k) = omega arith
  BnbReason-ne-pending tx status (env, unreadable_proof e h k) = omega arith
  BnbReason-ne-pending tx status (env, duplicate e h d k) = omega arith
  BnbReason-ne-pending tx status (env, rejected e h d f k) = omega arith

  -- The table and the batch are in order, and hold rows of the relayer's chain only.
  pub record BnbInv (s : BnbSystem) : Type 0 where
    pub queue : IsQueue wrapped_columns s.wrapped s.batch
    pub of_chain : All OfChain s.wrapped

  abbrev pub BnbGrows : BnbSystem → BnbSystem → Type 0
  BnbGrows s t = Grows wrapped_columns BnbReason s.wrapped t.wrapped

  -- What a step achieves.
  abbrev pub BnbSound : BnbSystem → BnbSystem → Type 0
  BnbSound s t = BnbInv t × BnbGrows s t

  -- What the scanner makes of receipts is pending and of the chain.
  abbrev Fresh : WrappedBtcDepositTx → Type 0
  Fresh row = (row.status ≡ status_pending) × OfChain row

  to_wrapped_list-Fresh :
      (list : List (ReceiptWithProof Body Proof)) (txs : List WrappedBtcDepositTx)
      → to_wrapped_list encoding r list ≡ ok txs
      → All Fresh txs
  unfolding to_wrapped_list wrapped_of
  to_wrapped_list-Fresh [] [] h = tt
  to_wrapped_list-Fresh [] (tx ∷ txs) h = cc
  to_wrapped_list-Fresh (found ∷ list) txs h =
      elim (Result-cases (encoding.encode_receipt found.receipt)) [
        | inr (e, failed) ↦ absurd (ground arith)
        | inl (receipt_raw, receipt) ↦ elim (Result-cases (encoding.encode_proof found.proof)) [
          | inr (e, failed) ↦ absurd (ground arith)
          | inl (proof_raw, proof) ↦ elim (Result-cases (to_wrapped_list encoding r list)) [
            | inr (e, failed) ↦ absurd (ground arith)
            | inl (rest, rows) ↦
                let e : wrapped_of encoding r found receipt_raw proof_raw ∷ rest ≡ txs =
                  ground arith in
                rw⁻¹ e (
                  (refl, (eq_iff r.chain_name r.chain_name).1 refl),
                  to_wrapped_list-Fresh list rest rows,
                )
          ]
        ]
      ]

  OfChain-marked :
      (t : WrappedBtcDepositTx) (n : ℕ) (rows : List WrappedBtcDepositTx)
      → All OfChain rows
      → All OfChain (marked wrapped_columns t n rows)
  OfChain-marked t n [] all = tt
  OfChain-marked t n (row ∷ rows) (first, all) = elim (Bool-cases (wrapped_columns.same t row)) [
    | inl same ↦ rw same (first, OfChain-marked t n rows all)
    | inr other ↦ rw other (first, OfChain-marked t n rows all)
  ]

  insert-Sound :
      (env : WindowEnv Body Proof) (s : BnbSystem) (txs rows : List WrappedBtcDepositTx) (end : ℕ)
      → IsLawful env.wrapped_db
      → BnbInv s
      → All Fresh txs
      → insert_wrapped_btc_deposit_txs env.wrapped_db txs s.wrapped ≡ ok rows
      → BnbSound s (record s { wrapped = rows; storing = some end })
  insert-Sound env s txs rows end lawful inv fresh h =
      let (_, distinct, _) =
        insert_wrapped-Distinct env.wrapped_db lawful txs s.wrapped rows inv.queue.rows_distinct
          h in
      let (added, e, all) =
        insert_wrapped-added env.wrapped_db lawful Fresh txs s.wrapped rows fresh h in
      rw e (
        record {
          queue =
              IsQueue-append wrapped_columns-IsColumns s.wrapped added s.batch (rw e at distinct)
                inv.queue;
          of_chain = All-append OfChain s.wrapped added inv.of_chain (chains added all);
        },
        Grows-append wrapped_columns-IsColumns BnbReason s.wrapped added (pending added all),
      )
    where
      chains : (rows : List WrappedBtcDepositTx) → All Fresh rows → All OfChain rows
      chains [] h = tt
      chains (row ∷ rows) ((_, c), h) = (c, chains rows h)

      pending :
          (rows : List WrappedBtcDepositTx)
          → All Fresh rows
          → All (λ row. row.status ≡ status_pending) rows
      pending [] h = tt
      pending (row ∷ rows) ((p, _), h) = (p, pending rows h)

  same_rows :
      (s t : BnbSystem)
      → t.wrapped ≡ s.wrapped
      → IsQueue wrapped_columns t.wrapped t.batch
      → BnbInv s
      → BnbSound s t
  same_rows s t e queue inv = (
    record { queue = queue; of_chain = rw e inv.of_chain },
    rw e (Grows-refl wrapped_columns-IsColumns BnbReason s.wrapped),
  )

  fetch-Sound :
      (env : WrappedEnv) (s : BnbSystem) (tip : ℕ) (txs : List WrappedBtcDepositTx)
      → IsLawful env.wrapped_db
      → BnbInv s
      → get_unhandled_wrapped_btc_deposit_txs env.wrapped_db tip s.wrapped ≡ ok txs
      → BnbSound s (record s { batch = txs })
  unfolding get_unhandled_wrapped_btc_deposit_txs
  fetch-Sound env s tip txs lawful inv h =
      let (sorted, same, ascending, cut) =
        lawful.find_answers (λ row. row.status == status_pending && leb row.height tip)
          (λ row. row.height) none s.wrapped txs h in
      same_rows s (record s { batch = txs }) refl
        (rw cut (
          IsQueue-fetched wrapped_columns-IsColumns
            (λ row. row.status == status_pending && leb row.height tip) none s.wrapped s.batch
            sorted (λ row passes. ground arith) same inv.queue))
        inv

  submit-Sound :
      (env : WrappedEnv) (s : BnbSystem) (tx : WrappedBtcDepositTx)
      (rest : List WrappedBtcDepositTx) (u : WrappedSubmission)
      → IsLawful env.wrapped_db
      → BnbInv s
      → s.batch ≡ tx ∷ rest
      → Settled encoding r env tx s.wrapped u.wrapped
      → BnbSound s (record s { wrapped = u.wrapped; batch = rest; sent = u.sent })
  submit-Sound env s tx rest u lawful inv first settled =
      let queue : IsQueue wrapped_columns s.wrapped (tx ∷ rest) =
        subst (IsQueue wrapped_columns s.wrapped) first inv.queue in
      let ((m, pending), _) = queue.batch_current in
      let chain : tx.chain ≡ r.chain_name =
        (eq_iff tx.chain r.chain_name).0
          (All-Mem wrapped_columns-IsColumns.row_discrete OfChain tx s.wrapped inv.of_chain m) in
      let t = record s { wrapped = u.wrapped; batch = rest; sent = u.sent } in
      elim settled [
        | inl same ↦
            same_rows s t same
              (rw same (IsQueue-tail wrapped_columns-IsColumns tx s.wrapped rest queue)) inv
        | inr (n, changed, why) ↦
            let (after, grows) =
              marked-IsQueue wrapped_columns-IsColumns BnbReason tx n s.wrapped rest queue
                (env, why) in
            let e : u.wrapped ≡ marked wrapped_columns tx n s.wrapped = rw chain changed in
            rw e (
              record { queue = after; of_chain = OfChain-marked tx n s.wrapped inv.of_chain },
              grows,
            )
      ]

  pub BnbStep-Sound :
      (act : BnbAct Body Proof) (s t : BnbSystem)
      → BnbStep encoding r s t act
      → BnbInv s
      → BnbSound s t
  BnbStep-Sound _ s t (insert_window env point end txs rows lawful idle at_point fits read h e)
        inv =
      let (_, _, _, (list, _, _, made)) = read in
      rw e (
        insert-Sound env s txs rows end lawful.wrapped_lawful inv
          (to_wrapped_list-Fresh list txs made) h)
  BnbStep-Sound _ s t (move_bnb_point env end configs lawful busy h e) inv =
      rw e (same_rows s (record s { configs = configs; storing = none }) refl inv.queue inv)
  BnbStep-Sound _ s t (keep_bnb_point env end failed busy h e) inv =
      rw e (same_rows s (record s { storing = none }) refl inv.queue inv)
  BnbStep-Sound _ s t (fetch_wrapped env tip txs lawful empty at_tip h e) inv =
      rw e (fetch-Sound env s tip txs lawful inv h)
  BnbStep-Sound _ s t (submit_row env tx rest u lawful first outcome e) inv = rw e (
      submit-Sound env s tx rest u lawful inv first (
        subst (λ v. Settled encoding r env tx s.wrapped v.wrapped) outcome
          (submit_wrapped-Settled encoding r env lawful tx (wrapped_submission s))))
  BnbStep-Sound _ s t (quit_batch env i closed e) inv = rw e (
      same_rows s (record s { batch = [] }) refl
        (IsQueue-dropped wrapped_columns-IsColumns s.wrapped s.batch inv.queue) inv)
  BnbStep-Sound _ s t (crash_bnb e) inv = rw e (
      same_rows s (record s { storing = none; batch = [] }) refl
        (IsQueue-dropped wrapped_columns-IsColumns s.wrapped s.batch inv.queue) inv)
