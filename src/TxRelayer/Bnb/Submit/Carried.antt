-- ===== src/TxRelayer/Bnb/Submit/Carried.antt =====
-- The rows of the scanner and the messages of the submitter in txrelayer/bnb_txrelayer.go.
use lorenzo_btcstaking_submi.Base.{
  ◌≡◌, refl, List, [], ◌∷◌, ◌++◌, arith, Bytes, Result, ok, err, inl, inr, Result-cases, Each,
}
use lorenzo_btcstaking_submi.Db.Types.{WrappedBtcDepositTx}
use lorenzo_btcstaking_submi.Db.BnbRepository.{mark_success, mark_invalid}
use lorenzo_btcstaking_submi.TxRelayer.Bnb.{
  ReceiptWithProof, Encoding, IsInverse, BnbRelayer, wrapped_of, to_wrapped_list,
}
use lorenzo_btcstaking_submi.TxRelayer.Bnb.Submit.{
  WrappedEnv, WrappedSubmission, keep_on_failure, mark_wrapped_success, mark_wrapped_invalid,
  settle, wrapped_msg, submit_wrapped,
}

module _ {Body Proof : Type 0} (encoding : Encoding Body Proof) (r : BnbRelayer)
    (env : WrappedEnv) where
  keep_on_failure-sent :
      (after : Result (List WrappedBtcDepositTx)) (s : WrappedSubmission)
      → (keep_on_failure after s).sent ≡ s.sent
  unfolding keep_on_failure
  keep_on_failure-sent (ok rows) s = refl
  keep_on_failure-sent (err e) s = refl

  settle-sent :
      (tx : WrappedBtcDepositTx) (answer : Result (Unit {0})) (s : WrappedSubmission)
      → (settle encoding r env tx answer s).sent ≡ s.sent
  unfolding settle mark_wrapped_success mark_wrapped_invalid
  settle-sent tx (ok done) s = refl
  settle-sent tx (err e) s = ground (
    arith,
    keep_on_failure-sent (mark_success env.wrapped_db r.chain_name tx.txid s.wrapped) s,
    keep_on_failure-sent (mark_invalid env.wrapped_db r.chain_name tx.txid s.wrapped) s,
  )

  submit_wrapped-sent :
      (tx : WrappedBtcDepositTx) (receipt_raw proof_raw : Bytes) (s : WrappedSubmission)
      → encoding.hex_decode tx.receipt ≡ ok receipt_raw
      → encoding.hex_decode tx.proof ≡ ok proof_raw
      → (submit_wrapped encoding r env tx s).sent
        ≡ s.sent ++ wrapped_msg encoding r env tx receipt_raw proof_raw ∷ []
  unfolding submit_wrapped
  submit_wrapped-sent tx receipt_raw proof_raw s receipt proof = ground (arith, settle-sent tx)

  -- The row makes the submitter send the receipt's height and the encodings of the receipt and of
  -- its proof.
  abbrev pub Carries :
      WrappedSubmission → ReceiptWithProof Body Proof → WrappedBtcDepositTx → Type 0
  Carries s found tx =
      (receipt_raw proof_raw : Bytes) × (encoding.encode_receipt found.receipt ≡ ok receipt_raw)
      × (encoding.encode_proof found.proof ≡ ok proof_raw)
      × ((submit_wrapped encoding r env tx s).sent
          ≡ s.sent
            ++ record {
              signer = r.submitter;
              number = found.receipt.block_number;
              receipt = receipt_raw;
              proof = proof_raw;
            }
              ∷ [])

  module _ (inverse : IsInverse encoding) (s : WrappedSubmission) where
    wrapped_of-Carries :
        (found : ReceiptWithProof Body Proof) (receipt_raw proof_raw : Bytes)
        → encoding.encode_receipt found.receipt ≡ ok receipt_raw
        → encoding.encode_proof found.proof ≡ ok proof_raw
        → Carries s found (wrapped_of encoding r found receipt_raw proof_raw)
    unfolding wrapped_of wrapped_msg
    wrapped_of-Carries found receipt_raw proof_raw receipt proof = (
      receipt_raw,
      proof_raw,
      receipt,
      proof,
      submit_wrapped-sent (wrapped_of encoding r found receipt_raw proof_raw) receipt_raw proof_raw
          s (inverse.decode_encode receipt_raw) (inverse.decode_encode proof_raw),
    )

    -- Where hexadecimal decoding gives back what was encoded, and the receipts of a window could be
    -- encoded: there is one row for each receipt, in order, and submitting a row sends one message,
    -- with the height of its receipt and the encodings of the receipt and of its proof.
    pub to_wrapped_list-Carries :
        (list : List (ReceiptWithProof Body Proof)) (txs : List WrappedBtcDepositTx)
        → to_wrapped_list encoding r list ≡ ok txs
        → Each (Carries s) list txs
    unfolding to_wrapped_list
    to_wrapped_list-Carries [] [] h = tt
    to_wrapped_list-Carries [] (tx ∷ txs) h = cc
    to_wrapped_list-Carries (found ∷ list) txs h =
        elim (Result-cases (encoding.encode_receipt found.receipt)) [
          | inr (e, failed) ↦ absurd (ground arith)
          | inl (receipt_raw, receipt) ↦ elim (Result-cases (encoding.encode_proof found.proof)) [
            | inr (e, failed) ↦ absurd (ground arith)
            | inl (proof_raw, proof) ↦ elim (Result-cases (to_wrapped_list encoding r list)) [
              | inr (e, failed) ↦ absurd (ground arith)
              | inl (rest, rows) ↦
                  let e : wrapped_of encoding r found receipt_raw proof_raw ∷ rest ≡ txs =
                    ground arith in
                  rw⁻¹ e (
                    wrapped_of-Carries found receipt_raw proof_raw receipt proof,
                    to_wrapped_list-Carries list rest rows,
                  )
            ]
          ]
        ]
