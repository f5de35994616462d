-- ===== src/TxRelayer/Bnb/Submit.antt =====
-- `submitLoop` and `submit` of txrelayer/bnb_txrelayer.go.
pub mod Settled
pub mod Carried
pub mod AsSteps
pub mod Outcomes
use lorenzo_btcstaking_submi.Base.{
  ℕ, suc, String, Bool, true, false, ◌||◌, Bytes, List, [], ◌∷◌, ◌++◌, if◌then◌else◌, Error,
  error_text, Result, ok, err,
}
use lorenzo_btcstaking_submi.Base.Text.{contains}
use lorenzo_btcstaking_submi.Db.Types.{WrappedBtcDepositTx}
use lorenzo_btcstaking_submi.Db.Orm.{Model}
use lorenzo_btcstaking_submi.Db.BnbRepository.{
  mark_success, mark_invalid, get_unhandled_wrapped_btc_deposit_txs,
}
use lorenzo_btcstaking_submi.TxRelayer.Common.{
  lorenzo_timeout_error_message, post_failed_message, sequence_mismatch,
  bnb_btcb_staking_duplication,
}
use lorenzo_btcstaking_submi.TxRelayer.Lorenzo.{MsgCreateBtcbStaking, LorenzoClient}
use lorenzo_btcstaking_submi.TxRelayer.Bnb.{Encoding, BnbRelayer}

-- Of errors that are not nil.
unfoldable pub is_bnb_staking_retry_error : Error → Bool
is_bnb_staking_retry_error e =
    contains (error_text e) lorenzo_timeout_error_message
    || contains (error_text e) post_failed_message
    || contains (error_text e) sequence_mismatch

unfoldable pub is_bnb_staking_duplicate : Error → Bool
is_bnb_staking_duplicate e = contains (error_text e) bnb_btcb_staking_duplication

-- The world in one round: `quit_closed i` says whether `quit` is closed when the round comes to the
-- row at index `i` of its batch.
pub record WrappedEnv : Type 0 where
  pub lorenzo : LorenzoClient
  pub wrapped_db : Model WrappedBtcDepositTx
  pub quit_closed : ℕ → Bool

-- The table of wrapped deposits, and the messages sent so far.
pub record WrappedSubmission : Type 0 where
  pub wrapped : List WrappedBtcDepositTx
  pub sent : List MsgCreateBtcbStaking

-- A failure to mark is only logged.
keep_on_failure : Result (List WrappedBtcDepositTx) → WrappedSubmission → WrappedSubmission
keep_on_failure (err _) s = s
keep_on_failure (ok wrapped) s = record s { wrapped = wrapped }

module _ {Body Proof : Type 0} (encoding : Encoding Body Proof) (r : BnbRelayer)
    (env : WrappedEnv) where
  pub mark_wrapped_success : String → WrappedSubmission → WrappedSubmission
  unfolding keep_on_failure
  mark_wrapped_success txid s =
      keep_on_failure (mark_success env.wrapped_db r.chain_name txid s.wrapped) s

  pub mark_wrapped_invalid : String → WrappedSubmission → WrappedSubmission
  unfolding keep_on_failure
  mark_wrapped_invalid txid s =
      keep_on_failure (mark_invalid env.wrapped_db r.chain_name txid s.wrapped) s

  -- After the node's answer.
  settle : WrappedBtcDepositTx → Result (Unit {0}) → WrappedSubmission → WrappedSubmission
  settle tx (ok _) s = s
  settle tx (err e) s =
      if is_bnb_staking_duplicate e
      then mark_wrapped_success tx.txid s
      else if is_bnb_staking_retry_error e
      then s
      else mark_wrapped_invalid tx.txid s

  pub wrapped_msg : WrappedBtcDepositTx → Bytes → Bytes → MsgCreateBtcbStaking
  wrapped_msg tx receipt_raw proof_raw = record {
    signer = r.submitter;
    number = tx.height;
    receipt = receipt_raw;
    proof = proof_raw;
  }

  -- The body of the loop over the deposits.
  pub submit_wrapped : WrappedBtcDepositTx → WrappedSubmission → WrappedSubmission
  unfolding settle mark_wrapped_success mark_wrapped_invalid wrapped_msg
  submit_wrapped tx s = elim (encoding.hex_decode tx.receipt) [
    | err _ ↦ mark_wrapped_invalid tx.txid s
    | ok receipt_raw ↦ elim (encoding.hex_decode tx.proof) [
      | err _ ↦ mark_wrapped_invalid tx.txid s
      | ok proof_raw ↦
          let msg = wrapped_msg tx receipt_raw proof_raw in
          settle tx (env.lorenzo.create_btcb_staking msg) (record s { sent = s.sent ++ msg ∷ [] })
    ]
  ]

  -- `submit`, from the row at an index on.
  pub submit_wrapped_txs : ℕ → List WrappedBtcDepositTx → WrappedSubmission → WrappedSubmission
  submit_wrapped_txs i [] s = s
  submit_wrapped_txs i (tx ∷ txs) s = elim (env.quit_closed i) [
    | true ↦ s
    | false ↦ submit_wrapped_txs (suc i) txs (submit_wrapped tx s)
  ]

  -- One pass through the loop's body.
  unfoldable pub submit_wrapped_round : WrappedSubmission → WrappedSubmission
  unfolding submit_wrapped_txs submit_wrapped
  submit_wrapped_round s = elim env.lorenzo.bnb_latest_header [
    | err _ ↦ s
    | ok tip ↦ elim (get_unhandled_wrapped_btc_deposit_txs env.wrapped_db tip s.wrapped) [
      | err _ ↦ s
      | ok txs ↦ submit_wrapped_txs 0 txs s
    ]
  ]
