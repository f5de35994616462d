-- ===== src/TxRelayer/Bnb/Submit/AsSteps.antt =====
-- A pass of `submit` of txrelayer/bnb_txrelayer.go as steps of the BNB relayer.
use mathlib.Core.Path.{subst}
use lorenzo_btcstaking_submi.Base.{
  ℕ, suc, ◌≡◌, refl, sym, ap, inl, inr, List, [], ◌∷◌, All, arith, Bool-cases, Result-cases,
}
use lorenzo_btcstaking_submi.Db.Types.{WrappedBtcDepositTx}
use lorenzo_btcstaking_submi.Db.Orm.{IsLawful}
use lorenzo_btcstaking_submi.Db.BnbRepository.{get_unhandled_wrapped_btc_deposit_txs}
use lorenzo_btcstaking_submi.TxRelayer.Bnb.{Encoding, BnbRelayer}
use lorenzo_btcstaking_submi.TxRelayer.Bnb.Submit.{
  WrappedEnv, WrappedSubmission, submit_wrapped, submit_wrapped_txs, submit_wrapped_round,
}
use lorenzo_btcstaking_submi.TxRelayer.Bnb.Submit.Outcomes.{
  WrappedSubmitted, submit_wrapped_round-WrappedSubmitted,
}
use lorenzo_btcstaking_submi.TxRelayer.Bnb.Steps.{
  BnbSystem, wrapped_submission, BnbAct, sends, BnbStep, fetch_wrapped, submit_row, quit_batch,
  BnbReach, start, next,
}

-- The system after the submitter's pass.
abbrev pub with_submission : BnbSystem → WrappedSubmission → BnbSystem
with_submission s u = record s { wrapped = u.wrapped; batch = []; sent = u.sent }

module _ {Body Proof : Type 0} (encoding : Encoding Body Proof) (r : BnbRelayer) where
  module _ (env : WrappedEnv) (lawful : IsLawful env.wrapped_db) where
    -- A run with steps of this pass only.
    abbrev pub Runs : BnbSystem → BnbSystem → Type 0
    Runs s t =
        (acts : List (BnbAct Body Proof)) × All (λ act. act ≡ sends env) acts
        × BnbReach encoding r s acts t

    more : (s t u : BnbSystem) → Runs s t → BnbStep encoding r t u (sends env) → Runs s u
    more s t u (acts, all, run) step = (sends env ∷ acts, (refl, all), next t run step)

    nothing : (s : BnbSystem) → Runs s s
    nothing s = ([], tt, start)

    submit_wrapped_txs-Reach :
        (i : ℕ) (origin s : BnbSystem) (txs : List WrappedBtcDepositTx)
        → Runs origin s
        → s.batch ≡ txs
        → Runs origin
            (with_submission s (submit_wrapped_txs encoding r env i txs (wrapped_submission s)))
    unfolding submit_wrapped_txs
    submit_wrapped_txs-Reach i origin s [] run e =
        subst (Runs origin) (ap (λ batch. record s { batch = batch }) e) run
    submit_wrapped_txs-Reach i origin s (tx ∷ txs) run e =
        let state = wrapped_submission s in
        let u = submit_wrapped encoding r env tx state in
        let becomes : (v : WrappedSubmission)
            → submit_wrapped_txs encoding r env i (tx ∷ txs) state ≡ v
            → Runs origin (with_submission s v)
            → Runs origin
                (with_submission s (submit_wrapped_txs encoding r env i (tx ∷ txs) state)) =
          λ v f. subst (λ w. Runs origin (with_submission s w)) (sym f) in
        elim (Bool-cases (env.quit_closed i)) [
          | inl closed ↦
              becomes state (rw (submit_wrapped_txs, closed) refl)
                (more origin s (record s { batch = [] }) run (quit_batch env i closed refl))
          | inr going ↦
              let t = record s { wrapped = u.wrapped; batch = txs; sent = u.sent } in
              becomes (submit_wrapped_txs encoding r env (suc i) txs u)
                (rw (submit_wrapped_txs, going) refl)
                (submit_wrapped_txs-Reach (suc i) origin t txs
                  (more origin s t run (submit_row env tx txs u lawful e refl refl)) refl)
        ]

    submit_wrapped_round-Runs :
        (s : BnbSystem)
        → s.batch ≡ []
        → Runs s (with_submission s (submit_wrapped_round encoding r env (wrapped_submission s)))
    unfolding submit_wrapped_round
    submit_wrapped_round-Runs s empty =
        let state = wrapped_submission s in
        let stay : Runs s (with_submission s state) =
          subst (Runs s) (ap (λ batch. record s { batch = batch }) empty) (nothing s) in
        let becomes : (u : WrappedSubmission)
            → submit_wrapped_round encoding r env state ≡ u
            → Runs s (with_submission s u)
            → Runs s (with_submission s (submit_wrapped_round encoding r env state)) =
          λ u e. subst (λ v. Runs s (with_submission s v)) (sym e) in
        elim (Result-cases env.lorenzo.bnb_latest_header) [
          | inr (e, failed) ↦ becomes state (ground arith) stay
          | inl (tip, at_tip) ↦
              elim (Result-cases
                (get_unhandled_wrapped_btc_deposit_txs env.wrapped_db tip s.wrapped)) [
                  | inr (e, failed) ↦ becomes state (ground arith) stay
                  | inl (txs, found) ↦
                      let t = record s { batch = txs } in
                      let fetched : Runs s t =
                        more s s t (nothing s)
                          (fetch_wrapped env tip txs lawful empty at_tip found refl) in
                      becomes (submit_wrapped_txs encoding r env 0 txs state) (ground arith)
                        (submit_wrapped_txs-Reach 0 s t txs fetched refl)
                ]
        ]

    -- On a database that obeys its laws and with no row in its batch, a pass of the BNB submitter
    -- is a run of steps of this pass alone, in the world that it has: from the system before it
    -- such steps lead to the system with the table and the messages that the pass leaves. And
    -- without the tip of the node or the batch the pass changes nothing; otherwise each row of the
    -- batch, one after the other and until quit is seen closed, has the outcome that the answers
    -- for it call for: a message is sent exactly where its receipt and proof can be decoded, and
    -- the status that is written, unless the statement fails, is success where the node answers
    -- that the event is a duplicate, invalid where there is no message or the node refuses it with
    -- an error that is neither a duplicate nor to be retried, and none where it accepts the message
    -- or the error is to be retried.
    pub submit_wrapped_round-Reach :
        (s : BnbSystem)
        → s.batch ≡ []
        → Runs s (with_submission s (submit_wrapped_round encoding r env (wrapped_submission s)))
          × WrappedSubmitted encoding r env
              (wrapped_submission s)
              (submit_wrapped_round encoding r env (wrapped_submission s))
    submit_wrapped_round-Reach s empty = (
      submit_wrapped_round-Runs s empty,
      submit_wrapped_round-WrappedSubmitted encoding r env lawful (wrapped_submission s),
    )
