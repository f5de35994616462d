-- ===== src/TxRelayer/Submit/AsSteps.antt =====
-- A pass of `submitLoop` of txrelayer/tx_relayer.go as steps of the relayer.
use mathlib.Core.Path.{subst}
use lorenzo_btcstaking_submi.Base.{
  ◌≡◌, refl, sym, ap, inl, inr, List, [], ◌∷◌, All, arith, Result-cases,
}
use lorenzo_btcstaking_submi.Btc.Network.{Codec}
use lorenzo_btcstaking_submi.Btc.Utils.{Btcd}
use lorenzo_btcstaking_submi.Db.Types.{BtcDepositTx}
use lorenzo_btcstaking_submi.Db.Orm.{IsLawful}
use lorenzo_btcstaking_submi.Db.BtcRepository.{get_unhandled_btc_deposit_txs}
use lorenzo_btcstaking_submi.TxRelayer.Lorenzo.{Keeper}
use lorenzo_btcstaking_submi.TxRelayer.Scan.{Relayer}
use lorenzo_btcstaking_submi.TxRelayer.Submit.{
  Submitter, SubmitEnv, SubmitState, submit_tx, submit_txs, submit_round,
}
use lorenzo_btcstaking_submi.TxRelayer.Submit.Outcomes.{Submitted, submit_round-Submitted}
use lorenzo_btcstaking_submi.TxRelayer.Steps.{
  System, Act, submits, Step, fetch_batch, submit_deposit, Reach, start, next, submit_state,
}

module _ {PkScript Address MerkleBlock : Type 0} (btcd : Btcd PkScript Address)
    (keeper : Keeper MerkleBlock) (codec : Codec) (scanner : Relayer) (r : Submitter)
    (env : SubmitEnv) (lawful : IsLawful env.deposit_db) where
  -- The system after the submitter's pass.
  abbrev pub with_submit_state : System → SubmitState → System
  with_submit_state s u = record s { deposits = u.deposits; batch = []; sent = u.sent }

  -- A run with steps of this pass only.
  abbrev pub Runs : System → System → Type 0
  Runs s t =
      (acts : List Act) × All (λ act. act ≡ submits env) acts
      × Reach btcd keeper codec scanner r s acts t

  more : (s t u : System) → Runs s t → Step btcd keeper codec scanner r t u (submits env) → Runs s u
  more s t u (acts, all, run) step = (submits env ∷ acts, (refl, all), next t run step)

  nothing : (s : System) → Runs s s
  nothing s = ([], tt, start)

  submit_txs-Reach :
      (origin s : System) (txs : List BtcDepositTx)
      → Runs origin s
      → s.batch ≡ txs
      → Runs origin (
          with_submit_state s
            (submit_txs keeper codec r env txs (submit_state btcd keeper codec scanner r s)))
  unfolding submit_txs
  submit_txs-Reach origin s [] run e =
      subst (Runs origin) (ap (λ batch. record s { batch = batch }) e) run
  submit_txs-Reach origin s (tx ∷ txs) run e =
      let u = submit_tx keeper codec r env tx (submit_state btcd keeper codec scanner r s) in
      let t = record s { deposits = u.deposits; batch = txs; sent = u.sent } in
      submit_txs-Reach origin t txs
        (more origin s t run (submit_deposit env tx txs u lawful e refl refl)) refl

  submit_round-Runs :
      (s : System)
      → s.batch ≡ []
      → Runs s (
          with_submit_state s
            (submit_round keeper codec r env (submit_state btcd keeper codec scanner r s)))
  unfolding submit_round
  submit_round-Runs s empty =
      let state = submit_state btcd keeper codec scanner r s in
      let stand : Runs s (with_submit_state s state) =
        subst (Runs s) (ap (λ batch. record s { batch = batch }) empty) (nothing s) in
      let becomes : (u : SubmitState)
          → submit_round keeper codec r env state ≡ u
          → Runs s (with_submit_state s u)
          → Runs s (with_submit_state s (submit_round keeper codec r env state)) =
        λ u e. subst (λ v. Runs s (with_submit_state s v)) (sym e) in
      elim (Result-cases env.lorenzo.btc_header_chain_tip) [
        | inr (e, failed) ↦ becomes state (ground arith) stand
        | inl (tip, at_tip) ↦
            elim (Result-cases (get_unhandled_btc_deposit_txs env.deposit_db tip s.deposits)) [
              | inr (e, failed) ↦ becomes state (ground arith) stand
              | inl (txs, found) ↦
                  let t = record s { batch = txs } in
                  let fetched : Runs s t =
                    more s s t (nothing s)
                      (fetch_batch env tip txs lawful empty at_tip found refl) in
                  becomes (submit_txs keeper codec r env txs state) (ground arith)
                    (submit_txs-Reach s t txs fetched refl)
            ]
      ]

  pub submit_round-Reach :
      (s : System)
      → s.batch ≡ []
      → Runs s (
          with_submit_state s
            (submit_round keeper codec r env (submit_state btcd keeper codec scanner r s)))
        × Submitted keeper codec r env
            (submit_state btcd keeper codec scanner r s)
            (submit_round keeper codec r env (submit_state btcd keeper codec scanner r s))
  submit_round-Reach s empty = (
    submit_round-Runs s empty,
    submit_round-Submitted keeper codec r env lawful (submit_state btcd keeper codec scanner r s),
  )
