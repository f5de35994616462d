-- ===== src/TxRelayer/Steps/Invariant.antt =====
-- What every step of the relayer keeps, and what it may do to the deposits table.
use mathlib.Core.Path.{subst}
use lorenzo_btcstaking_submi.Base.{
  ℕ, ◌+◌, ◌≡◌, refl, inl, inr, none, some, List, [], ◌∷◌, All, Has, here, there, ok,
}
use lorenzo_btcstaking_submi.Btc.Network.{Codec}
use lorenzo_btcstaking_submi.Btc.Utils.{Btcd}
use lorenzo_btcstaking_submi.Db.Types.{BtcDepositTx, status_pending}
use lorenzo_btcstaking_submi.Db.Orm.{IsLawful}
use lorenzo_btcstaking_submi.Db.BtcRepository.{
  is_unhandled, insert_btc_deposit_txs, get_unhandled_btc_deposit_txs,
}
use lorenzo_btcstaking_submi.Db.BtcRepository.Deposits.{
  insert_btc_deposit_txs-Distinct, insert_btc_deposit_txs-added,
}
use lorenzo_btcstaking_submi.TxRelayer.Deposits.Pending.{get_valid_deposit_txs-pending}
use lorenzo_btcstaking_submi.Db.Queue.{IsQueue}
use lorenzo_btcstaking_submi.Db.Queue.Marking.{
  IsQueue-append, IsQueue-dropped, IsQueue-tail, IsQueue-fetched, Grows-append, Grows-refl,
  marked-IsQueue,
}
use lorenzo_btcstaking_submi.Db.Queue.Growth.{Ages-refl, Ages-Grows, Ages-weaken}
use lorenzo_btcstaking_submi.Db.BtcRepository.Columns.{
  btc_columns, btc_columns-IsColumns, unhandled-pending,
}
use lorenzo_btcstaking_submi.TxRelayer.Lorenzo.{Keeper}
use lorenzo_btcstaking_submi.TxRelayer.Scan.{Relayer, RoundEnv}
use lorenzo_btcstaking_submi.TxRelayer.Submit.{Submitter, SubmitEnv, SubmitState}
use lorenzo_btcstaking_submi.TxRelayer.Submit.Marks.{Handled, submit_tx-Handled}
use lorenzo_btcstaking_submi.TxRelayer.Steps.{
  System, Act, submits, Step, insert_deposits, move_sync_point, keep_sync_point, fetch_batch,
  submit_deposit, crash, Reach, start, next, submit_state,
}
use lorenzo_btcstaking_submi.TxRelayer.Steps.Ageing.{Reason, Reason-ne-pending, Ages, Grows}

-- The table and the batch are in order: no two rows have one txid, nor have two deposits of the
-- batch, and each deposit of the batch is still as the table has it, and pending.
abbrev pub Inv : System → Type 0
Inv s = IsQueue btc_columns s.deposits s.batch

-- The world is that of a pass of the submitter that took a step of the run.
abbrev pub SubmitsOf : List Act → SubmitEnv → Type 0
SubmitsOf acts env = Has (λ act. act ≡ submits env) acts

module _ {PkScript Address MerkleBlock : Type 0} (btcd : Btcd PkScript Address)
    (keeper : Keeper MerkleBlock) (codec : Codec) (scanner : Relayer) (submitter : Submitter) where
  module _ (Ran : SubmitEnv → Type 0) where
    -- What a step achieves.
    abbrev pub Sound : System → System → Type 0
    Sound s t = Inv t × Grows btcd keeper codec scanner submitter Ran s.deposits t.deposits

    same_deposits : (s t : System) → t.deposits ≡ s.deposits → Inv t → Sound s t
    same_deposits s t e inv = (
      inv,
      rw e (
          Grows-refl btc_columns-IsColumns (Reason btcd keeper codec scanner submitter Ran)
            s.deposits),
    )

    insert-Sound :
        (env : RoundEnv) (s : System) (txs rows : List BtcDepositTx) (height : ℕ)
        → IsLawful env.deposit_db
        → Inv s
        → All (λ row. row.status ≡ status_pending) txs
        → insert_btc_deposit_txs env.deposit_db txs s.deposits ≡ ok rows
        → Sound s (record s { deposits = rows; storing = some height })
    insert-Sound env s txs rows height lawful inv pending h =
        let (_, distinct, _) =
          insert_btc_deposit_txs-Distinct env.deposit_db lawful txs s.deposits rows
            inv.rows_distinct h in
        let (added, e, all) =
          insert_btc_deposit_txs-added env.deposit_db lawful (λ row. row.status ≡ status_pending)
            txs s.deposits rows pending h in
        rw e (
          IsQueue-append btc_columns-IsColumns s.deposits added s.batch (rw e at distinct) inv,
          Grows-append btc_columns-IsColumns (Reason btcd keeper codec scanner submitter Ran)
              s.deposits added all,
        )

    fetch-Sound :
        (env : SubmitEnv) (s : System) (tip : ℕ) (txs : List BtcDepositTx)
        → IsLawful env.deposit_db
        → Inv s
        → get_unhandled_btc_deposit_txs env.deposit_db tip s.deposits ≡ ok txs
        → Sound s (record s { batch = txs })
    unfolding get_unhandled_btc_deposit_txs
    fetch-Sound env s tip txs lawful inv h =
        let (sorted, same, ascending, cut) =
          lawful.find_answers (is_unhandled tip) (λ row. row.height) (some 50) s.deposits txs h in
        same_deposits s (record s { batch = txs }) refl
          (rw cut (
            IsQueue-fetched btc_columns-IsColumns (is_unhandled tip) (some 50) s.deposits s.batch
              sorted (unhandled-pending tip) same inv))

    submit-Sound :
        (env : SubmitEnv) (s : System) (tx : BtcDepositTx) (rest : List BtcDepositTx)
        (u : SubmitState)
        → IsLawful env.deposit_db
        → Inv s
        → s.batch ≡ tx ∷ rest
        → Handled keeper codec submitter env tx s.deposits u.deposits
        → Ran env
        → Sound s (record s { deposits = u.deposits; batch = rest; sent = u.sent })
    submit-Sound env s tx rest u lawful inv first handled ran =
        let queue : IsQueue btc_columns s.deposits (tx ∷ rest) =
          subst (IsQueue btc_columns s.deposits) first inv in
        let t = record s { deposits = u.deposits; batch = rest; sent = u.sent } in
        elim handled [
          | inl same ↦
              same_deposits s t same
                (rw same (IsQueue-tail btc_columns-IsColumns tx s.deposits rest queue))
          | inr (status, changed, why) ↦ rw changed (
              marked-IsQueue btc_columns-IsColumns (Reason btcd keeper codec scanner submitter Ran)
                tx status s.deposits rest queue (env, ran, why))
        ]

    pub Step-Sound :
        (s t : System) (act : Act)
        → ((env : SubmitEnv) → act ≡ submits env → Ran env)
        → Step btcd keeper codec scanner submitter s t act
        → Inv s
        → Sound s t
    Step-Sound s t _ ran (insert_deposits env point txs rows lawful idle at_point fits scanned h e)
          inv =
        let (_, block, _, _, _, read) = scanned in
        let pending = get_valid_deposit_txs-pending btcd _ (point + 1) block txs read in
        rw e (insert-Sound env s txs rows (point + 1) lawful.deposit_lawful inv pending h)
    Step-Sound s t _ ran (move_sync_point env height configs lawful busy h e) inv =
        rw e (same_deposits s (record s { configs = configs; storing = none }) refl inv)
    Step-Sound s t _ ran (keep_sync_point env height failed busy h e) inv =
        rw e (same_deposits s (record s { storing = none }) refl inv)
    Step-Sound s t _ ran (fetch_batch env tip txs lawful empty at_tip h e) inv =
        rw e (fetch-Sound env s tip txs lawful inv h)
    Step-Sound s t _ ran (submit_deposit env tx rest u lawful first outcome e) inv = rw e (
        submit-Sound env s tx rest u lawful inv first
          (subst (λ v. Handled keeper codec submitter env tx s.deposits v.deposits) outcome
            (submit_tx-Handled keeper codec submitter env lawful tx
              (submit_state btcd keeper codec scanner submitter s)))
          (ran env refl))
    Step-Sound s t _ ran (crash e) inv = rw e (
        same_deposits s (record s { storing = none; batch = [] }) refl
          (IsQueue-dropped btc_columns-IsColumns s.deposits s.batch inv))

  -- Whatever the order of the steps of the scanner and the submitter, and whatever the crashes,
  -- from tables and a batch that are in order: they stay in order, so that no two rows have one
  -- txid and each deposit of the batch is a pending row of the table as it was fetched; and every
  -- row stays in its place, the same but for a status that was pending and changed with a reason
  -- that the submitter had in the world of one of its passes in this run, while new rows follow.
  pub Reach-Ages :
      (acts : List Act) (s t : System)
      → Inv s
      → Reach btcd keeper codec scanner submitter s acts t
      → Inv t × Ages btcd keeper codec scanner submitter (SubmitsOf acts) s.deposits t.deposits
  Reach-Ages [] s t inv start = (
    inv,
    Ages-refl btc_columns-IsColumns (Reason btcd keeper codec scanner submitter (SubmitsOf []))
        (Reason-ne-pending btcd keeper codec scanner submitter (SubmitsOf [])) s.deposits,
  )
  Reach-Ages (act ∷ acts) s t inv (next u run step) =
      let (inv', ages) = Reach-Ages acts s u inv run in
      let Ran = SubmitsOf (act ∷ acts) in
      let (after, more) = Step-Sound Ran u t act (λ env e. here e) step inv' in
      (
        after,
        Ages-Grows btc_columns-IsColumns (Reason btcd keeper codec scanner submitter Ran)
            (Reason-ne-pending btcd keeper codec scanner submitter Ran) s.deposits u.deposits
            t.deposits
            (Ages-weaken btc_columns (Reason btcd keeper codec scanner submitter (SubmitsOf acts))
              (Reason btcd keeper codec scanner submitter Ran)
              (λ tx n (env, ran, why). (env, there ran, why)) s.deposits u.deposits ages)
            more,
      )
