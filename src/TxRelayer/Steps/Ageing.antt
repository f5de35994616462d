-- ===== src/TxRelayer/Steps/Ageing.antt =====
-- What a run may do to the rows of the deposits table: the queue's growth, with the submitter's
-- reasons.
use lorenzo_btcstaking_submi.Base.{ℕ, ◌≢◌, List}
use lorenzo_btcstaking_submi.Btc.Network.{Codec}
use lorenzo_btcstaking_submi.Btc.Utils.{Btcd}
use lorenzo_btcstaking_submi.Db.Types.{BtcDepositTx, status_pending}
use lorenzo_btcstaking_submi.Db.Queue
use lorenzo_btcstaking_submi.Db.BtcRepository.Columns.{btc_columns}
use lorenzo_btcstaking_submi.TxRelayer.Lorenzo.{Keeper}
use lorenzo_btcstaking_submi.TxRelayer.Scan.{Relayer}
use lorenzo_btcstaking_submi.TxRelayer.Submit.{Submitter, SubmitEnv}
use lorenzo_btcstaking_submi.TxRelayer.Submit.Marks.{Justified, Justified-ne-pending}

-- Any pass.
abbrev pub AnyPass : SubmitEnv → Type 0
AnyPass env = Unit {0}

module _ {PkScript Address MerkleBlock : Type 0} (btcd : Btcd PkScript Address)
    (keeper : Keeper MerkleBlock) (codec : Codec) (scanner : Relayer) (submitter : Submitter)
    (Ran : SubmitEnv → Type 0) where
  -- A reason of the submitter, with the world of one of its passes, in which it had it.
  abbrev pub Reason : BtcDepositTx → ℕ → Type 0
  Reason tx status = (env : SubmitEnv) × Ran env × Justified keeper codec submitter env tx status

  -- A reason is never one for a pending status.
  pub Reason-ne-pending :
      (tx : BtcDepositTx) (status : ℕ) → Reason tx status → status ≢ status_pending
  Reason-ne-pending tx status (env, _, why) =
      Justified-ne-pending keeper codec submitter env tx status why

  -- The rows of the table have aged in their places, and others may follow.
  abbrev pub Ages : List BtcDepositTx → List BtcDepositTx → Type 0
  Ages = Queue.Ages btc_columns Reason

  -- The same, where the rows that follow are pending.
  abbrev pub Grows : List BtcDepositTx → List BtcDepositTx → Type 0
  Grows = Queue.Grows btc_columns Reason
