-- ===== src/TxRelayer/Steps/Ledger.antt =====
-- The relayer's contract for one transaction, as a ledger of statuses.
use lorenzo_btcstaking_submi.Base.{ℕ, refl, String, Option, List}
use lorenzo_btcstaking_submi.Btc.Network.{Codec}
use lorenzo_btcstaking_submi.Btc.Utils.{Btcd}
use lorenzo_btcstaking_submi.Db.Types.{BtcDepositTx}
use lorenzo_btcstaking_submi.Db.Queue.Ledger.{Move, status_where, Grows-Move}
use lorenzo_btcstaking_submi.Db.BtcRepository.{with_txid}
use lorenzo_btcstaking_submi.Db.BtcRepository.Columns.{btc_columns, btc_columns-IsColumns}
use lorenzo_btcstaking_submi.TxRelayer.Lorenzo.{Keeper}
use lorenzo_btcstaking_submi.TxRelayer.Scan.{Relayer}
use lorenzo_btcstaking_submi.TxRelayer.Submit.{Submitter}
use lorenzo_btcstaking_submi.TxRelayer.Steps.{System, Act, Step}
use lorenzo_btcstaking_submi.TxRelayer.Steps.Ageing.{AnyPass, Reason, Reason-ne-pending}
use lorenzo_btcstaking_submi.TxRelayer.Steps.Invariant.{Inv, Step-Sound}

-- The ledger of a table: the status of a txid, if it has a row.
abbrev pub status_of : String → List BtcDepositTx → Option ℕ
status_of txid = status_where btc_columns (with_txid txid)

module _ {PkScript Address MerkleBlock : Type 0} (btcd : Btcd PkScript Address)
    (keeper : Keeper MerkleBlock) (codec : Codec) (scanner : Relayer) (submitter : Submitter) where
  -- A step of the relayer, of whichever loop or a crash, refines a ledger of one status for each
  -- txid: from tables and a batch that are in order they stay in order, and the status of a txid
  -- stays, or it was absent and becomes pending, or it was pending and becomes another status, so
  -- that a settled deposit is never settled again.
  pub Step-Move :
      (act : Act) (s t : System) (txid : String)
      → Inv s
      → Step btcd keeper codec scanner submitter s t act
      → Inv t × Move (status_of txid s.deposits) (status_of txid t.deposits)
  Step-Move act s t txid inv step =
      let (after, grows) =
        Step-Sound btcd keeper codec scanner submitter AnyPass s t act (λ env e. tt) step inv in
      (
        after,
        Grows-Move btc_columns btc_columns-IsColumns
            (Reason btcd keeper codec scanner submitter AnyPass)
            (Reason-ne-pending btcd keeper codec scanner submitter AnyPass) (with_txid txid)
            (λ row n. refl) s.deposits t.deposits grows,
      )
