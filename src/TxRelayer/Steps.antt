-- ===== src/TxRelayer/Steps.antt =====
-- The loops of one relayer, started side by side by `TxRelayer.Start`, as a step relation: one step
-- is one transaction of the database, so those of the scanner and of the submitter come in any
-- order. A crash loses what the loops hold in memory, and the tables stay.
pub mod Ageing
pub mod Invariant
pub mod Ledger
pub mod Gaps
use lorenzo_btcstaking_submi.Base.{
  ℕ, ◌+◌, ◌<◌, ◌≡◌, u64_mod, String, Option, none, some, List, [], ◌∷◌, Result, ok, err, Error,
}
use lorenzo_btcstaking_submi.Btc.Network.{Codec}
use lorenzo_btcstaking_submi.Btc.Utils.{Btcd}
use lorenzo_btcstaking_submi.Db.Types.{Config, BtcDepositTx}
use lorenzo_btcstaking_submi.Db.Orm.{Model, IsLawful}
use lorenzo_btcstaking_submi.Db.BtcRepository.{
  get_sync_point, update_sync_point, insert_btc_deposit_txs, get_unhandled_btc_deposit_txs,
}
use lorenzo_btcstaking_submi.TxRelayer.Lorenzo.{MsgCreateBtcStaking, Keeper}
use lorenzo_btcstaking_submi.TxRelayer.Scan.{Relayer, RoundEnv}
use lorenzo_btcstaking_submi.TxRelayer.Scan.Round.{IsLawfulEnv, Scanned}
use lorenzo_btcstaking_submi.TxRelayer.Submit.{Submitter, SubmitEnv, SubmitState, submit_tx}

-- The tables, the height whose deposits the scanner has inserted and whose sync point it has not
-- written yet, the deposits that the submitter has fetched and not handled yet, and what it sent.
pub record System : Type 0 where
  pub configs : List Config
  pub deposits : List BtcDepositTx
  pub storing : Option ℕ
  pub batch : List BtcDepositTx
  pub sent : List MsgCreateBtcStaking

-- What takes a step: a pass of the scanner or of the submitter, with the world it has, or a crash.
pub data Act : Type 0 where
  scans : RoundEnv → Act
  submits : SubmitEnv → Act
  crashes : Act

module _ {PkScript Address MerkleBlock : Type 0} (btcd : Btcd PkScript Address)
    (keeper : Keeper MerkleBlock) (codec : Codec) (scanner : Relayer) (submitter : Submitter) where
  -- The submitter's state in the system, and the system after the submitter's step.
  abbrev pub submit_state : System → SubmitState
  submit_state s = record { deposits = s.deposits; sent = s.sent }

  pub data Step (s t : System) : Act → Type 0 where
    -- The scanner has read the next block, whose height is a `uint64`, and commits its deposits.
    insert_deposits :
        (env : RoundEnv) (point : ℕ) (txs rows : List BtcDepositTx)
        → IsLawfulEnv env
        → s.storing ≡ none
        → get_sync_point env.config_db s.configs ≡ ok point
        → point + 1 < u64_mod
        → Scanned btcd codec scanner env (point + 1) txs
        → insert_btc_deposit_txs env.deposit_db txs s.deposits ≡ ok rows
        → t ≡ record s { deposits = rows; storing = some (point + 1) }
        → Step s t (scans env)
    -- Then it commits the sync point.
    move_sync_point :
        (env : RoundEnv) (height : ℕ) (configs : List Config)
        → IsLawfulEnv env
        → s.storing ≡ some height
        → update_sync_point env.config_db height s.configs ≡ ok configs
        → t ≡ record s { configs = configs; storing = none }
        → Step s t (scans env)
    -- Or that fails, and the next pass reads the block again.
    keep_sync_point :
        (env : RoundEnv) (height : ℕ) (e : Error)
        → s.storing ≡ some height
        → update_sync_point env.config_db height s.configs ≡ err e
        → t ≡ record s { storing = none }
        → Step s t (scans env)
    -- The submitter, with its batch handled, fetches the next one.
    fetch_batch :
        (env : SubmitEnv) (tip : ℕ) (txs : List BtcDepositTx)
        → IsLawful env.deposit_db
        → s.batch ≡ []
        → env.lorenzo.btc_header_chain_tip ≡ ok tip
        → get_unhandled_btc_deposit_txs env.deposit_db tip s.deposits ≡ ok txs
        → t ≡ record s { batch = txs }
        → Step s t (submits env)
    -- It submits the first deposit of its batch.
    submit_deposit :
        (env : SubmitEnv) (tx : BtcDepositTx) (rest : List BtcDepositTx) (u : SubmitState)
        → IsLawful env.deposit_db
        → s.batch ≡ tx ∷ rest
        → submit_tx keeper codec submitter env tx (submit_state s) ≡ u
        → t ≡ record s { deposits = u.deposits; batch = rest; sent = u.sent }
        → Step s t (submits env)
    crash : t ≡ record s { storing = none; batch = [] } → Step s t crashes

  -- A run, with what took its steps, the latest first.
  pub data Reach (s : System) : List Act → System → Type 0 where
    start : Reach s [] s
    next :
        (u : System) {acts : List Act} {act : Act} {t : System}
        → Reach s acts u
        → Step u t act
        → Reach s (act ∷ acts) t
