-- ===== src/TxRelayer/Bnb/Steps.antt =====
-- The two loops of `BNBTxRelayer`, started side by side by `Start`, as a step relation: one step is
-- one transaction of the database. A crash loses what the loops hold in memory.
pub mod Invariant
pub mod Ledger
pub mod Gaps
use lorenzo_btcstaking_submi.Base.{
  ℕ, ◌+◌, ◌≤◌, ◌<◌, ◌≡◌, ◌⊎◌, u64_mod, true, Option, none, some, List, [], ◌∷◌, ok, err, Error,
}
use lorenzo_btcstaking_submi.Db.Types.{Config, WrappedBtcDepositTx}
use lorenzo_btcstaking_submi.Db.Orm.{Model, IsLawful}
use lorenzo_btcstaking_submi.Db.BnbRepository.{
  get_sync_point, update_sync_point, insert_wrapped_btc_deposit_txs,
  get_unhandled_wrapped_btc_deposit_txs,
}
use lorenzo_btcstaking_submi.TxRelayer.Lorenzo.{MsgCreateBtcbStaking}
use lorenzo_btcstaking_submi.TxRelayer.Bnb.{Encoding, BnbRelayer}
use lorenzo_btcstaking_submi.TxRelayer.Bnb.Scan.{WindowEnv}
use lorenzo_btcstaking_submi.TxRelayer.Bnb.Scan.Windows.{IsLawfulWindow, ReadWindow}
use lorenzo_btcstaking_submi.TxRelayer.Bnb.Submit.{WrappedEnv, WrappedSubmission, submit_wrapped}

-- The tables, the end of the window whose rows the scanner has inserted and whose sync point it has
-- not written yet, the rows that the submitter has fetched and not handled yet, and what it sent.
pub record BnbSystem : Type 0 where
  pub configs : List Config
  pub wrapped : List WrappedBtcDepositTx
  pub storing : Option ℕ
  pub batch : List WrappedBtcDepositTx
  pub sent : List MsgCreateBtcbStaking

-- The submitter's state in the system.
abbrev pub wrapped_submission : BnbSystem → WrappedSubmission
wrapped_submission s = record { wrapped = s.wrapped; sent = s.sent }

-- What takes a step: a pass of the scanner or of the submitter, with the world it has, or a crash.
pub data BnbAct (Body Proof : Type 0) : Type 0 where
  reads : WindowEnv Body Proof → BnbAct Body Proof
  sends : WrappedEnv → BnbAct Body Proof
  crashes : BnbAct Body Proof

module _ {Body Proof : Type 0} (encoding : Encoding Body Proof) (r : BnbRelayer) where
  -- The window that a pass of the scanner reads from a sync point on, and its rows: it begins right
  -- after the point, holds 1000 heights, or those up to the last one with its confirmations if they
  -- are fewer, and has its confirmations.
  abbrev pub Window : WindowEnv Body Proof → ℕ → ℕ → List WrappedBtcDepositTx → Type 0
  Window env point end txs =
      (point < end)
      × (end ≤ point + 1000)
      × ((end ≡ point + 1000) ⊎ (end + r.delay_blocks ≡ env.client.block_number.0))
      × ReadWindow encoding r env (point + 1) end txs

  pub data BnbStep (s t : BnbSystem) : BnbAct Body Proof → Type 0 where
    -- The scanner has read the next window, and commits its rows.
    insert_window :
        (env : WindowEnv Body Proof) (point end : ℕ) (txs rows : List WrappedBtcDepositTx)
        → IsLawfulWindow env
        → s.storing ≡ none
        → get_sync_point env.config_db s.configs ≡ ok point
        → point + 1001 + r.delay_blocks < u64_mod
        → Window env point end txs
        → insert_wrapped_btc_deposit_txs env.wrapped_db txs s.wrapped ≡ ok rows
        → t ≡ record s { wrapped = rows; storing = some end }
        → BnbStep s t (reads env)
    -- Then it commits the sync point.
    move_bnb_point :
        (env : WindowEnv Body Proof) (end : ℕ) (configs : List Config)
        → IsLawfulWindow env
        → s.storing ≡ some end
        → update_sync_point env.config_db end s.configs ≡ ok configs
        → t ≡ record s { configs = configs; storing = none }
        → BnbStep s t (reads env)
    -- Or that fails, and the next pass reads the window again.
    keep_bnb_point :
        (env : WindowEnv Body Proof) (end : ℕ) (e : Error)
        → s.storing ≡ some end
        → update_sync_point env.config_db end s.configs ≡ err e
        → t ≡ record s { storing = none }
        → BnbStep s t (reads env)
    -- The submitter, with its batch handled, fetches the next one.
    fetch_wrapped :
        (env : WrappedEnv) (tip : ℕ) (txs : List WrappedBtcDepositTx)
        → IsLawful env.wrapped_db
        → s.batch ≡ []
        → env.lorenzo.bnb_latest_header ≡ ok tip
        → get_unhandled_wrapped_btc_deposit_txs env.wrapped_db tip s.wrapped ≡ ok txs
        → t ≡ record s { batch = txs }
        → BnbStep s t (sends env)
    -- It submits the first row of its batch.
    submit_row :
        (env : WrappedEnv) (tx : WrappedBtcDepositTx) (rest : List WrappedBtcDepositTx)
        (u : WrappedSubmission)
        → IsLawful env.wrapped_db
        → s.batch ≡ tx ∷ rest
        → submit_wrapped encoding r env tx (wrapped_submission s) ≡ u
        → t ≡ record s { wrapped = u.wrapped; batch = rest; sent = u.sent }
        → BnbStep s t (sends env)
    -- Or it sees that `quit` is closed when it comes to that row, and leaves the rest of the batch.
    quit_batch :
        (env : WrappedEnv) (i : ℕ)
        → env.quit_closed i ≡ true
        → t ≡ record s { batch = [] }
        → BnbStep s t (sends env)
    crash_bnb : t ≡ record s { storing = none; batch = [] } → BnbStep s t crashes

  -- A run, with what took its steps, the latest first.
  pub data BnbReach (s : BnbSystem) : List (BnbAct Body Proof) → BnbSystem → Type 0 where
    start : BnbReach s [] s
    next :
        (u : BnbSystem) {acts : List (BnbAct Body Proof)} {act : BnbAct Body Proof} {t : BnbSystem}
        → BnbReach s acts u
        → BnbStep u t act
        → BnbReach s (act ∷ acts) t
