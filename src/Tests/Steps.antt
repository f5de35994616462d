-- ===== src/Tests/Steps.antt =====
-- The loops of one relayer on the small network: the scanner's pass and the submitter's pass as
-- steps, and what these steps do to the table.
use lorenzo_btcstaking_submi.Base.{refl, none, [], arith}
use lorenzo_btcstaking_submi.Db.Types.{BtcDepositTx}
use lorenzo_btcstaking_submi.TxRelayer.Submit.{submit_round}
use lorenzo_btcstaking_submi.TxRelayer.Steps.{System}
use lorenzo_btcstaking_submi.TxRelayer.Steps.Ageing.{Ages}
use lorenzo_btcstaking_submi.TxRelayer.Steps.Invariant.{Inv, SubmitsOf, Reach-Ages}
use lorenzo_btcstaking_submi.TxRelayer.Scan.AsSteps as Scan
use lorenzo_btcstaking_submi.TxRelayer.Submit.AsSteps as Submit
use lorenzo_btcstaking_submi.TxRelayer.Scan.AsSteps.{with_tables, scan_block_round-Reach}
use lorenzo_btcstaking_submi.TxRelayer.Submit.AsSteps.{with_submit_state, submit_round-Reach}
use lorenzo_btcstaking_submi.Tests.Table.{table-IsLawful}
use lorenzo_btcstaking_submi.Tests.World.{small_btcd, small_keeper, codec}
use lorenzo_btcstaking_submi.Tests.Relayer.{
  relayer, up, at_100, at_101, up-IsLawfulEnv, at_100-stored, first_round,
}
use lorenzo_btcstaking_submi.Tests.Submit.{submitter, submit_env, pending_rows}

-- The scanner stands at 100, and no row is stored.
abbrev no_rows : System
no_rows = record { configs = at_100.configs; deposits = []; storing = none; batch = []; sent = [] }

scan_block_round-Reach_example :
    Scan.Runs small_btcd small_keeper codec relayer submitter up up-IsLawfulEnv no_rows
      (with_tables small_btcd small_keeper codec relayer submitter up up-IsLawfulEnv no_rows at_101)
scan_block_round-Reach_example =
    scan_block_round-Reach small_btcd small_keeper codec relayer submitter up up-IsLawfulEnv 100
      no_rows at_101 refl at_100-stored (omega arith) first_round

-- Two rows wait.
abbrev two_rows : System
two_rows = record no_rows { deposits = pending_rows.deposits }

abbrev after_pass : System
after_pass =
    with_submit_state small_btcd small_keeper codec relayer submitter submit_env
      (table-IsLawful BtcDepositTx) two_rows
      (submit_round small_keeper codec submitter submit_env pending_rows)

two_rows-Inv : Inv two_rows
two_rows-Inv = record {
  rows_distinct = (refl, (refl, tt));
  batch_distinct = tt;
  batch_current = tt;
}

pass-Reach :
    Submit.Runs small_btcd small_keeper codec relayer submitter submit_env
      (table-IsLawful BtcDepositTx)
      two_rows
      after_pass
pass-Reach =
    (submit_round-Reach small_btcd small_keeper codec relayer submitter submit_env
      (table-IsLawful BtcDepositTx) two_rows refl).0

Reach-Ages_example :
    Inv after_pass
    × Ages small_btcd small_keeper codec relayer submitter
        (SubmitsOf pass-Reach.0)
        two_rows.deposits
        after_pass.deposits
Reach-Ages_example =
    Reach-Ages small_btcd small_keeper codec relayer submitter pass-Reach.0 two_rows after_pass
      two_rows-Inv pass-Reach.2
