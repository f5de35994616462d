-- ===== src/Tests/Program.antt =====
-- Both relayers on the small networks, with one config table.
use mathlib.Core.List.{mem-cons_self}
use lorenzo_btcstaking_submi.Base.{
  ok, ◌≡◌, refl, none, [], ◌∷◌, arith, done, List, add_u64, sub_u64, bytes_eq, Bytes, map, ◌++◌,
}
use lorenzo_btcstaking_submi.Strconv.{parse_uint, format_uint}
use lorenzo_btcstaking_submi.Btc.Query.{get_btc_current_height, get_block_by_height, get_tx}
use lorenzo_btcstaking_submi.Db.Types.{
  Config, WrappedBtcDepositTx, submitter_btc_sync_point_key, submitter_bnb_sync_point_key,
}
use lorenzo_btcstaking_submi.Db.Kv.SyncPoint.{stored}
use lorenzo_btcstaking_submi.Db.Queue.Ledger.{Move}
use lorenzo_btcstaking_submi.TxRelayer.Scan.{ScanState, scan_block_round}
use lorenzo_btcstaking_submi.TxRelayer.Bnb.Submit.Outcomes.{WrappedSubmitted}
use lorenzo_btcstaking_submi.TxRelayer.Scan.AsSteps as Scan
use lorenzo_btcstaking_submi.TxRelayer.Bnb.Scan.AsSteps as BnbScan
use lorenzo_btcstaking_submi.TxRelayer.Bnb.Submit.AsSteps as BnbSubmit
use lorenzo_btcstaking_submi.TxRelayer.Scan.AsSteps.{with_tables, scan_block_round-Reach}
use lorenzo_btcstaking_submi.TxRelayer.Steps.Gaps.{Held}
use lorenzo_btcstaking_submi.TxRelayer.Steps.Ledger.{status_of}
use lorenzo_btcstaking_submi.TxRelayer.Bnb.Scan.{scan_round, window_end}
use lorenzo_btcstaking_submi.TxRelayer.Bnb.Scan.AsSteps.{with_bnb_tables, scan_round-Reach}
use lorenzo_btcstaking_submi.TxRelayer.Bnb.Submit.{
  submit_wrapped_round, WrappedSubmission, submit_wrapped,
}
use lorenzo_btcstaking_submi.TxRelayer.Bnb.Submit.AsSteps.{
  with_submission, submit_wrapped_round-Reach,
}
use lorenzo_btcstaking_submi.TxRelayer.Bnb.Steps.{BnbSystem, sends, wrapped_submission, submit_row}
use lorenzo_btcstaking_submi.TxRelayer.Bnb.Steps.Gaps.{bnb_tables, HeldWindow}
use lorenzo_btcstaking_submi.TxRelayer.Bnb.Steps.Ledger.{wrapped_status}
use lorenzo_btcstaking_submi.TxRelayer.Program.{
  Program, ProgramAct, by_btc, by_bnb, btc_of, with_btc, bnb_of, with_bnb, ProgramReach, btc_run,
  bnb_run, ProgramReach-trans, bnb_step,
}
use lorenzo_btcstaking_submi.TxRelayer.Program.Ledgers.{InOrder, ProgramStep-Move}
use lorenzo_btcstaking_submi.TxRelayer.Program.NoGaps.{ScansOf, ReadsOf, ProgramReach-Held}
use lorenzo_btcstaking_submi.Tests.Table.{table-IsLawful}
use lorenzo_btcstaking_submi.Tests.World.{config, small_btcd, small_keeper, codec}
use lorenzo_btcstaking_submi.Tests.Relayer.{relayer, up, up-IsLawfulEnv, both_deposits}
use lorenzo_btcstaking_submi.Tests.Submit.{submitter}
use lorenzo_btcstaking_submi.Tests.Bnb.{
  small_encoding, bnb_relayer, client_at, window_at, window_at-IsLawfulWindow, seen_env,
  wrapped_row,
}
use lorenzo_btcstaking_submi.Btc.Utils.{extract_payment_to, extract_payment_to_with_op_return_id}
use lorenzo_btcstaking_submi.Db.Orm.{first_row}
use lorenzo_btcstaking_submi.Db.Kv.{get_uint64, set_uint64}
use lorenzo_btcstaking_submi.Db.BtcRepository.{
  get_sync_point, update_sync_point, insert_btc_deposit_txs,
}
use lorenzo_btcstaking_submi.TxRelayer.Agents.{get_agent_by_address, is_valid_deposit_receiver}
use lorenzo_btcstaking_submi.TxRelayer.Deposits.{get_valid_deposit_txs}
use lorenzo_btcstaking_submi.Db.BnbRepository.{insert_wrapped_btc_deposit_txs}
use lorenzo_btcstaking_submi.TxRelayer.Bnb.{to_wrapped_list}
use lorenzo_btcstaking_submi.Db.BnbRepository

-- The BTC scanner stands at 100 and the BNB scanner at 3500.
abbrev points : List Config
points = config submitter_bnb_sync_point_key "3500" ∷ config submitter_btc_sync_point_key "100" ∷ []

abbrev idle : Program
idle = record {
  configs = points;
  deposits = [];
  storing = none;
  batch = [];
  sent = [];
  wrapped = [];
  storing_window = none;
  wrapped_batch = [];
  wrapped_sent = [];
}

abbrev scanned : ScanState
scanned = record {
  configs =
      config submitter_bnb_sync_point_key "3500" ∷ config submitter_btc_sync_point_key "101" ∷ [];
  deposits = both_deposits;
}

btc_round :
    scan_block_round small_btcd codec relayer up (record { configs = points; deposits = [] })
    ≡ done scanned
unfolding scan_block_round get_btc_current_height get_block_by_height get_tx get_valid_deposit_txs
    extract_payment_to extract_payment_to_with_op_return_id get_agent_by_address
    is_valid_deposit_receiver bytes_eq add_u64 get_sync_point update_sync_point get_uint64
    set_uint64 parse_uint format_uint first_row insert_btc_deposit_txs
btc_round = refl

points-stored : stored submitter_btc_sync_point_key points ≡ ok 100
unfolding stored parse_uint
points-stored = refl

points-bnb_stored : stored submitter_bnb_sync_point_key points ≡ ok 3500
unfolding stored parse_uint
points-bnb_stored = refl

abbrev btc_done : Program
btc_done = with_btc idle (
    with_tables small_btcd small_keeper codec relayer submitter up up-IsLawfulEnv (btc_of idle)
      scanned)

abbrev both_done : Program
both_done = with_bnb btc_done (
    with_bnb_tables (bnb_of btc_done) (
      scan_round small_encoding bnb_relayer (window_at (client_at 5000))
        (bnb_tables (bnb_of btc_done))))

btc_done-bnb_stored : stored submitter_bnb_sync_point_key btc_done.configs ≡ ok 3500
unfolding stored parse_uint
btc_done-bnb_stored = refl

scan_round-Reach_example :
    BnbScan.Runs small_encoding bnb_relayer
      (window_at (client_at 5000))
      (window_at-IsLawfulWindow 5000 (omega arith))
      (bnb_of btc_done)
      (bnb_of both_done)
scan_round-Reach_example =
    scan_round-Reach small_encoding bnb_relayer (window_at (client_at 5000))
      (window_at-IsLawfulWindow 5000 (omega arith)) 3500 (bnb_of btc_done) refl btc_done-bnb_stored
      (omega arith)

bnb_pass :
    BnbScan.Runs small_encoding bnb_relayer
      (window_at (client_at 5000))
      (window_at-IsLawfulWindow 5000 (omega arith))
      (bnb_of btc_done)
      (bnb_of both_done)
bnb_pass =
    scan_round-Reach small_encoding bnb_relayer (window_at (client_at 5000))
      (window_at-IsLawfulWindow 5000 (omega arith)) 3500 (bnb_of btc_done) refl btc_done-bnb_stored
      (omega arith)

btc_pass :
    Scan.Runs small_btcd small_keeper codec relayer submitter up up-IsLawfulEnv
      (btc_of idle)
      (btc_of btc_done)
btc_pass =
    scan_block_round-Reach small_btcd small_keeper codec relayer submitter up up-IsLawfulEnv 100
      (btc_of idle) scanned refl points-stored (omega arith) btc_round

-- What took the steps of both passes.
abbrev trace : List (ProgramAct Bytes Bytes)
trace = map by_bnb bnb_pass.0 ++ map by_btc btc_pass.0

passes :
    ProgramReach small_btcd small_keeper codec relayer submitter small_encoding bnb_relayer idle
      trace both_done
passes =
    ProgramReach-trans small_btcd small_keeper codec relayer submitter small_encoding bnb_relayer
      (map by_btc btc_pass.0) (map by_bnb bnb_pass.0) idle btc_done both_done
      (btc_run small_btcd small_keeper codec relayer submitter small_encoding bnb_relayer btc_pass.0
        idle (btc_of btc_done) btc_pass.2)
      (bnb_run small_btcd small_keeper codec relayer submitter small_encoding bnb_relayer bnb_pass.0
        btc_done (bnb_of both_done) bnb_pass.2)

both_done-stored : stored submitter_btc_sync_point_key both_done.configs ≡ ok 101
unfolding stored scan_round window_end add_u64 sub_u64 BnbRepository.get_sync_point
    BnbRepository.update_sync_point get_uint64 set_uint64 parse_uint format_uint first_row
    to_wrapped_list insert_wrapped_btc_deposit_txs
both_done-stored = refl

both_done-bnb_stored : stored submitter_bnb_sync_point_key both_done.configs ≡ ok 4500
unfolding stored scan_round window_end add_u64 sub_u64 BnbRepository.get_sync_point
    BnbRepository.update_sync_point get_uint64 set_uint64 parse_uint format_uint first_row
    to_wrapped_list insert_wrapped_btc_deposit_txs
both_done-bnb_stored = refl

idle-InOrder :
    InOrder small_btcd small_keeper codec relayer submitter small_encoding bnb_relayer idle
idle-InOrder = (
  record { rows_distinct = tt; batch_distinct = tt; batch_current = tt },
  record {
    queue = record { rows_distinct = tt; batch_distinct = tt; batch_current = tt };
    of_chain = tt;
  },
)

ProgramReach-Held_example :
    Held small_btcd small_keeper codec relayer submitter (ScansOf trace) 101 both_done.deposits
    × HeldWindow small_encoding bnb_relayer (ReadsOf trace) 4000 both_done.wrapped
ProgramReach-Held_example =
    ProgramReach-Held small_btcd small_keeper codec relayer submitter small_encoding bnb_relayer
      trace 100 101 101 3500 4500 4000 idle both_done idle-InOrder refl refl (omega arith)
      (omega arith) points-stored points-bnb_stored passes both_done-stored both_done-bnb_stored
      (omega arith) (omega arith) (omega arith) (omega arith)

-- A row of the node's chain waits, and is in the batch.
abbrev waiting : Program
waiting = record idle { wrapped = wrapped_row 0 ∷ []; wrapped_batch = wrapped_row 0 ∷ [] }

waiting-InOrder :
    InOrder small_btcd small_keeper codec relayer submitter small_encoding bnb_relayer waiting
waiting-InOrder = (
  record { rows_distinct = tt; batch_distinct = tt; batch_current = tt },
  record {
    queue = record {
      rows_distinct = (refl, tt);
      batch_distinct = (refl, tt);
      batch_current = ((mem-cons_self, refl), tt);
    };
    of_chain = (refl, tt);
  },
)

-- The node has seen its event.
abbrev answered : WrappedSubmission
answered =
    submit_wrapped small_encoding bnb_relayer seen_env (wrapped_row 0)
      (wrapped_submission (bnb_of waiting))

abbrev settled_row : BnbSystem
settled_row = record (bnb_of waiting) {
  wrapped = answered.wrapped;
  batch = [];
  sent = answered.sent;
}

ProgramStep-Move_example :
    InOrder small_btcd small_keeper codec relayer submitter small_encoding bnb_relayer
      (with_bnb waiting settled_row)
    × Move
        (status_of "tx-a" waiting.deposits)
        (status_of "tx-a" (with_bnb waiting settled_row).deposits)
    × Move
        (wrapped_status "bnb" "0xa" waiting.wrapped)
        (wrapped_status "bnb" "0xa" (with_bnb waiting settled_row).wrapped)
ProgramStep-Move_example =
    ProgramStep-Move small_btcd small_keeper codec relayer submitter small_encoding bnb_relayer
      (by_bnb (sends seen_env)) waiting (with_bnb waiting settled_row) "tx-a" "bnb" "0xa"
      waiting-InOrder
      (bnb_step (sends seen_env) settled_row
        (submit_row seen_env (wrapped_row 0) [] answered (table-IsLawful WrappedBtcDepositTx) refl
          refl refl)
        refl)

abbrev one_waits : BnbSystem
one_waits = record (bnb_of waiting) { batch = [] }

submit_wrapped_round-Reach_example :
    BnbSubmit.Runs small_encoding bnb_relayer seen_env
      (table-IsLawful WrappedBtcDepositTx)
      one_waits
      (with_submission one_waits
        (submit_wrapped_round small_encoding bnb_relayer seen_env (wrapped_submission one_waits)))
    × WrappedSubmitted small_encoding bnb_relayer seen_env
        (wrapped_submission one_waits)
        (submit_wrapped_round small_encoding bnb_relayer seen_env (wrapped_submission one_waits))
submit_wrapped_round-Reach_example =
    submit_wrapped_round-Reach small_encoding bnb_relayer seen_env
      (table-IsLawful WrappedBtcDepositTx) one_waits refl
