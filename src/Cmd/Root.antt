-- ===== src/Cmd/Root.antt =====
-- `RootAction` of cmd/root.go: from the flags to the shutdown. The flags of cobra, the database
-- driver and the SDK's client are parameters.
pub mod Returns
use lorenzo_btcstaking_submi.Base.{
  String, Bool, true, false, Option, none, some, List, Error, Result, ok, err, Run, done, panicked,
  spinning, then_run,
}
use lorenzo_btcstaking_submi.Config.{
  LorenzoConfig, TxRelayerConfig, BnbTxRelayerConfig, Floats, Source, Encoder, Level, new_config,
  create_logger,
}
use lorenzo_btcstaking_submi.Db.Types.{Config}
use lorenzo_btcstaking_submi.Db.Connection.{init}
use lorenzo_btcstaking_submi.TxRelayer.Bnb.{BnbRelayer}
use lorenzo_btcstaking_submi.TxRelayer.Startup.{
  BtcRelayer, StartEnv, BnbStartEnv, new_tx_relayer, new_bnb_tx_relayer,
}
use lorenzo_btcstaking_submi.Cmd.{TxRelayer, Process, Event, tx_relayer_list, run_relayers}

-- `if err != nil { panic(err) }`
abbrev pub must {ℓ κ} : {A : Type ℓ} {B : Type κ} → Result A → (A → Run B) → Run B
must (ok a) f = f a
must (err e) f = panicked

abbrev pub must_not {κ} : {B : Type κ} → Option Error → Run B → Run B
must_not none rest = rest
must_not (some e) rest = panicked

-- A relayer that was made: its name, and the goroutines that its `Start` adds to the wait group.
abbrev pub btc_tx_relayer_of : Bool → BtcRelayer → TxRelayer
btc_tx_relayer_of loops_end r = record {
  chain_name = "BTC";
  loops = 3;
  quit_closed = false;
  running = 0;
  loops_end = loops_end;
}

abbrev pub bnb_tx_relayer_of : Bool → BnbRelayer → TxRelayer
bnb_tx_relayer_of loops_end r = record {
  chain_name = r.chain_name;
  loops = 2;
  quit_closed = false;
  running = 0;
  loops_end = loops_end;
}

abbrev pub bnb_result : Bool → Result BnbRelayer → Result TxRelayer
bnb_result loops_end (ok r) = ok (bnb_tx_relayer_of loops_end r)
bnb_result loops_end (err e) = err e

-- The flags, the file, the drivers, and the worlds in which the relayers are made once the
-- connection is open; and whether the loops of each relayer end once its `quit` channel is closed.
pub record RootEnv (Float Others : Type 0) : Type 0 where
  pub config_flag : Result String
  pub debug_flag : Result Bool
  pub source : Source Float Others
  pub open_connection : String → Option Error
  pub quote : String → String
  pub new_lorenzo_client : LorenzoConfig Float Others → Encoder × Level → Option Error
  pub btc : StartEnv
  pub bnb : BnbStartEnv
  pub btc_loops_end : Bool
  pub bnb_loops_end : Bool

module _ {Float Others : Type 0} (floats : Floats Float)
    (validate_lorenzo : LorenzoConfig Float Others → Option Error)
    (env : RootEnv Float Others) where
  -- Both relayers, and the table of the sync points: the BTC relayer must be made, and the failure
  -- of the BNB relayer is only logged.
  unfoldable pub make_relayers :
      TxRelayerConfig
      → BnbTxRelayerConfig
      → List Config
      → Run ((BtcRelayer × Result BnbRelayer) × List Config)
  make_relayers conf bnb_conf table =
      then_run (new_tx_relayer (record env.btc { db_open = true }) conf table) λ made.
        must made.0 λ btc.
          then_run (new_bnb_tx_relayer (record env.bnb { db_open = true }) bnb_conf made.1)
            λ tried. done ((btc, tried.0), tried.1)

  -- Until the list of the relayers.
  unfoldable pub set_up : List Config → Run ((BtcRelayer × Result BnbRelayer) × List Config)
  unfolding make_relayers
  set_up table = must env.config_flag λ config_file.
      must (new_config floats validate_lorenzo env.source config_file) λ cfg.
        must_not (init env.open_connection cfg.database) (
          must env.debug_flag λ enable_debug. must (create_logger env.quote enable_debug) λ logger.
            must_not (env.new_lorenzo_client cfg.lorenzo logger)
              (make_relayers cfg.tx_relayer cfg.bnb_tx_relayer table))

  -- `RootAction`, where the interrupt comes after the loop over the relayers: how the relayers end,
  -- and the table of the sync points.
  unfoldable pub root_action : List Config → Event → Run (Process × List Config)
  unfolding set_up
  root_action table interrupt = then_run (set_up table) λ made.
      then_run
        (run_relayers
          (tx_relayer_list (btc_tx_relayer_of env.btc_loops_end made.0.0)
            (bnb_result env.bnb_loops_end made.0.1))
          interrupt)
        λ ended. done (ended, made.1)
