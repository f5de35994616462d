-- ===== src/Cmd/Root/Returns.antt =====
-- When `RootAction` of cmd/root.go returns, and when it panics.
use mathlib.Core.Path.{subst}
use lorenzo_btcstaking_submi.Base.{
  ◌≡◌, ◌⊎◌, ◌↔◌, refl, ◌∙◌, ap, inl, inr, String, Bool, true, false, Option, none, some, List, [],
  ◌∷◌, Error, Result, ok, err, Run, done, panicked, spinning, then_run-done, Result-cases, arith,
  if◌then◌else◌,
}
use lorenzo_btcstaking_submi.Config.{
  LorenzoConfig, TxRelayerConfig, BnbTxRelayerConfig, Floats, Level, info_level, debug_level,
  console_encoder, new_config, new_root_logger, create_logger,
}
use lorenzo_btcstaking_submi.Config as Conf
use lorenzo_btcstaking_submi.Db.Types.{Config}
use lorenzo_btcstaking_submi.Db.Connection.{init}
use lorenzo_btcstaking_submi.TxRelayer.Bnb.{BnbRelayer}
use lorenzo_btcstaking_submi.TxRelayer.Startup.{
  db_not_initialized, BtcRelayer, new_tx_relayer, new_bnb_tx_relayer,
}
use lorenzo_btcstaking_submi.Cmd.{
  Process, Event, signal, simulated_interrupt, tx_relayer_list, run_relayers,
}
use lorenzo_btcstaking_submi.Cmd.Shutdown.{IsFresh, run_relayers-shuts_down}
use lorenzo_btcstaking_submi.Cmd.Root.{
  must, must_not, btc_tx_relayer_of, bnb_tx_relayer_of, bnb_result, RootEnv, make_relayers, set_up,
  root_action,
}

must-done {ℓ κ} :
    {A : Type ℓ} {B : Type κ} (r : Result A) (f : A → Run B) {b : B}
    → must r f ≡ done b
    → (a : A) × (r ≡ ok a) × (f a ≡ done b)
must-done (ok a) f h = (a, refl, h)
must-done (err e) f h = cc

must_not-done {κ} :
    {B : Type κ} (e : Option Error) (rest : Run B) {b : B}
    → must_not e rest ≡ done b
    → (e ≡ none) × (rest ≡ done b)
must_not-done none rest h = (refl, h)
must_not-done (some e) rest h = cc

-- The level of the logger.
abbrev pub level_of : Bool → Level
level_of debug = if debug then debug_level else info_level

create_logger-console :
    (quote : String → String) (debug : Bool)
    → create_logger quote debug ≡ ok (console_encoder, level_of debug)
unfolding create_logger new_root_logger
create_logger-console quote debug = refl

btc_tx_relayer_of-IsFresh : (ends : Bool) (r : BtcRelayer) → IsFresh (btc_tx_relayer_of ends r)
btc_tx_relayer_of-IsFresh ends r = record { has_loops = omega arith; idle = refl; open_quit = refl }

bnb_tx_relayer_of-IsFresh : (ends : Bool) (r : BnbRelayer) → IsFresh (bnb_tx_relayer_of ends r)
bnb_tx_relayer_of-IsFresh ends r = record { has_loops = omega arith; idle = refl; open_quit = refl }

-- The BTC relayer alone, stopped, with its loops ended.
abbrev pub shut_down : BtcRelayer → Process
shut_down btc = record {
  tx_relayers = record (btc_tx_relayer_of true btc) { running = 0; quit_closed = true } ∷ [];
  tx_relayer = 0;
  handlers_done = true;
}

module _ {Float Others : Type 0} (floats : Floats Float)
    (validate_lorenzo : LorenzoConfig Float Others → Option Error)
    (env : RootEnv Float Others) where
  -- The flags, the file, the database and the node's client are there.
  abbrev pub Prepared : String → Conf.Config Float Others → Bool → Type 0
  Prepared config_file cfg debug =
      (env.config_flag ≡ ok config_file)
      × (new_config floats validate_lorenzo env.source config_file ≡ ok cfg)
      × (init env.open_connection cfg.database ≡ none)
      × (env.debug_flag ≡ ok debug)
      × (env.new_lorenzo_client cfg.lorenzo (console_encoder, level_of debug) ≡ none)

  -- And both relayers were tried: the BTC relayer was made.
  abbrev pub Made :
      Conf.Config Float Others → List Config → List Config → BtcRelayer → Result BnbRelayer → Type 0
  Made cfg table after btc bnb =
      (between : List Config) × (new_tx_relayer (record env.btc { db_open = true }) cfg.tx_relayer
          table
        ≡ done (ok btc, between))
      × (new_bnb_tx_relayer (record env.bnb { db_open = true }) cfg.bnb_tx_relayer between
          ≡ done (bnb, after))

  make_relayers-Made :
      (cfg : Conf.Config Float Others) (table after : List Config) (btc : BtcRelayer)
      (bnb : Result BnbRelayer)
      → (make_relayers floats validate_lorenzo env cfg.tx_relayer cfg.bnb_tx_relayer table
          ≡ done ((btc, bnb), after))
        ↔ Made cfg table after btc bnb
  unfolding make_relayers
  make_relayers-Made cfg table after btc bnb = (
    λ h.
        let ((made, between), e, f) =
          then_run-done (new_tx_relayer (record env.btc { db_open = true }) cfg.tx_relayer table) _
            h in
        elim (Result-cases made) [
          | inr (why, failed) ↦ absurd (ground arith)
          | inl (btc', is_made) ↦
              let ((bnb', left), tried, same) =
                then_run-done
                  (new_bnb_tx_relayer (record env.bnb { db_open = true }) cfg.bnb_tx_relayer
                    between)
                  _ (rw is_made at f) in
              (between, ground arith, ground arith)
        ],
    λ (between, e, f). ground arith,
  )

  set_up-Prepared :
      (table after : List Config) (btc : BtcRelayer) (bnb : Result BnbRelayer)
      → (set_up floats validate_lorenzo env table ≡ done ((btc, bnb), after)) ↔ (
          (config_file : String) × (cfg : Conf.Config Float Others) × (debug : Bool) × Prepared
            config_file cfg debug
          × Made cfg table after btc bnb)
  unfolding set_up
  set_up-Prepared table after btc bnb = (
    λ h.
        let (config_file, flagged, h1) = must-done env.config_flag _ h in
        let (cfg, read, h2) =
          must-done (new_config floats validate_lorenzo env.source config_file) _ h1 in
        let (opened, h3) = must_not-done (init env.open_connection cfg.database) _ h2 in
        let (debug, flagged', h4) = must-done env.debug_flag _ h3 in
        let (logger, logs, h5) = must-done (create_logger env.quote debug) _ h4 in
        let (client, h6) = must_not-done (env.new_lorenzo_client cfg.lorenzo logger) _ h5 in
        let same : logger ≡ (console_encoder, level_of debug) =
          ground (arith, create_logger-console env.quote debug) in
        (
          config_file,
          cfg,
          debug,
          (flagged, read, opened, flagged', rw same at client),
          (make_relayers-Made cfg table after btc bnb).0 h6,
        ),
    λ (config_file, cfg, debug, (flagged, read, opened, flagged', client), made).
        let relayers = (make_relayers-Made cfg table after btc bnb).1 made in
        let logs = create_logger-console env.quote debug in
        rw (flagged, read, opened, flagged', logs, client) relayers,
  )

  module _ (interrupt : Event)
      (kind : (interrupt ≡ signal) ⊎ (interrupt ≡ simulated_interrupt)) where
    alone :
        (ends : Bool) (btc : BtcRelayer) (e : Error)
        → run_relayers (tx_relayer_list (btc_tx_relayer_of ends btc) (err e)) interrupt
          ≡ (if ends then done (shut_down btc) else spinning)
    alone true btc e =
        let r = btc_tx_relayer_of true btc in
        (run_relayers-shuts_down r r interrupt e (btc_tx_relayer_of-IsFresh true btc)
          (btc_tx_relayer_of-IsFresh true btc) kind).0
    alone false btc e =
        let r = btc_tx_relayer_of false btc in
        (run_relayers-shuts_down r r interrupt e (btc_tx_relayer_of-IsFresh false btc)
          (btc_tx_relayer_of-IsFresh false btc) kind).0

    both :
        (ends bnb_ends : Bool) (btc : BtcRelayer) (bnb : BnbRelayer)
        → run_relayers
            (tx_relayer_list (btc_tx_relayer_of ends btc) (ok (bnb_tx_relayer_of bnb_ends bnb)))
            interrupt
          ≡ (if bnb_ends then panicked else spinning)
    both ends bnb_ends btc bnb =
        (run_relayers-shuts_down (btc_tx_relayer_of ends btc) (bnb_tx_relayer_of bnb_ends bnb)
          interrupt db_not_initialized (btc_tx_relayer_of-IsFresh ends btc)
          (bnb_tx_relayer_of-IsFresh bnb_ends bnb) kind).1

    -- RootAction returns after an interrupt exactly if the flags and the configuration are there,
    -- the database opens, the client of the node is made for a console logger of the flag's level,
    -- the BTC relayer is made, making the BNB relayer fails with an error, and the loops of the BTC
    -- relayer end once its quit channel is closed: then the BTC relayer is stopped and its loops
    -- have ended. The interrupt comes after the loop over the relayers.
    pub root_action_iff :
        (table after : List Config) (ended : Process)
        → (root_action floats validate_lorenzo env table interrupt ≡ done (ended, after)) ↔ (
            (config_file : String) × (cfg : Conf.Config Float Others) × (debug : Bool)
            × (btc : BtcRelayer) × (e : Error) × Prepared config_file cfg debug
            × Made cfg table after btc (err e)
            × (env.btc_loops_end ≡ true)
            × (ended ≡ shut_down btc))
    unfolding root_action
    root_action_iff table after ended = (
      λ h.
          let (((btc, bnb), after'), made, h1) =
            then_run-done (set_up floats validate_lorenzo env table) _ h in
          let (process, ran, same) =
            then_run-done
              (run_relayers
                (tx_relayer_list (btc_tx_relayer_of env.btc_loops_end btc)
                  (bnb_result env.bnb_loops_end bnb))
                interrupt)
              _ h1 in
          let tables : after' ≡ after = ground arith in
          let (config_file, cfg, debug, prepared, both_tried) =
            (set_up-Prepared table after btc bnb).0
              (made ∙ ap (λ t. done ((btc, bnb), t)) tables) in
          elim (Result-cases bnb) [
            | inr (e, failed) ↦ (
              config_file,
              cfg,
              debug,
              btc,
              e,
              prepared,
              subst (Made cfg table after btc) failed both_tried,
              ground (arith, alone env.btc_loops_end btc e),
              ground (arith, alone env.btc_loops_end btc e),
            )
            | inl (b, built) ↦
                absurd (ground (arith, both env.btc_loops_end env.bnb_loops_end btc b))
          ],
      λ (config_file, cfg, debug, btc, e, prepared, made, end, same).
          let ready =
            (set_up-Prepared table after btc (err e)).1 (config_file, cfg, debug, prepared, made) in
          rw (ready, alone env.btc_loops_end btc e, end, same) refl,
    )
