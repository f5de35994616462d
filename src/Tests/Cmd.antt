-- ===== src/Tests/Cmd.antt =====
-- The two relayers of the program, and an interrupt.
use lorenzo_btcstaking_submi.Base.{
  ◌≡◌, refl, inl, arith, true, false, [], ◌∷◌, ok, err, message, done, panicked, spinning,
}
use lorenzo_btcstaking_submi.Cmd.{TxRelayer, signal, tx_relayer_list, run_interrupted}
use lorenzo_btcstaking_submi.Cmd.Shutdown.{IsFresh, run_interrupted-never_returns}

abbrev btc : TxRelayer
btc = record { chain_name = "BTC"; loops = 3; quit_closed = false; running = 0; loops_end = true }

abbrev bnb : TxRelayer
bnb = record { chain_name = "BNB"; loops = 2; quit_closed = false; running = 0; loops_end = true }

btc-IsFresh : IsFresh btc
btc-IsFresh = record { has_loops = omega arith; idle = refl; open_quit = refl }

bnb-IsFresh : IsFresh bnb
bnb-IsFresh = record { has_loops = omega arith; idle = refl; open_quit = refl }

run_interrupted-never_returns_example :
    (run_interrupted 1 (tx_relayer_list btc (err (message "no node"))) signal
      ≡ done (record {
        tx_relayers = record btc { running = 0; quit_closed = true } ∷ [];
        tx_relayer = 0;
        handlers_done = true;
      }))
    × (run_interrupted 1 (tx_relayer_list btc (ok bnb)) signal ≡ spinning)
    × (run_interrupted 2 (tx_relayer_list btc (ok bnb)) signal ≡ panicked)
run_interrupted-never_returns_example =
    run_interrupted-never_returns btc bnb signal (message "no node") btc-IsFresh bnb-IsFresh
      (inl refl)
