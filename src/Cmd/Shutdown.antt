-- ===== src/Cmd/Shutdown.antt =====
-- What an interrupt does to the relayers.
use lorenzo_btcstaking_submi.Base.{
  ◌<◌, ◌≡◌, if◌then◌else◌, true, false, [], ◌∷◌, ok, err, Error, done, panicked, spinning, arith,
  inl, inr, ◌⊎◌,
}
use lorenzo_btcstaking_submi.Cmd.{
  TxRelayer, start, stop, wait_for_shutdown, stop_handler, start_relayers, Event, signal,
  simulated_interrupt, run_callbacks, invoke_callbacks, main_interrupt_handler, run_relayers,
  tx_relayer_list, run_interrupted,
}

-- Made and not started.
pub record IsFresh (r : TxRelayer) : Type 0 where
  pub has_loops : 0 < r.loops
  pub idle : r.running ≡ 0
  pub open_quit : r.quit_closed ≡ false

-- With relayers that are made and not started, an interrupt after the start stops the BTC relayer,
-- waits for its loops, for ever if they do not end, and closes interruptHandlersDone if it is the
-- only relayer; with both relayers it panics, or waits for ever for the loops of the BNB relayer,
-- since every callback stops the relayer that the shared loop variable ends with, and its quit
-- channel is closed twice.
pub run_relayers-shuts_down :
    (btc bnb : TxRelayer) (interrupt : Event) (e : Error)
    → IsFresh btc
    → IsFresh bnb
    → (interrupt ≡ signal) ⊎ (interrupt ≡ simulated_interrupt)
    → (run_relayers (tx_relayer_list btc (err e)) interrupt ≡ (
        if btc.loops_end
        then done (record {
          tx_relayers = record btc { running = 0; quit_closed = true } ∷ [];
          tx_relayer = 0;
          handlers_done = true;
        })
        else spinning))
      × (run_relayers (tx_relayer_list btc (ok bnb)) interrupt
          ≡ (if bnb.loops_end then panicked else spinning))
unfolding run_relayers start_relayers main_interrupt_handler invoke_callbacks run_callbacks
    stop_handler stop wait_for_shutdown start
run_relayers-shuts_down btc bnb interrupt e btc_fresh bnb_fresh kind =
    let b1 = btc_fresh.has_loops in
    let b2 = btc_fresh.idle in
    let b3 = btc_fresh.open_quit in
    let c1 = bnb_fresh.has_loops in
    let c2 = bnb_fresh.idle in
    let c3 = bnb_fresh.open_quit in
    elim kind [ inl k ↦ (ground arith, ground arith) | inr k ↦ (ground arith, ground arith) ]

-- With relayers that are made and not started: an interrupt after the start stops the BTC relayer,
-- waits for its loops and closes interruptHandlersDone if it is the only relayer, or waits for ever
-- where its loops do not end; with both relayers RootAction never returns, since an interrupt
-- between the two starts leaves nothing that receives the second callback, and one after both
-- panics, as every callback stops the relayer that the shared loop variable ends with, or waits for
-- ever for the loops of that relayer.
pub run_interrupted-never_returns :
    (btc bnb : TxRelayer) (interrupt : Event) (e : Error)
    → IsFresh btc
    → IsFresh bnb
    → (interrupt ≡ signal) ⊎ (interrupt ≡ simulated_interrupt)
    → (run_interrupted 1 (tx_relayer_list btc (err e)) interrupt ≡ (
        if btc.loops_end
        then done (record {
          tx_relayers = record btc { running = 0; quit_closed = true } ∷ [];
          tx_relayer = 0;
          handlers_done = true;
        })
        else spinning))
      × (run_interrupted 1 (tx_relayer_list btc (ok bnb)) interrupt ≡ spinning)
      × (run_interrupted 2 (tx_relayer_list btc (ok bnb)) interrupt
          ≡ (if bnb.loops_end then panicked else spinning))
unfolding run_interrupted start_relayers main_interrupt_handler invoke_callbacks run_callbacks
    stop_handler stop wait_for_shutdown start
run_interrupted-never_returns btc bnb interrupt e btc_fresh bnb_fresh kind =
    let b1 = btc_fresh.has_loops in
    let b2 = btc_fresh.idle in
    let b3 = btc_fresh.open_quit in
    let c1 = bnb_fresh.has_loops in
    let c2 = bnb_fresh.idle in
    let c3 = bnb_fresh.open_quit in
    elim kind [
      | inl k ↦ (ground arith, ground arith, ground arith)
      | inr k ↦ (ground arith, ground arith, ground arith)
    ]
