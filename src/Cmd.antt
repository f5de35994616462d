-- ===== src/Cmd.antt =====
-- cmd/root.go and cmd/utils.go: the relayers are started, and stopped by interrupt handlers. The
-- start and stop of a relayer are those of txrelayer/tx_relayer.go and txrelayer/bnb_txrelayer.go.
pub mod Shutdown
pub mod Root
pub mod Refresh
use lorenzo_btcstaking_submi.Base.{
  ℕ, zero, suc, ◌+◌, Bool, true, false, ◌&&◌, String, Option, none, some, List, [], ◌∷◌, ◌++◌,
  length, Result, ok, err, Run, done, panicked, spinning, then_run, if◌then◌else◌, ◌==◌, ltb,
}

-- A relayer: whether its `quit` channel is closed, how many of its loops run, and whether they end
-- once `quit` is closed: the loop that asks for a transaction until the explorer answers never looks
-- at `quit`, and a call may not return.
pub record TxRelayer : Type 0 where
  pub chain_name : String
  pub loops : ℕ
  pub quit_closed : Bool
  pub running : ℕ
  pub loops_end : Bool

-- `Start`: a goroutine for each loop, counted by the wait group.
unfoldable pub start : TxRelayer → TxRelayer
start r = record r { running = r.running + r.loops }

-- `Stop`: closing a closed channel panics.
unfoldable pub stop : TxRelayer → Run TxRelayer
stop r = if r.quit_closed then panicked else done (record r { quit_closed = true })

-- `WaitForShutdown`: the loops end once `quit` is closed, if they end, and not before.
unfoldable pub wait_for_shutdown : TxRelayer → Run TxRelayer
wait_for_shutdown r =
    if r.running == 0
    then done r
    else (if r.quit_closed && r.loops_end then done (record r { running = 0 }) else spinning)

abbrev pub get_elem? {ℓ} : {A : Type ℓ} → ℕ → List A → Option A
get_elem? n [] = none
get_elem? zero (x ∷ xs) = some x
get_elem? (suc n) (x ∷ xs) = get_elem? n xs

abbrev pub set_elem {ℓ} : {A : Type ℓ} → ℕ → A → List A → List A
set_elem n y [] = []
set_elem zero y (x ∷ xs) = y ∷ xs
set_elem (suc n) y (x ∷ xs) = x ∷ set_elem n y xs

-- The relayers, the loop variable `txRelayer` as an index into them, and whether
-- `interruptHandlersDone` is closed.
pub record Process : Type 0 where
  pub tx_relayers : List TxRelayer
  pub tx_relayer : ℕ
  pub handlers_done : Bool

abbrev pub Handler : Type 0
Handler = Process → Run Process

-- The callback of `RootAction`. Go before 1.22 has one variable for the whole loop, which every
-- callback reads when it runs.
unfoldable pub stop_handler : Handler
unfolding stop wait_for_shutdown
stop_handler p = elim (get_elem? p.tx_relayer p.tx_relayers) [
  | none ↦ panicked
  | some r ↦ then_run (stop r) λ stopped.
      then_run (wait_for_shutdown stopped)
        λ ended. done (record p { tx_relayers = set_elem p.tx_relayer ended p.tx_relayers })
]

-- The loop of `RootAction` over the relayers from an index on: each is started, and its callback
-- added.
unfoldable pub start_relayers : ℕ → ℕ → Process → List Handler → Process × List Handler
unfolding start
start_relayers zero i p handlers = (p, handlers)
start_relayers (suc left) i p handlers =
    let rest =
      start_relayers left (suc i)
        (record {
          tx_relayers = elim (get_elem? i p.tx_relayers) [
            | none ↦ p.tx_relayers
            | some r ↦ set_elem i (start r) p.tx_relayers
          ];
          tx_relayer = i;
          handlers_done = p.handlers_done;
        })
        (handlers ++ stop_handler ∷ []) in
    rest

-- What `mainInterruptHandler` receives.
pub data Event : Type 0 where
  signal : Event
  simulated_interrupt : Event
  add_handler : Handler → Event

-- The callbacks from an index down to the first.
unfoldable pub run_callbacks : ℕ → List Handler → Process → Run Process
run_callbacks zero callbacks p = done p
run_callbacks (suc idx) callbacks p = elim (get_elem? idx callbacks) [
  | none ↦ panicked
  | some callback ↦ then_run (callback p) (run_callbacks idx callbacks)
]

-- `invokeCallbacks`
unfoldable pub invoke_callbacks : List Handler → Process → Run Process
unfolding run_callbacks
invoke_callbacks callbacks p =
    then_run (run_callbacks (length callbacks) callbacks p)
      λ q. if q.handlers_done then panicked else done (record q { handlers_done = true })

-- `mainInterruptHandler`, which still listens when no event is left.
unfoldable pub main_interrupt_handler : List Event → List Handler → Process → Run Process
unfolding invoke_callbacks
main_interrupt_handler [] callbacks p = spinning
main_interrupt_handler (signal ∷ events) callbacks p = invoke_callbacks callbacks p
main_interrupt_handler (simulated_interrupt ∷ events) callbacks p = invoke_callbacks callbacks p
main_interrupt_handler (add_handler handler ∷ events) callbacks p =
    main_interrupt_handler events (callbacks ++ handler ∷ []) p

-- The events of `addInterruptHandler`, before one that shuts down.
abbrev pub registered : List Handler → Event → List Event
registered [] last = last ∷ []
registered (handler ∷ handlers) last = add_handler handler ∷ registered handlers last

-- The BNB relayer is left out when it could not be made.
abbrev pub tx_relayer_list : TxRelayer → Result TxRelayer → List TxRelayer
tx_relayer_list btc (ok bnb) = btc ∷ bnb ∷ []
tx_relayer_list btc (err e) = btc ∷ []

-- `RootAction` from the list of relayers on, where the interrupt comes after the loop.
unfoldable pub run_relayers : List TxRelayer → Event → Run Process
unfolding start_relayers main_interrupt_handler
run_relayers relayers interrupt =
    let (p, handlers) =
      start_relayers (length relayers) 0
        (record { tx_relayers = relayers; tx_relayer = 0; handlers_done = false }) [] in
    main_interrupt_handler (registered handlers interrupt) [] p

-- The same, where the interrupt comes after some passes of the loop and its callbacks end before the
-- next pass: then nothing receives from the channel that `addInterruptHandler` sends to.
unfoldable pub run_interrupted : ℕ → List TxRelayer → Event → Run Process
unfolding start_relayers main_interrupt_handler
run_interrupted passes relayers interrupt =
    let (p, handlers) =
      start_relayers passes 0
        (record { tx_relayers = relayers; tx_relayer = 0; handlers_done = false }) [] in
    then_run (main_interrupt_handler (registered handlers interrupt) [] p)
      λ q. if ltb passes (length relayers) then spinning else done q
