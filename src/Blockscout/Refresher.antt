-- ===== src/Blockscout/Refresher.antt =====
-- blockscout/refresher.go
pub mod Windows
use lorenzo_btcstaking_submi.Base.{
  ℕ, zero, suc, String, ◌<>◌, str_eq, List, [], ◌∷◌, ◌==◌, ltb, add_u64, if◌then◌else◌, ◌>>=◌, ◌>>◌,
  true, Result, ok, err, message, Run, done, panicked, spinning, then_run,
}
use lorenzo_btcstaking_submi.Strconv.{format_uint}
use lorenzo_btcstaking_submi.Config.{new_root_logger}
use lorenzo_btcstaking_submi.Btc.Network.{Response, Http, status_ok}
use lorenzo_btcstaking_submi.Blockscout.{LorenzoBurnAndMintEvent, Decoder}

-- `Refresher`, without the height, which is the state.
pub record Refresher : Type 0 where
  pub blockscout_api : String
  pub lorenzo_app_api : String

abbrev pub batch_num : ℕ
batch_num = 1000

module _ (decoder : Decoder) where
  check_response : Response → Result (Unit {0})
  check_response resp =
      if resp.status_code == status_ok then ok tt else err (message (decoder.body_text resp))

  module _ (r : Refresher) (http : Http) where
    unfoldable pub get_blockscout_current_height : Result ℕ
    unfolding check_response
    get_blockscout_current_height = do
      resp ← http.get (r.blockscout_api <> "?module=block&action=eth_block_number")
      check_response resp
      result ← decoder.block_number resp
      decoder.parse_uint_any_base result

    check_or_insert_account_to_blockscout : String → Result (Unit {0})
    unfolding check_response
    check_or_insert_account_to_blockscout addr = do
      resp ← http.get (r.blockscout_api <> "/v2/search/check-redirect?q=" <> addr)
      check_response resp
      kind ← decoder.redirect_type resp
      if str_eq kind "address" then ok tt else err (message ("invalid type: " <> kind))

    unfoldable pub refresh_blockscout_balance : String → ℕ → Result (Unit {0})
    unfolding check_response check_or_insert_account_to_blockscout
    refresh_blockscout_balance addr event_height = do
      check_or_insert_account_to_blockscout addr
      resp ← http.get (r.blockscout_api <> "/v2/addresses/" <> addr <> "/refresh")
      check_response resp
      result ← decoder.refresh_result resp
      if str_eq result "executed update" then ok tt else err (message "update failed")

    -- The status of the response is not looked at.
    unfoldable pub get_lorenzo_burn_or_event_list_by_height_range :
        ℕ → ℕ → Result (List LorenzoBurnAndMintEvent)
    get_lorenzo_burn_or_event_list_by_height_range start_height end_height = do
      resp ← http.get (
          r.lorenzo_app_api
          <> "/list?block_height_range="
          <> format_uint start_height
          <> "-"
          <> format_uint end_height)
      decoder.events resp

    unfoldable pub get_lorenzo_event_scan_cursor : Result ℕ
    unfolding check_response
    get_lorenzo_event_scan_cursor = do
      resp ← http.get (r.lorenzo_app_api <> "/block_scan_cursor")
      check_response resp
      decoder.scan_cursor resp

-- The world in one round: `retries i n` is the network at the attempt `n` for the event `i`.
pub record RefreshEnv : Type 0 where
  pub http : Http
  pub retries : ℕ → ℕ → Http
  pub patience : ℕ

-- The smaller of the two ends.
pub cut_end : ℕ → ℕ → ℕ
cut_end end limit = if ltb (add_u64 limit 1) end then add_u64 limit 1 else end

module _ (decoder : Decoder) (r : Refresher) (env : RefreshEnv) where
  -- One event is refreshed until that succeeds; `tries` attempts were made.
  refresh_event : ℕ → ℕ → ℕ → LorenzoBurnAndMintEvent → Run (Unit {0})
  refresh_event zero i tries event = spinning
  refresh_event (suc fuel) i tries event =
      elim (refresh_blockscout_balance decoder r (env.retries i tries) event.lorenzo_addr
        event.lorenzo_block_height) [
          | ok _ ↦ done tt
          | err _ ↦ refresh_event fuel i (suc tries) event
        ]

  -- The loop over the events, from the event `i` on.
  refresh_events : ℕ → List LorenzoBurnAndMintEvent → Run (Unit {0})
  unfolding refresh_event
  refresh_events i [] = done tt
  refresh_events i (event ∷ events) =
      then_run (refresh_event env.patience i 0 event) (λ _. refresh_events (suc i) events)

  -- From the window on.
  refresh_window : ℕ → ℕ → Run ℕ
  unfolding refresh_events
  refresh_window start end =
      elim (get_lorenzo_burn_or_event_list_by_height_range decoder r env.http start end) [
        | err _ ↦ done start
        | ok events ↦ then_run (refresh_events 0 events) (λ _. done end)
      ]

  -- One pass through the body of the loop in `Start`, from one next height to refresh to another.
  unfoldable pub refresh_round : ℕ → Run ℕ
  unfolding refresh_window cut_end
  refresh_round start = elim (get_blockscout_current_height decoder r env.http) [
    | err _ ↦ done start
    | ok height ↦
        if ltb height start
        then done start
        else elim (get_lorenzo_event_scan_cursor decoder r env.http) [
          | err _ ↦ done start
          | ok cursor ↦
              if ltb cursor start
              then done start
              else refresh_window start (cut_end (cut_end (add_u64 start batch_num) height) cursor)
        ]
  ]

module _ (decoder : Decoder) (r : Refresher) where
  -- The loop, which has no end in the code, for as many rounds as there are environments.
  unfoldable pub refresh_loop : List RefreshEnv → ℕ → Run ℕ
  refresh_loop [] start = done start
  refresh_loop (env ∷ envs) start = then_run (refresh_round decoder r env start) (refresh_loop envs)

-- `NewRefresher`: the refresher and its first height, where the JSON logger is made.
unfoldable pub new_refresher : (String → String) → ℕ → String → String → Result (Refresher × ℕ)
new_refresher quote start_height blockscout_api lorenzo_app_api = do
  logger ← new_root_logger quote "json" true
  ok (record { blockscout_api = blockscout_api; lorenzo_app_api = lorenzo_app_api }, start_height)
