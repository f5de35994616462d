-- ===== src/Tests/Blockscout.antt =====
-- The refresher on a small explorer: the first attempt for an event fails.
use lorenzo_btcstaking_submi.Base.{
  ℕ, zero, suc, ◌≤◌, ◌<◌, ◌≡◌, refl, arith, List, [], ◌∷◌, Has, add_u64, ok, done,
}
use lorenzo_btcstaking_submi.Btc.Network.{Http}
use lorenzo_btcstaking_submi.Blockscout.{LorenzoBurnAndMintEvent, Decoder}
use lorenzo_btcstaking_submi.Blockscout.Refresher.{
  Refresher, RefreshEnv, refresh_blockscout_balance, get_blockscout_current_height,
  get_lorenzo_event_scan_cursor, get_lorenzo_burn_or_event_list_by_height_range, refresh_round,
  refresh_loop, new_refresher,
}
use lorenzo_btcstaking_submi.Blockscout.Refresher.Windows.{IsBounded, RefreshedWindow}
use lorenzo_btcstaking_submi.Config.{new_root_logger}
use lorenzo_btcstaking_submi.Cmd.Refresh.{refresh, refresh-Refreshed}
use lorenzo_btcstaking_submi.Tests.World.{http_up, http_busy}

abbrev event : LorenzoBurnAndMintEvent
event = record {
  event_type = 1;
  status = 1;
  amount = "1000";
  lorenzo_block_height = 20;
  lorenzo_addr = "lrz1user";
  lorenzo_tx_hash = "0xc";
  lorenzo_tx_time = 1700000000;
}

abbrev decoder : Decoder
decoder = record {
  body_text = λ resp. "Too Many Requests";
  block_number = λ resp. ok "0x834";
  redirect_type = λ resp. ok "address";
  refresh_result = λ resp. ok "executed update";
  events = λ resp. ok (event ∷ []);
  scan_cursor = λ resp. ok 2050;
  parse_uint_any_base = λ s. ok 2100;
}

abbrev refresher : Refresher
refresher = record { blockscout_api = "https://scan/api"; lorenzo_app_api = "https://app/api" }

abbrev second_try : ℕ → Http
second_try zero = http_busy
second_try (suc n) = http_up

abbrev refresh_up : RefreshEnv
refresh_up = record { http = http_up; retries = λ i n. second_try n; patience = 4 }

abbrev refresh_busy : RefreshEnv
refresh_busy = record { http = http_busy; retries = λ i n. http_busy; patience = 4 }

refresh_up-IsBounded : IsBounded decoder refresher refresh_up
unfolding get_blockscout_current_height get_lorenzo_event_scan_cursor
refresh_up-IsBounded = record {
  height_fits = λ height e. ground arith;
  cursor_fits = λ cursor e. ground arith;
}

refresh_busy-IsBounded : IsBounded decoder refresher refresh_busy
unfolding get_blockscout_current_height get_lorenzo_event_scan_cursor
refresh_busy-IsBounded = record { height_fits = λ height e. cc; cursor_fits = λ cursor e. cc }

abbrev refreshes : List RefreshEnv
refreshes = refresh_up ∷ refresh_busy ∷ refresh_up ∷ refresh_up ∷ []

-- Windows of 1000 heights, and then up to the cursor.
refreshes-run : refresh_loop decoder refresher refreshes 10 ≡ done 2051
unfolding refresh_loop refresh_round refresh_blockscout_balance get_blockscout_current_height
    get_lorenzo_event_scan_cursor get_lorenzo_burn_or_event_list_by_height_range add_u64
refreshes-run = refl

command-run :
    refresh decoder (λ text. text) 10 refresher.blockscout_api refresher.lorenzo_app_api refreshes
    ≡ done 2051
unfolding refresh new_refresher new_root_logger
command-run = refreshes-run

refresh-Refreshed_example :
    (env : RefreshEnv) × (first last : ℕ) × Has (λ e. e ≡ env) refreshes
    × (first ≤ 1500)
    × (1500 < last)
    × (last ≤ 2051)
    × RefreshedWindow decoder refresher env first last
refresh-Refreshed_example =
    refresh-Refreshed decoder (λ text. text) refreshes 10 2051 1500 refresher.blockscout_api
      refresher.lorenzo_app_api
      (
        refresh_up-IsBounded,
        (refresh_busy-IsBounded, (refresh_up-IsBounded, (refresh_up-IsBounded, tt))),
      )
      command-run (omega arith) (omega arith)
