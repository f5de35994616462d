-- ===== src/Cmd/Refresh.antt =====
-- cmd/refresh.go: the command that runs the refresher. cobra's flags are its arguments.
use lorenzo_btcstaking_submi.Base.{
  ℕ, ◌≤◌, ◌<◌, ◌≡◌, String, List, All, Has, ok, err, Run, done, panicked,
}
use lorenzo_btcstaking_submi.Config.{new_root_logger}
use lorenzo_btcstaking_submi.Blockscout.{Decoder}
use lorenzo_btcstaking_submi.Blockscout.Refresher.{
  Refresher, RefreshEnv, refresh_loop, new_refresher,
}
use lorenzo_btcstaking_submi.Blockscout.Refresher.Windows.{
  IsBounded, RefreshedWindow, refresh_loop-Refreshed,
}

module _ (decoder : Decoder) (quote : String → String) where
  -- The `Run` function of `BlockscoutRefreshCmd`, for as many rounds of `Start` as there are
  -- environments.
  unfoldable pub refresh : ℕ → String → String → List RefreshEnv → Run ℕ
  refresh start_height blockscout_api lorenzo_app_api envs =
      elim (new_refresher quote start_height blockscout_api lorenzo_app_api) [
        | err _ ↦ panicked
        | ok (r, height) ↦ refresh_loop decoder r envs height
      ]

  -- What the flags make.
  abbrev pub refresher_of : String → String → Refresher
  refresher_of blockscout_api lorenzo_app_api = record {
    blockscout_api = blockscout_api;
    lorenzo_app_api = lorenzo_app_api;
  }

  -- The refresh command skips no height: when its loop returns, and where the answered heights are
  -- far enough below 2^64, for every height from the first on and below the next one to refresh,
  -- one of the rounds listed the events of a window that holds it, which the explorer and the
  -- application had passed, and each of these events was refreshed with success.
  pub refresh-Refreshed :
      (envs : List RefreshEnv) (start_height next height : ℕ)
      (blockscout_api lorenzo_app_api : String)
      → All (IsBounded decoder (refresher_of blockscout_api lorenzo_app_api)) envs
      → refresh start_height blockscout_api lorenzo_app_api envs ≡ done next
      → start_height ≤ height
      → height < next
      → (env : RefreshEnv) × (first last : ℕ) × Has (λ e. e ≡ env) envs
        × (first ≤ height)
        × (height < last)
        × (last ≤ next)
        × RefreshedWindow decoder (refresher_of blockscout_api lorenzo_app_api) env first last
  unfolding refresh new_refresher new_root_logger
  refresh-Refreshed envs start_height next height blockscout_api lorenzo_app_api bounded h low
        high =
      refresh_loop-Refreshed decoder (refresher_of blockscout_api lorenzo_app_api) envs start_height
        next height bounded h low high
