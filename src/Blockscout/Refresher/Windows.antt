-- ===== src/Blockscout/Refresher/Windows.antt =====
-- The windows of heights in `Refresher.Start` of blockscout/refresher.go.
use mathlib.Core.Path.{subst}
use native.Mathlib.Decide.{dec_lt}
use lorenzo_btcstaking_submi.Base.{
  ℕ, zero, suc, ◌+◌, ◌≤◌, ◌<◌, ◌≡◌, ◌⊎◌, refl, inl, inr, List, [], ◌∷◌, arith, All, Has, here,
  there, ltb, add_u64, u64_mod, false, Bool-cases, ok, Result-cases, done, then_run-done,
}
use lorenzo_btcstaking_submi.Blockscout.{LorenzoBurnAndMintEvent, Decoder}
use lorenzo_btcstaking_submi.Blockscout.Refresher.{
  Refresher, RefreshEnv, cut_end, batch_num, refresh_blockscout_balance,
  get_blockscout_current_height, get_lorenzo_event_scan_cursor,
  get_lorenzo_burn_or_event_list_by_height_range, refresh_event, refresh_events, refresh_window,
  refresh_round, refresh_loop,
}

-- Heights are far enough below 2^64 for a window to be added.
abbrev pub Fits : ℕ → Type 0
Fits height = height + 1001 < u64_mod

module _ (decoder : Decoder) (r : Refresher) where
  -- Some attempt for the event succeeded.
  abbrev pub Refreshed : RefreshEnv → LorenzoBurnAndMintEvent → Type 0
  Refreshed env event =
      (i n : ℕ) × (refresh_blockscout_balance decoder r (env.retries i n) event.lorenzo_addr
          event.lorenzo_block_height
        ≡ ok tt)

  -- The events of the heights from `start` up to but not `end`, which the explorer and the
  -- application have both passed, were listed and refreshed.
  abbrev pub RefreshedWindow : RefreshEnv → ℕ → ℕ → Type 0
  RefreshedWindow env start end =
      (height cursor : ℕ) × (events : List LorenzoBurnAndMintEvent) × (get_blockscout_current_height
          decoder r env.http
        ≡ ok height)
      × (get_lorenzo_event_scan_cursor decoder r env.http ≡ ok cursor)
      × (end ≤ height + 1)
      × (end ≤ cursor + 1)
      × (get_lorenzo_burn_or_event_list_by_height_range decoder r env.http start end ≡ ok events)
      × All (Refreshed env) events

  refresh_event-Refreshed :
      (env : RefreshEnv) (fuel i tries : ℕ) (event : LorenzoBurnAndMintEvent)
      → refresh_event decoder r env fuel i tries event ≡ done tt
      → Refreshed env event
  unfolding refresh_event
  refresh_event-Refreshed env zero i tries event h = cc
  refresh_event-Refreshed env (suc fuel) i tries event h =
      elim (Result-cases (
        refresh_blockscout_balance decoder r (env.retries i tries) event.lorenzo_addr
          event.lorenzo_block_height)) [
            | inl (tt, e) ↦ (i, tries, e)
            | inr (e, failed) ↦ refresh_event-Refreshed env fuel i (suc tries) event (ground arith)
          ]

  refresh_events-Refreshed :
      (env : RefreshEnv) (i : ℕ) (events : List LorenzoBurnAndMintEvent)
      → refresh_events decoder r env i events ≡ done tt
      → All (Refreshed env) events
  unfolding refresh_events
  refresh_events-Refreshed env i [] h = tt
  refresh_events-Refreshed env i (event ∷ events) h =
      let (tt, one, rest) =
        then_run-done (refresh_event decoder r env env.patience i 0 event) _ h in
      (
        refresh_event-Refreshed env env.patience i 0 event one,
        refresh_events-Refreshed env (suc i) events rest,
      )

  cut_end-bounds :
      (start end limit : ℕ)
      → start < end
      → start ≤ limit
      → limit + 1 < u64_mod
      → (start < cut_end end limit) × (cut_end end limit ≤ end) × (cut_end end limit ≤ limit + 1)
  unfolding cut_end add_u64
  cut_end-bounds start end limit low le fits = ground arith

  -- The heights that the explorer and the application answer fit.
  pub record IsBounded (env : RefreshEnv) : Type 0 where
    pub height_fits :
        (height : ℕ) → get_blockscout_current_height decoder r env.http ≡ ok height → Fits height
    pub cursor_fits :
        (cursor : ℕ) → get_lorenzo_event_scan_cursor decoder r env.http ≡ ok cursor → Fits cursor

  -- The next height stays, or moves past a window of 1000 heights at most.
  abbrev Moves : RefreshEnv → ℕ → ℕ → Type 0
  Moves env start next =
      (next ≡ start) ⊎ ((start < next) × (next ≤ start + 1000) × RefreshedWindow env start next)

  window-bounds :
      (start height cursor : ℕ)
      → Fits height
      → Fits cursor
      → ltb height start ≡ false
      → ltb cursor start ≡ false
      → (end : ℕ) × (cut_end (cut_end (add_u64 start batch_num) height) cursor ≡ end)
        × (start < end)
        × (end ≤ start + 1000)
        × (end ≤ height + 1)
        × (end ≤ cursor + 1)
  unfolding add_u64
  window-bounds start height cursor fits fits' reached scanned =
      let whole : add_u64 start batch_num ≡ start + 1000 = ground arith in
      let (low, high, below) =
        cut_end-bounds start (start + 1000) height (omega arith) (ground arith) (omega arith) in
      let (low', high', below') =
        cut_end-bounds start (cut_end (start + 1000) height) cursor low (ground arith)
          (omega arith) in
      (
        cut_end (cut_end (start + 1000) height) cursor,
        rw whole refl,
        low',
        omega arith,
        omega arith,
        below',
      )

  refresh_window-Moves :
      (env : RefreshEnv) (start end height cursor next : ℕ)
      → get_blockscout_current_height decoder r env.http ≡ ok height
      → get_lorenzo_event_scan_cursor decoder r env.http ≡ ok cursor
      → start < end
      → end ≤ start + 1000
      → end ≤ height + 1
      → end ≤ cursor + 1
      → refresh_window decoder r env start end ≡ done next
      → Moves env start next
  unfolding refresh_window
  refresh_window-Moves env start end height cursor next at_height at_cursor low high below below'
        h =
      elim (Result-cases
        (get_lorenzo_burn_or_event_list_by_height_range decoder r env.http start end)) [
          | inr (e, failed) ↦ inl (ground arith)
          | inl (events, listed) ↦
              let (tt, all, e) =
                then_run-done (refresh_events decoder r env 0 events) (λ _. done end)
                  (rw (listed, refresh_window) at h) in
              let same : end ≡ next = ground arith in
              subst (Moves env start) same (
                inr (
                  low,
                  high,
                  (
                    height,
                    cursor,
                    events,
                    at_height,
                    at_cursor,
                    below,
                    below',
                    listed,
                    refresh_events-Refreshed env 0 events all,
                  ),
                ))
        ]

  refresh_round-Moves :
      (env : RefreshEnv) (start next : ℕ)
      → IsBounded env
      → refresh_round decoder r env start ≡ done next
      → Moves env start next
  unfolding refresh_round
  refresh_round-Moves env start next bounded h =
      elim (Result-cases (get_blockscout_current_height decoder r env.http)) [
        | inr (e, failed) ↦ inl (ground arith)
        | inl (height, at_height) ↦ elim (Bool-cases (ltb height start)) [
          | inl behind ↦ inl (ground arith)
          | inr reached ↦ elim (Result-cases (get_lorenzo_event_scan_cursor decoder r env.http)) [
            | inr (e, failed) ↦ inl (ground arith)
            | inl (cursor, at_cursor) ↦ elim (Bool-cases (ltb cursor start)) [
              | inl behind ↦ inl (ground arith)
              | inr scanned ↦
                  let fits = bounded.height_fits height at_height in
                  let fits' = bounded.cursor_fits cursor at_cursor in
                  let (end, whole, low, high, below, below') =
                    window-bounds start height cursor fits fits' reached scanned in
                  refresh_window-Moves env start end height cursor next at_height at_cursor low high
                    below below' (ground arith)
            ]
          ]
        ]
      ]

  refresh_loop-ahead :
      (envs : List RefreshEnv) (start next : ℕ)
      → All IsBounded envs
      → refresh_loop decoder r envs start ≡ done next
      → start ≤ next
  unfolding refresh_loop
  refresh_loop-ahead [] start next bounded h = ground arith
  refresh_loop-ahead (env ∷ envs) start next (bound, bounded) h =
      let (mid, one, rest) = then_run-done (refresh_round decoder r env start) _ h in
      let ahead = refresh_loop-ahead envs mid next bounded rest in
      elim (refresh_round-Moves env start mid bound one) [
        | inl kept ↦ omega arith
        | inr (low, _, _) ↦ omega arith
      ]

  -- The refresher skips no height: when its loop returns, and where the answered heights are far
  -- enough below 2^64, for every height from the first on and below the next one to refresh, one of
  -- the rounds listed the events of a window that holds it, which the explorer and the application
  -- had passed, and each of these events was refreshed with success.
  pub refresh_loop-Refreshed :
      (envs : List RefreshEnv) (start next height : ℕ)
      → All IsBounded envs
      → refresh_loop decoder r envs start ≡ done next
      → start ≤ height
      → height < next
      → (env : RefreshEnv) × (first last : ℕ) × Has (λ e. e ≡ env) envs
        × (first ≤ height)
        × (height < last)
        × (last ≤ next)
        × RefreshedWindow env first last
  unfolding refresh_loop
  refresh_loop-Refreshed [] start next height bounded h low high = absurd (ground arith)
  refresh_loop-Refreshed (env ∷ envs) start next height (bound, bounded) h low high =
      let (mid, one, rest) = then_run-done (refresh_round decoder r env start) _ h in
      let ahead = refresh_loop-ahead envs mid next bounded rest in
      elim (dec_lt height mid) [
        | no beyond ↦
            let (env', first, last, place, from_first, before_last, up_to, found) =
              refresh_loop-Refreshed envs mid next height bounded rest (omega arith) high in
            (env', first, last, there place, from_first, before_last, up_to, found)
        | yes passed ↦ elim (refresh_round-Moves env start mid bound one) [
          | inl kept ↦ absurd (omega arith)
          | inr (_, _, window) ↦ (env, start, mid, here refl, low, passed, ahead, window)
        ]
      ]
