-- ===== src/TxRelayer/Bnb/Scan.antt =====
-- The scanner of the BNB Smart Chain: `NewBnbTxRelayer`'s first sync point, and `scanLoop`.
pub mod Windows
pub mod NoGaps
pub mod Events
pub mod AsSteps
use lorenzo_btcstaking_submi.Base.{
  ℕ, List, [], ◌∷◌, ◌==◌, ltb, leb, add_u64, sub_u64, if◌then◌else◌, Result, ok, err,
}
use lorenzo_btcstaking_submi.Db.Types.{Config, WrappedBtcDepositTx}
use lorenzo_btcstaking_submi.Db.Orm.{Model}
use lorenzo_btcstaking_submi.Db.BnbRepository.{
  get_sync_point, update_sync_point, insert_wrapped_btc_deposit_txs,
}
use lorenzo_btcstaking_submi.TxRelayer.Bnb.{
  batch_plan_stake_block_size_fetch, ReceiptWithProof, Encoding, BnbClient, BnbRelayer,
  to_wrapped_list,
}

-- The world in one round.
pub record WindowEnv (Body Proof : Type 0) : Type 0 where
  pub client : BnbClient Body Proof
  pub config_db : Model Config
  pub wrapped_db : Model WrappedBtcDepositTx

-- The tables that the scanner writes.
pub record WrappedState : Type 0 where
  pub configs : List Config
  pub wrapped : List WrappedBtcDepositTx

-- `NewBnbTxRelayer`: a sync point of 0 is replaced by the configured start.
unfoldable pub init_bnb_sync_point : Model Config → ℕ → List Config → Result (List Config)
init_bnb_sync_point db start_block_height configs = elim (get_sync_point db configs) [
  | err e ↦ err e
  | ok height ↦ if height == 0 then update_sync_point db start_block_height configs else ok configs
]

-- The last height of the window from `start` on, where the deepest block is at `deepest`.
unfoldable pub window_end : ℕ → ℕ → ℕ
window_end start deepest =
    if ltb batch_plan_stake_block_size_fetch (add_u64 (sub_u64 deepest start) 1)
    then sub_u64 (add_u64 start batch_plan_stake_block_size_fetch) 1
    else deepest

module _ {Body Proof : Type 0} (encoding : Encoding Body Proof) (r : BnbRelayer) where
  -- The rows are inserted, and then the sync point moves to the end of the window.
  store_window : WindowEnv Body Proof → ℕ → WrappedState → List WrappedBtcDepositTx → WrappedState
  store_window env end s txs = elim (insert_wrapped_btc_deposit_txs env.wrapped_db txs s.wrapped) [
    | err _ ↦ s
    | ok wrapped ↦ elim (update_sync_point env.config_db end s.configs) [
      | err _ ↦ record s { wrapped = wrapped }
      | ok configs ↦ record { configs = configs; wrapped = wrapped }
    ]
  ]

  read_window : WindowEnv Body Proof → ℕ → ℕ → WrappedState → WrappedState
  unfolding store_window
  read_window env start end s =
      elim (env.client.receipts_with_proof r.plan_stake_hub_address start end) [
        | err _ ↦ s
        | ok list ↦ elim (to_wrapped_list encoding r list) [
          | err _ ↦ s
          | ok txs ↦ store_window env end s txs
        ]
      ]

  -- One pass through the loop's body.
  unfoldable pub scan_round : WindowEnv Body Proof → WrappedState → WrappedState
  unfolding read_window
  scan_round env s = elim (get_sync_point env.config_db s.configs) [
    | err _ ↦ s
    | ok sync_point ↦
        let tip = env.client.block_number.0 in
        if leb tip (add_u64 sync_point r.delay_blocks)
        then s
        else let start = add_u64 sync_point 1 in
          read_window env start (window_end start (sub_u64 tip r.delay_blocks)) s
  ]

  -- The loop, until `quit` is closed at the end of the list.
  unfoldable pub scan_loop : List (WindowEnv Body Proof) → WrappedState → WrappedState
  scan_loop [] s = s
  scan_loop (env ∷ envs) s = scan_loop envs (scan_round env s)
