-- ===== src/TxRelayer/Startup/Resumed.antt =====
-- The sync points before and after both relayers are made.
use lorenzo_btcstaking_submi.Base.{
  ℕ, ◌<◌, ◌≡◌, ◌∙◌, inl, inr, eq_iff, none, List, [], arith, u64_mod, ◌==◌, if◌then◌else◌, ok,
  Result-cases, Option-cases, done, then_run-done,
}
use lorenzo_btcstaking_submi.Config.{TxRelayerConfig, BnbTxRelayerConfig, validate_bnb_tx_relayer}
use lorenzo_btcstaking_submi.Db.Types.{
  Config, submitter_btc_sync_point_key, submitter_bnb_sync_point_key,
}
use lorenzo_btcstaking_submi.Db.Orm.{Model, IsLawful}
use lorenzo_btcstaking_submi.Db.Kv.SyncPoint.{stored, get_uint64-stored, stored-set_uint64}
use lorenzo_btcstaking_submi.Db.Kv.{set_uint64}
use lorenzo_btcstaking_submi.Db.BtcRepository as Btc
use lorenzo_btcstaking_submi.Db.BnbRepository as Bnb
use lorenzo_btcstaking_submi.TxRelayer.Agents.{update_agents_list}
use lorenzo_btcstaking_submi.TxRelayer.Scan.{init_sync_point}
use lorenzo_btcstaking_submi.TxRelayer.Bnb.{BnbRelayer, default_delay_blocks}
use lorenzo_btcstaking_submi.TxRelayer.Bnb.Scan.{init_bnb_sync_point}
use lorenzo_btcstaking_submi.TxRelayer.Startup.{
  new_btc_repository, BtcRelayer, StartEnv, new_tx_relayer, BnbStartEnv, new_bnb_tx_relayer,
}

module _ (db : Model Config) (lawful : IsLawful db) where
  pub init_sync_point-stored :
      (start_block_height point : ℕ) (configs after : List Config)
      → start_block_height < u64_mod
      → stored submitter_btc_sync_point_key configs ≡ ok point
      → init_sync_point db start_block_height configs ≡ ok after
      → (stored submitter_btc_sync_point_key after
          ≡ ok (if point == 0 then start_block_height else point))
        × (stored submitter_bnb_sync_point_key after ≡ stored submitter_bnb_sync_point_key configs)
  unfolding init_sync_point Btc.get_sync_point Btc.update_sync_point
  init_sync_point-stored start_block_height point configs after fits at_point h =
      elim (Result-cases (set_uint64 db submitter_btc_sync_point_key start_block_height configs)) [
        | inr (e, failed) ↦
            ground (arith, get_uint64-stored db lawful submitter_btc_sync_point_key configs)
        | inl (written, set) ↦ ground (
          arith,
          get_uint64-stored db lawful submitter_btc_sync_point_key configs,
          eq_iff submitter_btc_sync_point_key submitter_btc_sync_point_key,
          stored-set_uint64 db lawful submitter_btc_sync_point_key submitter_btc_sync_point_key
              start_block_height configs fits set,
          stored-set_uint64 db lawful submitter_btc_sync_point_key submitter_bnb_sync_point_key
              start_block_height configs fits set,
        )
      ]

  pub init_bnb_sync_point-stored :
      (start_block_height point : ℕ) (configs after : List Config)
      → start_block_height < u64_mod
      → stored submitter_bnb_sync_point_key configs ≡ ok point
      → init_bnb_sync_point db start_block_height configs ≡ ok after
      → (stored submitter_bnb_sync_point_key after
          ≡ ok (if point == 0 then start_block_height else point))
        × (stored submitter_btc_sync_point_key after ≡ stored submitter_btc_sync_point_key configs)
  unfolding init_bnb_sync_point Bnb.get_sync_point Bnb.update_sync_point
  init_bnb_sync_point-stored start_block_height point configs after fits at_point h =
      elim (Result-cases (set_uint64 db submitter_bnb_sync_point_key start_block_height configs)) [
        | inr (e, failed) ↦
            ground (arith, get_uint64-stored db lawful submitter_bnb_sync_point_key configs)
        | inl (written, set) ↦ ground (
          arith,
          get_uint64-stored db lawful submitter_bnb_sync_point_key configs,
          eq_iff submitter_bnb_sync_point_key submitter_bnb_sync_point_key,
          stored-set_uint64 db lawful submitter_bnb_sync_point_key submitter_bnb_sync_point_key
              start_block_height configs fits set,
          stored-set_uint64 db lawful submitter_bnb_sync_point_key submitter_btc_sync_point_key
              start_block_height configs fits set,
        )
      ]

made_of_btc :
    (env : StartEnv) (conf : TxRelayerConfig) (configs after : List Config) (btc : BtcRelayer)
    → new_tx_relayer env conf configs ≡ done (ok btc, after)
    → (init_sync_point env.config_db conf.start_block_height configs ≡ ok after)
      × (btc.scanner.delay_blocks ≡ conf.confirmation_depth)
unfolding new_tx_relayer
made_of_btc env conf configs after btc h = elim (Option-cases (new_btc_repository env.db_open)) [
  | inr (e, closed) ↦ absurd (ground arith)
  | inl opened ↦
      elim (Result-cases (init_sync_point env.config_db conf.start_block_height configs)) [
        | inr (e, failed) ↦ absurd (ground arith)
        | inl (kept, initial) ↦ elim (Option-cases env.must_get_addr) [
          | inl panics ↦ absurd (ground arith)
          | inr (address, known) ↦
              let ((answer, agents), e, g) =
                then_run-done (update_agents_list env.fuel env.agents []) _
                  (rw (new_tx_relayer, opened, initial, known) at h) in
              elim (Result-cases answer) [
                | inr (failure, failed) ↦ absurd (ground arith)
                | inl (_, answered) ↦ (initial ∙ ground arith, ground arith)
              ]
        ]
      ]
]

made_of_bnb :
    (env : BnbStartEnv) (cfg : BnbTxRelayerConfig) (configs after : List Config) (bnb : BnbRelayer)
    → new_bnb_tx_relayer env cfg configs ≡ done (ok bnb, after)
    → (init_bnb_sync_point env.config_db cfg.start_block_height configs ≡ ok after)
      × (bnb.delay_blocks ≡ default_delay_blocks)
      × (validate_bnb_tx_relayer cfg ≡ none)
unfolding new_bnb_tx_relayer
made_of_bnb env cfg configs after bnb h =
    elim (Result-cases (init_bnb_sync_point env.config_db cfg.start_block_height configs)) [
      | inr (e, failed) ↦ absurd (ground arith)
      | inl (kept, initial) ↦ ground arith
    ]

-- Making both relayers, as at every start of the program, resumes their work: on databases that
-- obey their laws, with configured starts below 2^64 and the numbers of both sync points stored,
-- when NewTxRelayer and then NewBnbTxRelayer succeed, each sync point is still the one stored, or
-- the configured start where it was 0; the BTC relayer has the configured confirmations, the BNB
-- relayer has 15 whatever its configuration says, and that configuration is valid.
pub new_tx_relayers-resume :
    (env : StartEnv) (bnb_env : BnbStartEnv) (conf : TxRelayerConfig) (cfg : BnbTxRelayerConfig)
    (point bnb_point : ℕ) (configs between after : List Config) (btc : BtcRelayer)
    (bnb : BnbRelayer)
    → IsLawful env.config_db
    → IsLawful bnb_env.config_db
    → conf.start_block_height < u64_mod
    → cfg.start_block_height < u64_mod
    → stored submitter_btc_sync_point_key configs ≡ ok point
    → stored submitter_bnb_sync_point_key configs ≡ ok bnb_point
    → new_tx_relayer env conf configs ≡ done (ok btc, between)
    → new_bnb_tx_relayer bnb_env cfg between ≡ done (ok bnb, after)
    → (stored submitter_btc_sync_point_key after
        ≡ ok (if point == 0 then conf.start_block_height else point))
      × (stored submitter_bnb_sync_point_key after
          ≡ ok (if bnb_point == 0 then cfg.start_block_height else bnb_point))
      × (btc.scanner.delay_blocks ≡ conf.confirmation_depth)
      × (bnb.delay_blocks ≡ default_delay_blocks)
      × (validate_bnb_tx_relayer cfg ≡ none)
new_tx_relayers-resume env bnb_env conf cfg point bnb_point configs between after btc bnb lawful
      bnb_lawful fits bnb_fits at_point at_bnb made made_bnb =
    let (initial, depth) = made_of_btc env conf configs between btc made in
    let (initial_bnb, delay, valid) = made_of_bnb bnb_env cfg between after bnb made_bnb in
    let (at_btc, other) =
      init_sync_point-stored env.config_db lawful conf.start_block_height point configs between fits
        at_point initial in
    let (at_end, kept) =
      init_bnb_sync_point-stored bnb_env.config_db bnb_lawful cfg.start_block_height bnb_point
        between after bnb_fits (other ∙ at_bnb) initial_bnb in
    (kept ∙ at_btc, at_end, depth, delay, valid)
