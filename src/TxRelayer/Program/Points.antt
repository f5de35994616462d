-- ===== src/TxRelayer/Program/Points.antt =====
-- Which steps of the program leave a sync point of the config table, which both relayers write.
use lorenzo_btcstaking_submi.Base.{ℕ, ◌<◌, ◌≡◌, refl, ◌∙◌, Option, List, arith, ok, inl, inr}
use lorenzo_btcstaking_submi.Btc.Network.{Codec}
use lorenzo_btcstaking_submi.Btc.Utils.{Btcd}
use lorenzo_btcstaking_submi.Db.Types.{
  Config, BtcDepositTx, WrappedBtcDepositTx, submitter_btc_sync_point_key,
  submitter_bnb_sync_point_key,
}
use lorenzo_btcstaking_submi.Db.Kv.SyncPoint.{stored, stored-set_uint64}
use lorenzo_btcstaking_submi.Db.BtcRepository
use lorenzo_btcstaking_submi.Db.BnbRepository
use lorenzo_btcstaking_submi.TxRelayer.Lorenzo.{Keeper}
use lorenzo_btcstaking_submi.TxRelayer.Scan.{Relayer, RoundEnv, init_sync_point}
use lorenzo_btcstaking_submi.TxRelayer.Bnb.Scan.{WindowEnv, init_bnb_sync_point}
use lorenzo_btcstaking_submi.TxRelayer.Startup.Resumed.{
  init_sync_point-stored, init_bnb_sync_point-stored,
}
use lorenzo_btcstaking_submi.TxRelayer.Submit.{Submitter}
use lorenzo_btcstaking_submi.TxRelayer.Steps.{
  System, Act, Step, insert_deposits, move_sync_point, keep_sync_point, fetch_batch, submit_deposit,
  crash,
}
use lorenzo_btcstaking_submi.TxRelayer.Steps.Gaps.{IsGapless, Gapless}
use lorenzo_btcstaking_submi.TxRelayer.Bnb.{Encoding, BnbRelayer}
use lorenzo_btcstaking_submi.TxRelayer.Bnb.Steps.{
  BnbSystem, BnbAct, BnbStep, insert_window, move_bnb_point, keep_bnb_point, fetch_wrapped,
  submit_row, quit_batch, crash_bnb,
}
use lorenzo_btcstaking_submi.TxRelayer.Bnb.Steps.Gaps.{IsBnbGapless, BnbGapless}
use lorenzo_btcstaking_submi.TxRelayer.Program.{Initialised}

module _ {PkScript Address MerkleBlock : Type 0} (btcd : Btcd PkScript Address)
    (keeper : Keeper MerkleBlock) (codec : Codec) (scanner : Relayer) (submitter : Submitter)
    (Ran : RoundEnv → Type 0) where
  -- A step of the BTC relayer leaves the sync point of the BNB relayer.
  pub Step-bnb_point :
      (point : ℕ) (act : Act) (s t : System)
      → Gapless btcd keeper codec scanner submitter Ran point s
      → Step btcd keeper codec scanner submitter s t act
      → stored submitter_bnb_sync_point_key t.configs
        ≡ stored submitter_bnb_sync_point_key s.configs
  unfolding BtcRepository.update_sync_point
  Step-bnb_point point _ s t gapless
        (insert_deposits env at txs rows lawful idle at_point fits scanned h e) =
      rw e refl
  Step-bnb_point point _ s t gapless (move_sync_point env height configs lawful busy h e) =
      let (_, fits, _) = gapless.held_storing height busy in
      rw e (
        stored-set_uint64 env.config_db lawful.config_lawful submitter_btc_sync_point_key
          submitter_bnb_sync_point_key height s.configs fits h)
  Step-bnb_point point _ s t gapless (keep_sync_point env height failed busy h e) = rw e refl
  Step-bnb_point point _ s t gapless (fetch_batch env tip txs lawful empty at_tip h e) = rw e refl
  Step-bnb_point point _ s t gapless (submit_deposit env tx rest u lawful first outcome e) =
      rw e refl
  Step-bnb_point point _ s t gapless (crash e) = rw e refl

  pub reconfigured :
      (point : ℕ) (configs after : List Config) (storing : Option ℕ) (rows : List BtcDepositTx)
      → stored submitter_btc_sync_point_key after ≡ stored submitter_btc_sync_point_key configs
      → IsGapless btcd keeper codec scanner submitter Ran point configs storing rows
      → IsGapless btcd keeper codec scanner submitter Ran point after storing rows
  reconfigured point configs after storing rows same gapless = record {
    reached = gapless.reached;
    at_reached = same ∙ gapless.at_reached;
    not_back = gapless.not_back;
    held = gapless.held;
    held_storing = gapless.held_storing;
  }

module _ {Body Proof : Type 0} (encoding : Encoding Body Proof) (bnb : BnbRelayer)
    (Ran : WindowEnv Body Proof → Type 0) where
  -- A step of the BNB relayer leaves the sync point of the BTC relayer.
  pub BnbStep-btc_point :
      (point : ℕ) (act : BnbAct Body Proof) (s t : BnbSystem)
      → BnbGapless encoding bnb Ran point s
      → BnbStep encoding bnb s t act
      → stored submitter_btc_sync_point_key t.configs
        ≡ stored submitter_btc_sync_point_key s.configs
  unfolding BnbRepository.update_sync_point
  BnbStep-btc_point point _ s t gapless
        (insert_window env at end txs rows lawful idle at_point fits read h e) =
      rw e refl
  BnbStep-btc_point point _ s t gapless (move_bnb_point env end configs lawful busy h e) =
      let (_, fits, _) = gapless.held_storing end busy in
      rw e (
        stored-set_uint64 env.config_db lawful.config_lawful submitter_bnb_sync_point_key
          submitter_btc_sync_point_key end s.configs fits h)
  BnbStep-btc_point point _ s t gapless (keep_bnb_point env end failed busy h e) = rw e refl
  BnbStep-btc_point point _ s t gapless (fetch_wrapped env tip txs lawful empty at_tip h e) =
      rw e refl
  BnbStep-btc_point point _ s t gapless (submit_row env tx rest u lawful first outcome e) =
      rw e refl
  BnbStep-btc_point point _ s t gapless (quit_batch env i closed e) = rw e refl
  BnbStep-btc_point point _ s t gapless (crash_bnb e) = rw e refl

  pub bnb_reconfigured :
      (point : ℕ) (configs after : List Config) (storing : Option ℕ)
      (rows : List WrappedBtcDepositTx)
      → stored submitter_bnb_sync_point_key after ≡ stored submitter_bnb_sync_point_key configs
      → IsBnbGapless encoding bnb Ran point configs storing rows
      → IsBnbGapless encoding bnb Ran point after storing rows
  bnb_reconfigured point configs after storing rows same gapless = record {
    reached = gapless.reached;
    at_reached = same ∙ gapless.at_reached;
    not_back = gapless.not_back;
    held = gapless.held;
    held_storing = gapless.held_storing;
  }

-- An initialisation keeps a sync point that is set, and the other one.
pub Initialised-btc :
    (configs after : List Config) (point : ℕ)
    → 0 < point
    → stored submitter_btc_sync_point_key configs ≡ ok point
    → Initialised init_sync_point configs after
    → (stored submitter_btc_sync_point_key after ≡ stored submitter_btc_sync_point_key configs)
      × (stored submitter_bnb_sync_point_key after ≡ stored submitter_bnb_sync_point_key configs)
Initialised-btc configs after point set at_point (inl same) = rw same (refl, refl)
Initialised-btc configs after point set at_point (inr (db, height, lawful, fits, h)) =
    let (kept, other) =
      init_sync_point-stored db lawful height point configs after fits at_point h in
    (ground arith, other)

pub Initialised-bnb :
    (configs after : List Config) (point : ℕ)
    → 0 < point
    → stored submitter_bnb_sync_point_key configs ≡ ok point
    → Initialised init_bnb_sync_point configs after
    → (stored submitter_bnb_sync_point_key after ≡ stored submitter_bnb_sync_point_key configs)
      × (stored submitter_btc_sync_point_key after ≡ stored submitter_btc_sync_point_key configs)
Initialised-bnb configs after point set at_point (inl same) = rw same (refl, refl)
Initialised-bnb configs after point set at_point (inr (db, height, lawful, fits, h)) =
    let (kept, other) =
      init_bnb_sync_point-stored db lawful height point configs after fits at_point h in
    (ground arith, other)
