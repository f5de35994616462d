-- ===== src/TxRelayer/Program/NoGaps.antt =====
-- The heights that both scanners have passed, while they write their sync points to one table.
use mathlib.Core.Path.{subst}
use lorenzo_btcstaking_submi.Base.{
  ℕ, ◌<◌, ◌≤◌, ◌≡◌, refl, sym, ◌∙◌, none, List, [], ◌∷◌, arith, ok, ap, Has, here, there,
}
use lorenzo_btcstaking_submi.Btc.Network.{Codec}
use lorenzo_btcstaking_submi.Btc.Utils.{Btcd}
use lorenzo_btcstaking_submi.Db.Types.{
  Config, submitter_btc_sync_point_key, submitter_bnb_sync_point_key,
}
use lorenzo_btcstaking_submi.Db.Kv.SyncPoint.{stored}
use lorenzo_btcstaking_submi.TxRelayer.Lorenzo.{Keeper}
use lorenzo_btcstaking_submi.TxRelayer.Scan.{Relayer, RoundEnv, init_sync_point}
use lorenzo_btcstaking_submi.TxRelayer.Bnb.Scan.{WindowEnv, init_bnb_sync_point}
use lorenzo_btcstaking_submi.TxRelayer.Steps.Ageing.{AnyPass}
use lorenzo_btcstaking_submi.TxRelayer.Submit.{Submitter}
use lorenzo_btcstaking_submi.TxRelayer.Steps.{System, Act, scans, crashes, Step, crash}
use lorenzo_btcstaking_submi.TxRelayer.Steps.Invariant.{Step-Sound}
use lorenzo_btcstaking_submi.TxRelayer.Steps.Gaps.{
  Held, Gapless, Gapless-start, Gapless-longer, Step-Gapless,
}
use lorenzo_btcstaking_submi.TxRelayer.Bnb.{Encoding, BnbRelayer}
use lorenzo_btcstaking_submi.TxRelayer.Bnb.Steps.{
  BnbSystem, BnbAct, reads, crashes as bnb_crashes, BnbStep, crash_bnb,
}
use lorenzo_btcstaking_submi.TxRelayer.Bnb.Steps.Invariant.{BnbStep-Sound}
use lorenzo_btcstaking_submi.TxRelayer.Bnb.Steps.Gaps.{
  HeldWindow, BnbGapless, BnbGapless-start, BnbGapless-longer, BnbStep-Gapless,
}
use lorenzo_btcstaking_submi.TxRelayer.Program.{
  Program, ProgramAct, by_btc, by_bnb, restarts, Initialised, btc_of, with_btc, bnb_of, with_bnb,
  btc_step, bnb_step, restart, ProgramReach, at_start, and_then,
}
use lorenzo_btcstaking_submi.TxRelayer.Program.Ledgers.{InOrder}
use lorenzo_btcstaking_submi.TxRelayer.Program.Points.{
  Step-bnb_point, reconfigured, BnbStep-btc_point, bnb_reconfigured, Initialised-btc,
  Initialised-bnb,
}

-- The world is that of a pass of the BTC scanner that took a step of the run.
abbrev pub ScansOf : {Body Proof : Type 0} → List (ProgramAct Body Proof) → RoundEnv → Type 0
ScansOf acts env = Has (λ act. act ≡ by_btc (scans env)) acts

-- The world is that of a pass of the BNB scanner that took a step of the run.
abbrev pub ReadsOf :
    {Body Proof : Type 0} → List (ProgramAct Body Proof) → WindowEnv Body Proof → Type 0
ReadsOf acts env = Has (λ act. act ≡ by_bnb (reads env)) acts

module _ {PkScript Address MerkleBlock Body Proof : Type 0} (btcd : Btcd PkScript Address)
    (keeper : Keeper MerkleBlock) (codec : Codec) (scanner : Relayer) (submitter : Submitter)
    (encoding : Encoding Body Proof) (bnb : BnbRelayer) where
  -- The tables are in order, and neither scanner has left a gap since the start of the run.
  abbrev BothGapless : List (ProgramAct Body Proof) → ℕ → ℕ → Program → Type 0
  BothGapless acts point bnb_point p =
      InOrder btcd keeper codec scanner submitter encoding bnb p
      × Gapless btcd keeper codec scanner submitter (ScansOf acts) point (btc_of p)
      × BnbGapless encoding bnb (ReadsOf acts) bnb_point (bnb_of p)

  longer :
      (acts : List (ProgramAct Body Proof)) (act : ProgramAct Body Proof) (point bnb_point : ℕ)
      (p : Program)
      → BothGapless acts point bnb_point p
      → BothGapless (act ∷ acts) point bnb_point p
  longer acts act point bnb_point p (inv, gapless, bnb_gapless) = (
    inv,
    Gapless-longer btcd keeper codec scanner submitter (ScansOf acts) (ScansOf (act ∷ acts))
        (λ env h. there h) point (btc_of p) gapless,
    BnbGapless-longer encoding bnb (ReadsOf acts) (ReadsOf (act ∷ acts)) (λ env h. there h)
        bnb_point (bnb_of p) bnb_gapless,
  )

  after_btc :
      (acts : List (ProgramAct Body Proof)) (act : Act) (point bnb_point : ℕ) (p : Program)
      (t : System)
      → ((env : RoundEnv) → act ≡ scans env → ScansOf acts env)
      → Step btcd keeper codec scanner submitter (btc_of p) t act
      → BothGapless acts point bnb_point p
      → BothGapless acts point bnb_point (with_btc p t)
  after_btc acts act point bnb_point p t ran step ((inv, bnb_inv), gapless, bnb_gapless) =
      let (after, grows) =
        Step-Sound btcd keeper codec scanner submitter AnyPass (btc_of p) t act (λ env e. tt) step
          inv in
      let same =
        Step-bnb_point btcd keeper codec scanner submitter (ScansOf acts) point act (btc_of p) t
          gapless step in
      (
        (after, record { queue = bnb_inv.queue; of_chain = bnb_inv.of_chain }),
        Step-Gapless btcd keeper codec scanner submitter (ScansOf acts) point act (btc_of p) t ran
            step grows inv gapless,
        bnb_reconfigured encoding bnb (ReadsOf acts) bnb_point p.configs t.configs p.storing_window
            p.wrapped same bnb_gapless,
      )

  after_bnb :
      (acts : List (ProgramAct Body Proof)) (act : BnbAct Body Proof) (point bnb_point : ℕ)
      (p : Program) (t : BnbSystem)
      → ((env : WindowEnv Body Proof) → act ≡ reads env → ReadsOf acts env)
      → BnbStep encoding bnb (bnb_of p) t act
      → BothGapless acts point bnb_point p
      → BothGapless acts point bnb_point (with_bnb p t)
  after_bnb acts act point bnb_point p t ran step ((inv, bnb_inv), gapless, bnb_gapless) =
      let (after, grows) = BnbStep-Sound encoding bnb act (bnb_of p) t step bnb_inv in
      let same =
        BnbStep-btc_point encoding bnb (ReadsOf acts) bnb_point act (bnb_of p) t bnb_gapless step in
      (
        (inv, after),
        reconfigured btcd keeper codec scanner submitter (ScansOf acts) point p.configs t.configs
            p.storing p.deposits same gapless,
        BnbStep-Gapless encoding bnb (ReadsOf acts) bnb_point act (bnb_of p) t ran step grows
            bnb_gapless,
      )

  -- Both relayers lose what their loops held.
  after_loss :
      (acts : List (ProgramAct Body Proof)) (point bnb_point : ℕ) (p : Program)
      → BothGapless acts point bnb_point p
      → BothGapless acts point bnb_point
          (record p { storing = none; batch = []; storing_window = none; wrapped_batch = [] })
  after_loss acts point bnb_point p held =
      let btc_lost = record (btc_of p) { storing = none; batch = [] } in
      let v = with_btc p btc_lost in
      after_bnb acts bnb_crashes point bnb_point v
        (record (bnb_of v) { storing = none; batch = [] }) (λ env e. cc) (crash_bnb refl)
        (after_btc acts crashes point bnb_point p btc_lost (λ env e. cc) (crash refl) held)

  -- The sync points are initialised, which keeps those that are set.
  after_start :
      (acts : List (ProgramAct Body Proof)) (point bnb_point : ℕ) (p : Program)
      (between after : List Config)
      → 0 < point
      → 0 < bnb_point
      → Initialised init_sync_point p.configs between
      → Initialised init_bnb_sync_point between after
      → BothGapless acts point bnb_point p
      → BothGapless acts point bnb_point (record p { configs = after })
  after_start acts point bnb_point p between after set bnb_set btc_init bnb_init
        ((inv, bnb_inv), gapless, bnb_gapless) =
      let low = gapless.not_back in
      let bnb_low = bnb_gapless.not_back in
      let (btc_kept, bnb_other) =
        Initialised-btc p.configs between gapless.reached (omega arith) gapless.at_reached
          btc_init in
      let (bnb_kept, btc_other) =
        Initialised-bnb between after bnb_gapless.reached (omega arith)
          (bnb_other ∙ bnb_gapless.at_reached) bnb_init in
      (
        (inv, record { queue = bnb_inv.queue; of_chain = bnb_inv.of_chain }),
        reconfigured btcd keeper codec scanner submitter (ScansOf acts) point p.configs after
            p.storing p.deposits (btc_other ∙ btc_kept) gapless,
        bnb_reconfigured encoding bnb (ReadsOf acts) bnb_point p.configs after p.storing_window
            p.wrapped (bnb_kept ∙ bnb_other) bnb_gapless,
      )

  ProgramReach-BothGapless :
      (acts : List (ProgramAct Body Proof)) (point bnb_point : ℕ) (p q : Program)
      → 0 < point
      → 0 < bnb_point
      → BothGapless [] point bnb_point p
      → ProgramReach btcd keeper codec scanner submitter encoding bnb p acts q
      → BothGapless acts point bnb_point q
  ProgramReach-BothGapless [] point bnb_point p q set bnb_set first at_start = first
  ProgramReach-BothGapless (_ ∷ acts) point bnb_point p q set bnb_set first
        (and_then u run (btc_step act t step e)) =
      let before = ProgramReach-BothGapless acts point bnb_point p u set bnb_set first run in
      subst (BothGapless (by_btc act ∷ acts) point bnb_point) (sym e) (
        after_btc (by_btc act ∷ acts) act point bnb_point u t (λ env f. here (ap by_btc f)) step
          (longer acts (by_btc act) point bnb_point u before))
  ProgramReach-BothGapless (_ ∷ acts) point bnb_point p q set bnb_set first
        (and_then u run (bnb_step act t step e)) =
      let before = ProgramReach-BothGapless acts point bnb_point p u set bnb_set first run in
      subst (BothGapless (by_bnb act ∷ acts) point bnb_point) (sym e) (
        after_bnb (by_bnb act ∷ acts) act point bnb_point u t (λ env f. here (ap by_bnb f)) step
          (longer acts (by_bnb act) point bnb_point u before))
  ProgramReach-BothGapless (_ ∷ acts) point bnb_point p q set bnb_set first
        (and_then u run (restart between after btc_init bnb_init e)) =
      let before = ProgramReach-BothGapless acts point bnb_point p u set bnb_set first run in
      let all = restarts ∷ acts in
      subst (BothGapless all point bnb_point) (sym e) (
        after_loss all point bnb_point (record u { configs = after })
          (after_start all point bnb_point u between after set bnb_set btc_init bnb_init
            (longer acts restarts point bnb_point u before)))

  -- Nothing is skipped by the program, whatever the order of the steps of both relayers' loops and
  -- however often the process is restarted: each time with its sync points initialised anew: from
  -- tables and batches that are in order, idle scanners and a sync point of each relayer that is
  -- not 0, for every height that the BTC sync point has passed at the end of a run, one of the
  -- run's own passes found the height with its confirmations and read its block, and each deposit
  -- of that block has a row; and for every height that the BNB sync point has passed, one of the
  -- run's own passes read a window that holds the height, with its confirmations, and each deposit
  -- made of its receipts has a row.
  pub ProgramReach-Held :
      (acts : List (ProgramAct Body Proof))
      (point reached height bnb_point bnb_reached bnb_height : ℕ) (p q : Program)
      → InOrder btcd keeper codec scanner submitter encoding bnb p
      → p.storing ≡ none
      → p.storing_window ≡ none
      → 0 < point
      → 0 < bnb_point
      → stored submitter_btc_sync_point_key p.configs ≡ ok point
      → stored submitter_bnb_sync_point_key p.configs ≡ ok bnb_point
      → ProgramReach btcd keeper codec scanner submitter encoding bnb p acts q
      → stored submitter_btc_sync_point_key q.configs ≡ ok reached
      → stored submitter_bnb_sync_point_key q.configs ≡ ok bnb_reached
      → point < height
      → height ≤ reached
      → bnb_point < bnb_height
      → bnb_height ≤ bnb_reached
      → Held btcd keeper codec scanner submitter (ScansOf acts) height q.deposits
        × HeldWindow encoding bnb (ReadsOf acts) bnb_height q.wrapped
  ProgramReach-Held acts point reached height bnb_point bnb_reached bnb_height p q inv idle bnb_idle
        set bnb_set at_point at_bnb_point run ends bnb_ends above below bnb_above bnb_below =
      let (_, gapless, bnb_gapless) =
        ProgramReach-BothGapless acts point bnb_point p q set bnb_set
          (
            inv,
            Gapless-start btcd keeper codec scanner submitter (ScansOf []) point (btc_of p) idle
                at_point,
            BnbGapless-start encoding bnb (ReadsOf []) bnb_point (bnb_of p) bnb_idle at_bnb_point,
          )
          run in
      let same : ok gapless.reached ≡ ok reached = sym gapless.at_reached ∙ ends in
      let bnb_same : ok bnb_gapless.reached ≡ ok bnb_reached =
        sym bnb_gapless.at_reached ∙ bnb_ends in
      let e : gapless.reached ≡ reached = ground arith in
      let bnb_e : bnb_gapless.reached ≡ bnb_reached = ground arith in
      (gapless.held height above (omega arith), bnb_gapless.held bnb_height bnb_above (omega arith))
