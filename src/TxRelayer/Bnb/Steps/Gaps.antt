-- ===== src/TxRelayer/Bnb/Steps/Gaps.antt =====
-- The heights that the BNB scanner has passed, and their rows, in any run of the steps.
use mathlib.Core.Path.{subst}
use native.Mathlib.Decide.{dec_le}
use lorenzo_btcstaking_submi.Base.{
  ℕ, ◌+◌, ◌≤◌, ◌<◌, ◌≡◌, refl, sym, ◌∙◌, inl, inr, ◌⊎◌, Option, none, some, List, arith, u64_mod,
  ok,
}
use lorenzo_btcstaking_submi.Db.Types.{Config, WrappedBtcDepositTx, submitter_bnb_sync_point_key}
use lorenzo_btcstaking_submi.Db.Orm.{eq_of_Answers}
use lorenzo_btcstaking_submi.Db.Kv.SyncPoint.{stored}
use lorenzo_btcstaking_submi.Db.Insertion.{Covers}
use lorenzo_btcstaking_submi.Db.Queue.{Grows}
use lorenzo_btcstaking_submi.Db.Queue.Growth.{Covers-Grows}
use lorenzo_btcstaking_submi.Db.BnbRepository.{get_sync_point, update_sync_point}
use lorenzo_btcstaking_submi.Db.BnbRepository.Deposits.{same_chain_txid, insert_wrapped-Covers}
use lorenzo_btcstaking_submi.Db.BnbRepository.Columns.{wrapped_columns, wrapped_columns-IsColumns}
use lorenzo_btcstaking_submi.TxRelayer.Bnb.{Encoding, BnbRelayer}
use lorenzo_btcstaking_submi.TxRelayer.Bnb.Scan.{WindowEnv, WrappedState}
use lorenzo_btcstaking_submi.TxRelayer.Bnb.Scan.Windows.{
  IsLawfulWindow, ReadWindow, get_bnb_point-stored, update_bnb_point-stored,
}
use lorenzo_btcstaking_submi.TxRelayer.Bnb.Steps.{
  BnbSystem, Window, BnbAct, reads, BnbStep, insert_window, move_bnb_point, keep_bnb_point,
  fetch_wrapped, submit_row, quit_batch, crash_bnb,
}
use lorenzo_btcstaking_submi.TxRelayer.Bnb.Steps.Invariant.{BnbReason, BnbGrows}

-- The scanner's tables in the system.
abbrev pub bnb_tables : BnbSystem → WrappedState
bnb_tables s = record { configs = s.configs; wrapped = s.wrapped }

module _ {Body Proof : Type 0} (encoding : Encoding Body Proof) (r : BnbRelayer)
    (Ran : WindowEnv Body Proof → Type 0) where
  -- In a pass of the run, a window that holds the height was read with its confirmations, and each deposit made of its
  -- receipts has a row.
  abbrev pub HeldWindow : ℕ → List WrappedBtcDepositTx → Type 0
  HeldWindow height rows =
      (env : WindowEnv Body Proof) × (first last : ℕ) × (txs : List WrappedBtcDepositTx) × Ran env
      × IsLawfulWindow env
      × (first ≤ height)
      × (height ≤ last)
      × ReadWindow encoding r env first last txs
      × Covers same_chain_txid rows txs

  -- From the start on to the sync point every height is held, and so is the window that is being
  -- stored.
  pub record IsBnbGapless (point : ℕ) (configs : List Config) (storing : Option ℕ)
      (rows : List WrappedBtcDepositTx) : Type 0 where
    pub reached : ℕ
    pub at_reached : stored submitter_bnb_sync_point_key configs ≡ ok reached
    pub not_back : point ≤ reached
    pub held : (height : ℕ) → point < height → height ≤ reached → HeldWindow height rows
    pub held_storing :
        (end : ℕ)
        → storing ≡ some end
        → (reached < end)
          × (end < u64_mod)
          × ((height : ℕ) → reached < height → height ≤ end → HeldWindow height rows)

  abbrev pub BnbGapless : ℕ → BnbSystem → Type 0
  BnbGapless point s = IsBnbGapless point s.configs s.storing s.wrapped

  HeldWindow-Grows :
      (height : ℕ) (rows after : List WrappedBtcDepositTx)
      → Grows wrapped_columns (BnbReason encoding r) rows after
      → HeldWindow height rows
      → HeldWindow height after
  HeldWindow-Grows height rows after g
        (env, first, last, txs, ran, lawful, low, high, read, covers) =
      (
        env,
        first,
        last,
        txs,
        ran,
        lawful,
        low,
        high,
        read,
        Covers-Grows wrapped_columns-IsColumns (BnbReason encoding r) txs rows after g covers,
      )

  -- A step that leaves the sync point, and the window that is being stored or none.
  stay :
      (point : ℕ) (configs : List Config) (storing kept : Option ℕ)
      (rows after : List WrappedBtcDepositTx)
      → Grows wrapped_columns (BnbReason encoding r) rows after
      → (kept ≡ storing) ⊎ (kept ≡ none)
      → IsBnbGapless point configs storing rows
      → IsBnbGapless point configs kept after
  stay point configs storing kept rows after g choice gapless = record {
    reached = gapless.reached;
    at_reached = gapless.at_reached;
    not_back = gapless.not_back;
    held = λ h above below. HeldWindow-Grows h rows after g (gapless.held h above below);
    held_storing = λ end e. elim choice [
      | inl same ↦
          let (past, fits, here) = gapless.held_storing end (sym same ∙ e) in
          (past, fits, λ h above below. HeldWindow-Grows h rows after g (here h above below))
      | inr dropped ↦ absurd (ground arith)
    ];
  }

  -- The window's rows are committed.
  insert-Gapless :
      (point at end : ℕ) (env : WindowEnv Body Proof) (s : BnbSystem)
      (txs rows : List WrappedBtcDepositTx)
      → Ran env
      → IsLawfulWindow env
      → get_sync_point env.config_db s.configs ≡ ok at
      → at + 1001 + r.delay_blocks < u64_mod
      → Window encoding r env at end txs
      → Covers same_chain_txid rows txs
      → Grows wrapped_columns (BnbReason encoding r) s.wrapped rows
      → BnbGapless point s
      → IsBnbGapless point s.configs (some end) rows
  insert-Gapless point at end env s txs rows ran lawful at_point fits read covers g gapless =
      let answers =
        get_bnb_point-stored encoding r env lawful gapless.reached (bnb_tables s)
          gapless.at_reached in
      let e : at ≡ gapless.reached = eq_of_Answers answers at_point in
      let (low, high, _, window) = read in
      record {
        reached = gapless.reached;
        at_reached = gapless.at_reached;
        not_back = gapless.not_back;
        held = λ h above below. HeldWindow-Grows h s.wrapped rows g (gapless.held h above below);
        held_storing = λ other k.
            let now : end ≡ other = ground arith in
            (
              omega arith,
              omega arith,
              λ h above below.
                  (env, at + 1, end, txs, ran, lawful, omega arith, omega arith, window, covers),
            );
      }

  -- The sync point moves to the end of the window.
  move-Gapless :
      (point end : ℕ) (env : WindowEnv Body Proof) (s : BnbSystem) (configs : List Config)
      → IsLawfulWindow env
      → s.storing ≡ some end
      → update_sync_point env.config_db end s.configs ≡ ok configs
      → BnbGapless point s
      → IsBnbGapless point configs none s.wrapped
  move-Gapless point end env s configs lawful busy written gapless =
      let (past, fits, here) = gapless.held_storing end busy in
      let low = gapless.not_back in
      record {
        reached = end;
        at_reached =
            update_bnb_point-stored encoding r env lawful end (bnb_tables s) configs fits written;
        not_back = omega arith;
        held = λ h above below. elim (dec_le h gapless.reached) [
          | yes old ↦ gapless.held h above old
          | no new ↦ here h (omega arith) below
        ];
        held_storing = λ h f. absurd (ground arith);
      }

  pub BnbStep-Gapless :
      (point : ℕ) (act : BnbAct Body Proof) (s t : BnbSystem)
      → ((env : WindowEnv Body Proof) → act ≡ reads env → Ran env)
      → BnbStep encoding r s t act
      → BnbGrows encoding r s t
      → BnbGapless point s
      → BnbGapless point t
  BnbStep-Gapless point _ s t ran
        (insert_window env at end txs rows lawful idle at_point fits read h e) g gapless =
      subst (BnbGapless point) (sym e) (
        insert-Gapless point at end env s txs rows (ran env refl) lawful at_point fits read
          (insert_wrapped-Covers env.wrapped_db lawful.wrapped_lawful txs s.wrapped rows h)
          (subst (BnbGrows encoding r s) e g) gapless)
  BnbStep-Gapless point _ s t ran (move_bnb_point env end configs lawful busy h e) g gapless =
      subst (BnbGapless point) (sym e) (move-Gapless point end env s configs lawful busy h gapless)
  BnbStep-Gapless point _ s t ran (keep_bnb_point env end failed busy h e) g gapless =
      subst (BnbGapless point) (sym e) (
        stay point s.configs s.storing none s.wrapped s.wrapped (subst (BnbGrows encoding r s) e g)
          (inr refl) gapless)
  BnbStep-Gapless point _ s t ran (fetch_wrapped env tip txs lawful empty at_tip h e) g gapless =
      subst (BnbGapless point) (sym e) (
        stay point s.configs s.storing s.storing s.wrapped s.wrapped
          (subst (BnbGrows encoding r s) e g) (inl refl) gapless)
  BnbStep-Gapless point _ s t ran (submit_row env tx rest u lawful first outcome e) g gapless =
      subst (BnbGapless point) (sym e) (
        stay point s.configs s.storing s.storing s.wrapped u.wrapped
          (subst (BnbGrows encoding r s) e g) (inl refl) gapless)
  BnbStep-Gapless point _ s t ran (quit_batch env i closed e) g gapless =
      subst (BnbGapless point) (sym e) (
        stay point s.configs s.storing s.storing s.wrapped s.wrapped
          (subst (BnbGrows encoding r s) e g) (inl refl) gapless)
  BnbStep-Gapless point _ s t ran (crash_bnb e) g gapless = subst (BnbGapless point) (sym e) (
      stay point s.configs s.storing none s.wrapped s.wrapped (subst (BnbGrows encoding r s) e g)
        (inr refl) gapless)

  -- Where nothing has been passed yet.
  pub BnbGapless-start :
      (point : ℕ) (s : BnbSystem)
      → s.storing ≡ none
      → stored submitter_bnb_sync_point_key s.configs ≡ ok point
      → BnbGapless point s
  BnbGapless-start point s idle at_point = record {
    reached = point;
    at_reached = at_point;
    not_back = omega arith;
    held = λ h above below. absurd (omega arith);
    held_storing = λ end e. absurd (ground arith);
  }

module _ {Body Proof : Type 0} (encoding : Encoding Body Proof) (r : BnbRelayer)
    (Ran Later : WindowEnv Body Proof → Type 0)
    (longer : (env : WindowEnv Body Proof) → Ran env → Later env) where
  HeldWindow-longer :
      (height : ℕ) (rows : List WrappedBtcDepositTx)
      → HeldWindow encoding r Ran height rows
      → HeldWindow encoding r Later height rows
  HeldWindow-longer height rows (env, first, last, txs, ran, lawful, low, high, read, covers) =
      (env, first, last, txs, longer env ran, lawful, low, high, read, covers)

  -- In a longer run.
  pub BnbGapless-longer :
      (point : ℕ) (s : BnbSystem)
      → BnbGapless encoding r Ran point s
      → BnbGapless encoding r Later point s
  BnbGapless-longer point s gapless = record {
    reached = gapless.reached;
    at_reached = gapless.at_reached;
    not_back = gapless.not_back;
    held = λ h above below. HeldWindow-longer h s.wrapped (gapless.held h above below);
    held_storing = λ end e.
        let (past, fits, here) = gapless.held_storing end e in
        (past, fits, λ h above below. HeldWindow-longer h s.wrapped (here h above below));
  }
