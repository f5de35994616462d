-- ===== src/TxRelayer/Steps/Gaps.antt =====
-- The heights that the scanner has passed, and their deposits, in any run of the steps.
use mathlib.Core.Path.{subst}
use native.Mathlib.Decide.{dec_le}
use lorenzo_btcstaking_submi.Base.{
  ℕ, ◌+◌, ◌≤◌, ◌<◌, ◌≡◌, refl, sym, ◌∙◌, ap, inl, inr, ◌⊎◌, Option, none, some, List, arith,
  u64_mod, ok,
}
use lorenzo_btcstaking_submi.Btc.Network.{Codec}
use lorenzo_btcstaking_submi.Btc.Utils.{Btcd}
use lorenzo_btcstaking_submi.Db.Types.{Config, BtcDepositTx, submitter_btc_sync_point_key}
use lorenzo_btcstaking_submi.Db.Orm.{eq_of_Answers}
use lorenzo_btcstaking_submi.Db.Kv.SyncPoint.{stored}
use lorenzo_btcstaking_submi.Db.Insertion.{Covers}
use lorenzo_btcstaking_submi.Db.BtcRepository.{get_sync_point, update_sync_point}
use lorenzo_btcstaking_submi.Db.BtcRepository.Deposits.{same_txid, insert_btc_deposit_txs-Distinct}
use lorenzo_btcstaking_submi.TxRelayer.Lorenzo.{Keeper}
use lorenzo_btcstaking_submi.TxRelayer.Scan.{Relayer, RoundEnv, ScanState}
use lorenzo_btcstaking_submi.TxRelayer.Scan.Round.{
  IsLawfulEnv, Scanned, update_sync_point-stored, get_sync_point-stored,
}
use lorenzo_btcstaking_submi.TxRelayer.Submit.{Submitter}
use lorenzo_btcstaking_submi.TxRelayer.Steps.{
  System, Act, scans, Step, insert_deposits, move_sync_point, keep_sync_point, fetch_batch,
  submit_deposit, crash,
}
use lorenzo_btcstaking_submi.TxRelayer.Steps.Ageing.{AnyPass, Reason, Grows}
use lorenzo_btcstaking_submi.Db.Queue.Growth.{Covers-Grows}
use lorenzo_btcstaking_submi.Db.BtcRepository.Columns.{btc_columns-IsColumns}
use lorenzo_btcstaking_submi.TxRelayer.Steps.Invariant.{Inv}

module _ {PkScript Address MerkleBlock : Type 0} (btcd : Btcd PkScript Address)
    (keeper : Keeper MerkleBlock) (codec : Codec) (scanner : Relayer) (submitter : Submitter)
    (Ran : RoundEnv → Type 0) where
  -- In a pass of the run, a block at the height was found with its confirmations and read, and each
  -- of its deposits has a row.
  abbrev pub Held : ℕ → List BtcDepositTx → Type 0
  Held height rows =
      (env : RoundEnv) × (txs : List BtcDepositTx) × Ran env
      × IsLawfulEnv env
      × Scanned btcd codec scanner env height txs
      × Covers same_txid rows txs

  -- From the start on to the sync point every height is held, and so is the one that is being stored.
  pub record IsGapless (point : ℕ) (configs : List Config) (storing : Option ℕ)
      (rows : List BtcDepositTx) : Type 0 where
    pub reached : ℕ
    pub at_reached : stored submitter_btc_sync_point_key configs ≡ ok reached
    pub not_back : point ≤ reached
    pub held : (height : ℕ) → point < height → height ≤ reached → Held height rows
    pub held_storing :
        (height : ℕ)
        → storing ≡ some height
        → (height ≡ reached + 1) × (height < u64_mod) × Held height rows

  Held-Grows :
      (height : ℕ) (rows after : List BtcDepositTx)
      → Grows btcd keeper codec scanner submitter AnyPass rows after
      → Held height rows
      → Held height after
  Held-Grows height rows after g (env, txs, ran, lawful, scanned, covers) = (
    env,
    txs,
    ran,
    lawful,
    scanned,
    Covers-Grows btc_columns-IsColumns (Reason btcd keeper codec scanner submitter AnyPass) txs rows
        after g covers,
  )

  -- A step that leaves the sync point, and the height that is being stored or none.
  stay :
      (point : ℕ) (configs : List Config) (storing kept : Option ℕ) (rows after : List BtcDepositTx)
      → Grows btcd keeper codec scanner submitter AnyPass rows after
      → (kept ≡ storing) ⊎ (kept ≡ none)
      → IsGapless point configs storing rows
      → IsGapless point configs kept after
  stay point configs storing kept rows after g choice gapless = record {
    reached = gapless.reached;
    at_reached = gapless.at_reached;
    not_back = gapless.not_back;
    held = λ h above below. Held-Grows h rows after g (gapless.held h above below);
    held_storing = λ h e. elim choice [
      | inl same ↦
          let (at_next, fits, here) = gapless.held_storing h (sym same ∙ e) in
          (at_next, fits, Held-Grows h rows after g here)
      | inr dropped ↦ absurd (ground arith)
    ];
  }

  abbrev pub Gapless : ℕ → System → Type 0
  Gapless point s = IsGapless point s.configs s.storing s.deposits

  abbrev pub Grow : System → System → Type 0
  Grow s t = Grows btcd keeper codec scanner submitter AnyPass s.deposits t.deposits

  -- The block's deposits are committed.
  insert-Gapless :
      (point at : ℕ) (env : RoundEnv) (s : System) (txs rows : List BtcDepositTx)
      → Ran env
      → IsLawfulEnv env
      → get_sync_point env.config_db s.configs ≡ ok at
      → at + 1 < u64_mod
      → Scanned btcd codec scanner env (at + 1) txs
      → Covers same_txid rows txs
      → Grows btcd keeper codec scanner submitter AnyPass s.deposits rows
      → Gapless point s
      → IsGapless point s.configs (some (at + 1)) rows
  insert-Gapless point at env s txs rows ran lawful at_point fits scanned covers g gapless =
      let tables : ScanState = record { configs = s.configs; deposits = s.deposits } in
      let answers = get_sync_point-stored env lawful gapless.reached tables gapless.at_reached in
      let e : at ≡ gapless.reached = eq_of_Answers answers at_point in
      record {
        reached = gapless.reached;
        at_reached = gapless.at_reached;
        not_back = gapless.not_back;
        held = λ h above below. Held-Grows h s.deposits rows g (gapless.held h above below);
        held_storing = λ h f.
            let now : at + 1 ≡ h = ground arith in
            (
              sym now ∙ ap (λ n. n + 1) e,
              subst (λ n. n < u64_mod) now fits,
              subst (λ n. Held n rows) now (env, txs, ran, lawful, scanned, covers),
            );
      }

  -- The sync point moves to the height that was stored.
  move-Gapless :
      (point height : ℕ) (env : RoundEnv) (s : System) (configs : List Config)
      → IsLawfulEnv env
      → s.storing ≡ some height
      → update_sync_point env.config_db height s.configs ≡ ok configs
      → Gapless point s
      → IsGapless point configs none s.deposits
  move-Gapless point height env s configs lawful busy written gapless =
      let (at_next, fits, here) = gapless.held_storing height busy in
      let tables : ScanState = record { configs = s.configs; deposits = s.deposits } in
      let low = gapless.not_back in
      record {
        reached = height;
        at_reached = update_sync_point-stored env lawful height tables configs fits written;
        not_back = omega arith;
        held = λ h above below. elim (dec_le h gapless.reached) [
          | yes old ↦ gapless.held h above old
          | no new ↦ let e : height ≡ h = omega arith in subst (λ n. Held n s.deposits) e here
        ];
        held_storing = λ h f. absurd (ground arith);
      }

  pub Step-Gapless :
      (point : ℕ) (act : Act) (s t : System)
      → ((env : RoundEnv) → act ≡ scans env → Ran env)
      → Step btcd keeper codec scanner submitter s t act
      → Grow s t
      → Inv s
      → Gapless point s
      → Gapless point t
  Step-Gapless point _ s t ran
        (insert_deposits env at txs rows lawful idle at_point fits scanned h e) g inv gapless =
      let (_, _, covers) =
        insert_btc_deposit_txs-Distinct env.deposit_db lawful.deposit_lawful txs s.deposits rows
          inv.rows_distinct h in
      subst (Gapless point) (sym e) (
        insert-Gapless point at env s txs rows (ran env refl) lawful at_point fits scanned covers
          (subst (Grow s) e g) gapless)
  Step-Gapless point _ s t ran (move_sync_point env height configs lawful busy h e) g inv gapless =
      subst (Gapless point) (sym e) (move-Gapless point height env s configs lawful busy h gapless)
  Step-Gapless point _ s t ran (keep_sync_point env height failed busy h e) g inv gapless =
      subst (Gapless point) (sym e) (
        stay point s.configs s.storing none s.deposits s.deposits (subst (Grow s) e g) (inr refl)
          gapless)
  Step-Gapless point _ s t ran (fetch_batch env tip txs lawful empty at_tip h e) g inv gapless =
      subst (Gapless point) (sym e) (
        stay point s.configs s.storing s.storing s.deposits s.deposits (subst (Grow s) e g)
          (inl refl) gapless)
  Step-Gapless point _ s t ran (submit_deposit env tx rest u lawful first outcome e) g inv gapless =
      subst (Gapless point) (sym e) (
        stay point s.configs s.storing s.storing s.deposits u.deposits (subst (Grow s) e g)
          (inl refl) gapless)
  Step-Gapless point _ s t ran (crash e) g inv gapless = subst (Gapless point) (sym e) (
      stay point s.configs s.storing none s.deposits s.deposits (subst (Grow s) e g) (inr refl)
        gapless)

  -- Where nothing has been passed yet.
  pub Gapless-start :
      (point : ℕ) (s : System)
      → s.storing ≡ none
      → stored submitter_btc_sync_point_key s.configs ≡ ok point
      → Gapless point s
  Gapless-start point s idle at_point = record {
    reached = point;
    at_reached = at_point;
    not_back = omega arith;
    held = λ h above below. absurd (omega arith);
    held_storing = λ h e. absurd (ground arith);
  }

module _ {PkScript Address MerkleBlock : Type 0} (btcd : Btcd PkScript Address)
    (keeper : Keeper MerkleBlock) (codec : Codec) (scanner : Relayer) (submitter : Submitter)
    (Ran Later : RoundEnv → Type 0) (longer : (env : RoundEnv) → Ran env → Later env) where
  Held-longer :
      (height : ℕ) (rows : List BtcDepositTx)
      → Held btcd keeper codec scanner submitter Ran height rows
      → Held btcd keeper codec scanner submitter Later height rows
  Held-longer height rows (env, txs, ran, lawful, scanned, covers) =
      (env, txs, longer env ran, lawful, scanned, covers)

  -- In a longer run.
  pub Gapless-longer :
      (point : ℕ) (s : System)
      → Gapless btcd keeper codec scanner submitter Ran point s
      → Gapless btcd keeper codec scanner submitter Later point s
  Gapless-longer point s gapless = record {
    reached = gapless.reached;
    at_reached = gapless.at_reached;
    not_back = gapless.not_back;
    held = λ h above below. Held-longer h s.deposits (gapless.held h above below);
    held_storing = λ h e.
        let (at_next, fits, here) = gapless.held_storing h e in
        (at_next, fits, Held-longer h s.deposits here);
  }
