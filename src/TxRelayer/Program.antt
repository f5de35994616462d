-- ===== src/TxRelayer/Program.antt =====
-- The program that cmd/root.go runs: the BTC and the BNB relayer side by side. Each has a table of
-- deposits of its own, and the config table, with both sync points, is one.
pub mod NoGaps
pub mod Points
pub mod Ledgers
use lorenzo_btcstaking_submi.Base.{
  ℕ, ◌<◌, ◌≡◌, ◌⊎◌, refl, Option, none, List, [], ◌∷◌, ◌++◌, map, u64_mod, Result, ok,
}
use lorenzo_btcstaking_submi.Btc.Network.{Codec}
use lorenzo_btcstaking_submi.Btc.Utils.{Btcd}
use lorenzo_btcstaking_submi.Db.Types.{Config, BtcDepositTx, WrappedBtcDepositTx}
use lorenzo_btcstaking_submi.Db.Orm.{Model, IsLawful}
use lorenzo_btcstaking_submi.TxRelayer.Lorenzo.{MsgCreateBtcStaking, MsgCreateBtcbStaking, Keeper}
use lorenzo_btcstaking_submi.TxRelayer.Scan.{Relayer, init_sync_point}
use lorenzo_btcstaking_submi.TxRelayer.Submit.{Submitter}
use lorenzo_btcstaking_submi.TxRelayer.Steps.{System, Act, Step, Reach, start, next}
use lorenzo_btcstaking_submi.TxRelayer.Bnb.{Encoding, BnbRelayer}
use lorenzo_btcstaking_submi.TxRelayer.Bnb.Scan.{init_bnb_sync_point}
use lorenzo_btcstaking_submi.TxRelayer.Bnb.Steps.{
  BnbSystem, BnbAct, BnbStep, BnbReach, start as bnb_start, next as bnb_next,
}

pub record Program : Type 0 where
  pub configs : List Config
  pub deposits : List BtcDepositTx
  pub storing : Option ℕ
  pub batch : List BtcDepositTx
  pub sent : List MsgCreateBtcStaking
  pub wrapped : List WrappedBtcDepositTx
  pub storing_window : Option ℕ
  pub wrapped_batch : List WrappedBtcDepositTx
  pub wrapped_sent : List MsgCreateBtcbStaking

-- What the BTC relayer sees and changes of the program.
abbrev pub btc_of : Program → System
btc_of p = record {
  configs = p.configs;
  deposits = p.deposits;
  storing = p.storing;
  batch = p.batch;
  sent = p.sent;
}

abbrev pub with_btc : Program → System → Program
with_btc p s = record p {
  configs = s.configs;
  deposits = s.deposits;
  storing = s.storing;
  batch = s.batch;
  sent = s.sent;
}

-- And the BNB relayer.
abbrev pub bnb_of : Program → BnbSystem
bnb_of p = record {
  configs = p.configs;
  wrapped = p.wrapped;
  storing = p.storing_window;
  batch = p.wrapped_batch;
  sent = p.wrapped_sent;
}

abbrev pub with_bnb : Program → BnbSystem → Program
with_bnb p s = record p {
  configs = s.configs;
  wrapped = s.wrapped;
  storing_window = s.storing;
  wrapped_batch = s.batch;
  wrapped_sent = s.sent;
}

-- What takes a step: a loop of either relayer, or a restart of the process.
pub data ProgramAct (Body Proof : Type 0) : Type 0 where
  by_btc : Act → ProgramAct Body Proof
  by_bnb : BnbAct Body Proof → ProgramAct Body Proof
  restarts : ProgramAct Body Proof

-- The initialisation of a sync point when the process starts, with the height of the configuration,
-- a `uint64`, or none, where the start does not come to it or it fails.
abbrev pub Initialised :
    (Model Config → ℕ → List Config → Result (List Config)) → List Config → List Config → Type 0
Initialised init configs after =
    (after ≡ configs)
    ⊎ ((db : Model Config) × (start_block_height : ℕ) × IsLawful db
        × (start_block_height < u64_mod)
        × (init db start_block_height configs ≡ ok after))

module _ {PkScript Address MerkleBlock Body Proof : Type 0} (btcd : Btcd PkScript Address)
    (keeper : Keeper MerkleBlock) (codec : Codec) (scanner : Relayer) (submitter : Submitter)
    (encoding : Encoding Body Proof) (bnb : BnbRelayer) where
  pub data ProgramStep (p q : Program) : ProgramAct Body Proof → Type 0 where
    btc_step :
        (act : Act) (t : System)
        → Step btcd keeper codec scanner submitter (btc_of p) t act
        → q ≡ with_btc p t
        → ProgramStep p q (by_btc act)
    bnb_step :
        (act : BnbAct Body Proof) (t : BnbSystem)
        → BnbStep encoding bnb (bnb_of p) t act
        → q ≡ with_bnb p t
        → ProgramStep p q (by_bnb act)
    -- The process ends and starts again: what its loops held is lost, and NewTxRelayer and then
    -- NewBnbTxRelayer initialise their sync points.
    restart :
        (between after : List Config)
        → Initialised init_sync_point p.configs between
        → Initialised init_bnb_sync_point between after
        → q ≡ record p {
          configs = after;
          storing = none;
          batch = [];
          storing_window = none;
          wrapped_batch = [];
        }
        → ProgramStep p q restarts

  -- A run, with what took its steps, the latest first.
  pub data ProgramReach (p : Program) : List (ProgramAct Body Proof) → Program → Type 0 where
    at_start : ProgramReach p [] p
    and_then :
        (u : Program) {acts : List (ProgramAct Body Proof)} {act : ProgramAct Body Proof}
        {q : Program}
        → ProgramReach p acts u
        → ProgramStep u q act
        → ProgramReach p (act ∷ acts) q

  -- A run of one relayer is a run of the program.
  pub btc_run :
      (acts : List Act) (p : Program) (s : System)
      → Reach btcd keeper codec scanner submitter (btc_of p) acts s
      → ProgramReach p (map by_btc acts) (with_btc p s)
  btc_run [] p s start = at_start
  btc_run (act ∷ acts) p s (next u run step) =
      and_then (with_btc p u) (btc_run acts p u run) (btc_step act s step refl)

  pub bnb_run :
      (acts : List (BnbAct Body Proof)) (p : Program) (s : BnbSystem)
      → BnbReach encoding bnb (bnb_of p) acts s
      → ProgramReach p (map by_bnb acts) (with_bnb p s)
  bnb_run [] p s bnb_start = at_start
  bnb_run (act ∷ acts) p s (bnb_next u run step) =
      and_then (with_bnb p u) (bnb_run acts p u run) (bnb_step act s step refl)

  pub ProgramReach-trans :
      (first rest : List (ProgramAct Body Proof)) (p u q : Program)
      → ProgramReach p first u
      → ProgramReach u rest q
      → ProgramReach p (rest ++ first) q
  ProgramReach-trans first [] p u q run at_start = run
  ProgramReach-trans first (act ∷ rest) p u q run (and_then v more step) =
      and_then v (ProgramReach-trans first rest p u v run more) step
