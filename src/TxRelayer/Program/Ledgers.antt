-- ===== src/TxRelayer/Program/Ledgers.antt =====
-- The tables of the program under the steps of both relayers.
use lorenzo_btcstaking_submi.Base.{refl, String, none, []}
use lorenzo_btcstaking_submi.Btc.Network.{Codec}
use lorenzo_btcstaking_submi.Btc.Utils.{Btcd}
use lorenzo_btcstaking_submi.Db.Queue.Ledger.{Move, stay}
use lorenzo_btcstaking_submi.TxRelayer.Lorenzo.{Keeper}
use lorenzo_btcstaking_submi.TxRelayer.Scan.{Relayer}
use lorenzo_btcstaking_submi.TxRelayer.Submit.{Submitter}
use lorenzo_btcstaking_submi.TxRelayer.Steps.{crashes, crash}
use lorenzo_btcstaking_submi.TxRelayer.Steps.Invariant.{Inv}
use lorenzo_btcstaking_submi.TxRelayer.Steps.Ledger.{status_of, Step-Move}
use lorenzo_btcstaking_submi.TxRelayer.Bnb.{Encoding, BnbRelayer}
use lorenzo_btcstaking_submi.TxRelayer.Bnb.Steps.{crashes as bnb_crashes, crash_bnb}
use lorenzo_btcstaking_submi.TxRelayer.Bnb.Steps.Invariant.{BnbInv}
use lorenzo_btcstaking_submi.TxRelayer.Bnb.Steps.Ledger.{wrapped_status, BnbStep-Move}
use lorenzo_btcstaking_submi.TxRelayer.Program.{
  Program, ProgramAct, btc_of, bnb_of, ProgramStep, btc_step, bnb_step, restart,
}

module _ {PkScript Address MerkleBlock Body Proof : Type 0} (btcd : Btcd PkScript Address)
    (keeper : Keeper MerkleBlock) (codec : Codec) (scanner : Relayer) (submitter : Submitter)
    (encoding : Encoding Body Proof) (bnb : BnbRelayer) where
  -- The tables and the batches of both relayers are in order.
  abbrev pub InOrder : Program → Type 0
  InOrder p = Inv (btc_of p) × BnbInv encoding bnb (bnb_of p)

  -- A step of the program, of either relayer or a restart of the process with the initialisation of
  -- both sync points, refines a pair of ledgers, one of the deposits by txid and one of the wrapped
  -- deposits by chain and txid: from tables and batches that are in order they stay in order, and
  -- each of the two statuses stays, or was absent and becomes pending, or was pending and becomes
  -- another status.
  pub ProgramStep-Move :
      (act : ProgramAct Body Proof) (p q : Program) (txid chain event : String)
      → InOrder p
      → ProgramStep btcd keeper codec scanner submitter encoding bnb p q act
      → InOrder q
        × Move (status_of txid p.deposits) (status_of txid q.deposits)
        × Move (wrapped_status chain event p.wrapped) (wrapped_status chain event q.wrapped)
  ProgramStep-Move _ p q txid chain event (inv, bnb_inv) (btc_step act t step e) =
      let (after, move) =
        Step-Move btcd keeper codec scanner submitter act (btc_of p) t txid inv step in
      rw e ((after, record { queue = bnb_inv.queue; of_chain = bnb_inv.of_chain }), move, stay)
  ProgramStep-Move _ p q txid chain event (inv, bnb_inv) (bnb_step act t step e) =
      let (after, move) = BnbStep-Move encoding bnb act (bnb_of p) t chain event bnb_inv step in
      rw e ((inv, after), stay, move)
  ProgramStep-Move _ p q txid chain event (inv, bnb_inv)
        (restart between configs btc_init bnb_init e) =
      let (after, move) =
        Step-Move btcd keeper codec scanner submitter crashes (btc_of p)
          (record (btc_of p) { storing = none; batch = [] }) txid inv (crash refl) in
      let (bnb_after, bnb_move) =
        BnbStep-Move encoding bnb bnb_crashes (bnb_of p)
          (record (bnb_of p) { storing = none; batch = [] }) chain event bnb_inv (crash_bnb refl) in
      rw e
        ((after, record { queue = bnb_after.queue; of_chain = bnb_after.of_chain }), move, bnb_move)
