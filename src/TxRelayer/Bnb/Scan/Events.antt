-- ===== src/TxRelayer/Bnb/Scan/Events.antt =====
-- The BNB scanner with the client of bnbclient: from the events of the stake plan to rows.
use mathlib.Core.Path.{subst}
use mathlib.Core.Bool.{Bool-set}
use mathlib.Core.Logic.Or
use mathlib.Core.List.{Mem, Perm, mem-cons, not-mem-nil}
use lorenzo_btcstaking_submi.Base.{
  ℕ, ◌+◌, ◌*◌, ◌≤◌, ◌<◌, ◌≡◌, ◌∙◌, ap, inl, inr, true, String, Option, List, [], ◌∷◌, map, arith,
  length, u64_mod, some_of, All, Has, Bytes, Result, ok, Result-cases, done,
}
use lorenzo_btcstaking_submi.Db.Types.{WrappedBtcDepositTx}
use lorenzo_btcstaking_submi.Db.Insertion.{Covers}
use lorenzo_btcstaking_submi.Db.BnbRepository.{with_chain_txid}
use lorenzo_btcstaking_submi.Db.BnbRepository.Deposits.{same_chain_txid}
use lorenzo_btcstaking_submi.BnbTypes.Header.{Header}
use lorenzo_btcstaking_submi.BnbClient.{Lru, IsFaithfulLru}
use lorenzo_btcstaking_submi.BnbClient.Headers.{Keyed}
use lorenzo_btcstaking_submi.BnbClient.StakePlan.{
  StakePlanEvent, Log, FilterQuery, Ethereum, Node, Caches, get_stake_plan_events,
  get_receipts_with_proof,
}
use lorenzo_btcstaking_submi.BnbClient.StakePlan.Proofs.{get_receipts_with_proof-Proven}
use lorenzo_btcstaking_submi.TxRelayer.Bnb.{
  Receipt, ReceiptWithProof, Encoding, BnbRelayer, wrapped_of, to_wrapped_list,
}
use lorenzo_btcstaking_submi.TxRelayer.Bnb.Scan.{WindowEnv, WrappedState, scan_loop}
use lorenzo_btcstaking_submi.TxRelayer.Bnb.Scan.Windows.{IsLawfulWindow, bnb_point_of}
use lorenzo_btcstaking_submi.TxRelayer.Bnb.Scan.NoGaps.{scan_loop-Covers}

module _ {Body Proof ReceiptStore HeaderStore : Type 0}
    (receipt_lru : Lru (Option (List (Receipt Body))) ReceiptStore)
    (header_lru : Lru (Option Header) HeaderStore) (hash_of : Option Header → String)
    (transaction_index : Receipt Body → ℕ)
    (gen_receipt_proof : ℕ → Bytes → List (Receipt Body) → Result Proof)
    (Entry : HeaderStore → String → Option Header → Type 0)
    (faithful : IsFaithfulLru header_lru Entry) (ethereum : Ethereum)
    (encoding : Encoding Body Proof) (r : BnbRelayer) where
  -- What the client of a round answers is what `GetStakeBTC2JoinStakePlanReceiptsWithProof` gives,
  -- with a node, an order of the set and caches of that round.
  pub record Implements (env : WindowEnv Body Proof) : Type 0 where
    pub filter_logs : FilterQuery → Result (List Log)
    pub node : ℕ → Node Body
    pub order : List (String × String) → List (String × String)
    pub reorders : (entries : List (String × String)) → Perm (order entries) entries
    pub caches : Caches receipt_lru header_lru hash_of transaction_index gen_receipt_proof
    pub keyed : Keyed header_lru hash_of Entry faithful caches.headers
    pub runs :
        (start stop : ℕ) (list : List (ReceiptWithProof Body Proof))
        → env.client.receipts_with_proof r.plan_stake_hub_address start stop ≡ ok list
        → (after : Caches receipt_lru header_lru hash_of transaction_index gen_receipt_proof)
          × (get_receipts_with_proof receipt_lru header_lru hash_of transaction_index
                gen_receipt_proof ethereum filter_logs order node r.plan_stake_hub_address start
                stop caches
              ≡ done (ok list, after))

  rows_of :
      (list : List (ReceiptWithProof Body Proof)) (txs rows : List WrappedBtcDepositTx)
      (txid : String)
      → to_wrapped_list encoding r list ≡ ok txs
      → Covers same_chain_txid rows txs
      → Mem txid (map (λ f. f.receipt.tx_hash) list)
      → some_of (with_chain_txid r.chain_name txid) rows ≡ true
  unfolding to_wrapped_list wrapped_of
  rows_of [] txs rows txid h covers m = absurd (not-mem-nil m)
  rows_of (f ∷ list) txs rows txid h covers m =
      elim (Result-cases (encoding.encode_receipt f.receipt)) [
        | inr (e, failed) ↦ absurd (ground arith)
        | inl (receipt_raw, receipt) ↦ elim (Result-cases (encoding.encode_proof f.proof)) [
          | inr (e, failed) ↦ absurd (ground arith)
          | inl (proof_raw, proof) ↦ elim (Result-cases (to_wrapped_list encoding r list)) [
            | inr (e, failed) ↦ absurd (ground arith)
            | inl (rest, more) ↦
                let e : txs ≡ wrapped_of encoding r f receipt_raw proof_raw ∷ rest = ground arith in
                let (first, others) = subst (Covers same_chain_txid rows) e covers in
                Or.elim (Bool-set _ _) (mem-cons.0 m)
                  (λ same. ap (λ t. some_of (with_chain_txid r.chain_name t) rows) same ∙ first)
                  (rows_of list rest rows txid more others)
          ]
        ]
      ]

  -- Every event has a row of the chain with its transaction.
  abbrev pub Recorded : List WrappedBtcDepositTx → List StakePlanEvent → Type 0
  Recorded rows events =
      All (λ e. some_of (with_chain_txid r.chain_name e.tx_hash) rows ≡ true) events

  recorded :
      (events : List StakePlanEvent) (list : List (ReceiptWithProof Body Proof))
      (txs rows : List WrappedBtcDepositTx)
      → to_wrapped_list encoding r list ≡ ok txs
      → Covers same_chain_txid rows txs
      → All (λ e. Mem e.tx_hash (map (λ f. f.receipt.tx_hash) list)) events
      → Recorded rows events
  recorded [] list txs rows h covers all = tt
  recorded (e ∷ events) list txs rows h covers (m, all) =
      (rows_of list txs rows e.tx_hash h covers m, recorded events list txs rows h covers all)

  -- No stake plan event is missed: with databases that obey their laws in every round, clients that
  -- answer as GetStakeBTC2JoinStakePlanReceiptsWithProof does, a sync point that starts at some
  -- height and no overflow, for every height that the sync point has passed there is a round with a
  -- window that holds the height and has its confirmations, whose events were listed, and the
  -- transaction of each of these events has a row of the chain in the table.
  pub scan_loop-Recorded :
      (envs : List (WindowEnv Body Proof)) (point reached height : ℕ) (s : WrappedState)
      → All IsLawfulWindow envs
      → (implemented : (env : WindowEnv Body Proof) → Has (λ e. e ≡ env) envs → Implements env)
      → bnb_point_of s ≡ ok point
      → point + 1000 * length envs + 1001 + r.delay_blocks < u64_mod
      → bnb_point_of (scan_loop encoding r envs s) ≡ ok reached
      → point < height
      → height ≤ reached
      → (env : WindowEnv Body Proof) × (place : Has (λ e. e ≡ env) envs) × (start stop : ℕ)
        × (events : List StakePlanEvent) × (start ≤ height)
        × (height ≤ stop)
        × (stop + r.delay_blocks ≤ env.client.block_number.0)
        × (get_stake_plan_events ethereum
              (implemented env place).filter_logs
              r.plan_stake_hub_address
              start
              stop
            ≡ done (ok events))
        × Recorded (scan_loop encoding r envs s).wrapped events
  scan_loop-Recorded envs point reached height s lawful implemented at_point fits ends above below =
      let (env, start, stop, txs, place, lo, hi, (list, deep, read, made), covers) =
        scan_loop-Covers encoding r envs point reached height s lawful at_point fits ends above
          below in
      let i = implemented env place in
      let (after, run) = i.runs start stop list read in
      let (events, listed, all, _, _, _) =
        get_receipts_with_proof-Proven receipt_lru header_lru hash_of transaction_index
          gen_receipt_proof Entry faithful ethereum i.filter_logs i.order i.node
          r.plan_stake_hub_address start stop i.caches after list i.reorders i.keyed run in
      (
        env,
        place,
        start,
        stop,
        events,
        lo,
        hi,
        deep,
        listed,
        recorded events list txs (scan_loop encoding r envs s).wrapped made covers all,
      )
