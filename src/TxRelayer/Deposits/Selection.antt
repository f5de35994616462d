-- ===== src/TxRelayer/Deposits/Selection.antt =====
-- Which transactions of a block become deposits, and why the others do not.
use mathlib.Core.Path.{subst}
use mathlib.Core.List.{append-nil, append_assoc}
use lorenzo_btcstaking_submi.Base.{
  ℕ, ◌≡◌, ◌≢◌, ◌⊎◌, refl, ◌∙◌, ap, str_eq, eq_iff, Bool, true, false, not, Option, none, some, List,
  [], ◌∷◌, ◌++◌, arith, All, Bool-cases, inl, inr, done, then_run-done, Option-cases,
}
use lorenzo_btcstaking_submi.Btc.Types.{BtcTx, TxOut, MsgTx, MsgBlock}
use lorenzo_btcstaking_submi.Btc.Utils.{Btcd}
use lorenzo_btcstaking_submi.Db.Types.{BtcDepositTx}
use lorenzo_btcstaking_submi.TxRelayer.Agents.{Agent}
use lorenzo_btcstaking_submi.TxRelayer.Deposits.{
  Scanner, await_tx, sent_by_receiver, deposit_of, value_of, sender_check, take_or_leave,
  receiver_of, deposit_in, append_found, deposits_in, get_valid_deposit_txs,
}
use lorenzo_btcstaking_submi.TxRelayer.Deposits.Values.{
  IsPaid, Unpayable, IsPaid-payable, value_of-IsPaid,
}
use lorenzo_btcstaking_submi.TxRelayer.Deposits.Answers.{
  FirstAnswer, await_tx-done, FirstAnswer-unique,
}

module _ {PkScript Address : Type 0} (btcd : Btcd PkScript Address) (r : Scanner) where
  -- The first output to an agent pays this one, at this address.
  abbrev pub FirstReceiver : List TxOut → Agent → Address → Type 0
  FirstReceiver [] agent addr = ⊥
  FirstReceiver (out ∷ outs) agent addr =
      (receiver_of btcd r out ≡ some (agent, addr))
      ⊎ ((receiver_of btcd r out ≡ none) × FirstReceiver outs agent addr)

  -- There is one such agent.
  FirstReceiver-unique :
      (outs : List TxOut) (a b : Agent) (x y : Address)
      → FirstReceiver outs a x
      → FirstReceiver outs b y
      → ◌≡◌ {A = Agent × Address} (a, x) (b, y)
  FirstReceiver-unique [] a b x y first other = elim first [ ]
  FirstReceiver-unique (out ∷ outs) a b x y (inl e) (inl f) = ground arith
  FirstReceiver-unique (out ∷ outs) a b x y (inl e) (inr (f, _)) = cc
  FirstReceiver-unique (out ∷ outs) a b x y (inr (e, _)) (inl f) = cc
  FirstReceiver-unique (out ∷ outs) a b x y (inr (_, p)) (inr (_, q)) =
      FirstReceiver-unique outs a b x y p q

  -- Whether an input is a receiver's, by the first detail of the transaction that the explorer
  -- gives.
  abbrev pub Sender : MsgTx → Bool → Type 0
  Sender tx internal =
      (n : ℕ) × (detail : BtcTx) × FirstAnswer (λ k. r.get_tx k tx.tx_hash) 0 n detail
      × (sent_by_receiver r.agents detail.vin ≡ internal)

  -- A deposit row says what its transaction did.
  pub record Genuine (height : ℕ) (block : MsgBlock) (tx : MsgTx) (d : BtcDepositTx) : Type 0 where
    pub agent : Agent
    pub addr : Address
    pub first : FirstReceiver tx.tx_out agent addr
    pub pays : IsPaid btcd tx agent addr d.amount
    pub sender : (agent.eth_addr ≡ "") ⊎ ((agent.eth_addr ≢ "") × Sender tx false)
    pub row : d ≡ deposit_of height block tx agent d.amount

  -- Why a transaction is no deposit.
  pub data Passed (tx : MsgTx) : Type 0 where
    unpaid : All (λ out. receiver_of btcd r out ≡ none) tx.tx_out → Passed tx
    unread :
        (agent : Agent) (addr : Address)
        → FirstReceiver tx.tx_out agent addr
        → Unpayable btcd tx agent addr
        → Passed tx
    internal :
        (agent : Agent) (addr : Address)
        → FirstReceiver tx.tx_out agent addr
        → agent.eth_addr ≢ ""
        → Sender tx true
        → Passed tx

  FirstReceiver-paid :
      (outs : List TxOut) (agent : Agent) (addr : Address)
      → All (λ out. receiver_of btcd r out ≡ none) outs
      → ¬ (FirstReceiver outs agent addr)
  FirstReceiver-paid [] agent addr all first = elim first [ ]
  FirstReceiver-paid (out ∷ outs) agent addr (e, all) (inl paid) = cc
  FirstReceiver-paid (out ∷ outs) agent addr (e, all) (inr (_, first)) =
      FirstReceiver-paid outs agent addr all first

  Sender-unique : (tx : MsgTx) → Sender tx false → ¬ (Sender tx true)
  Sender-unique tx (n, one, first, e) (m, other, first', f) =
      let same = FirstAnswer-unique (λ k. r.get_tx k tx.tx_hash) n m one other first first' in
      cc (rw same at e)

  -- A transaction that is passed over has no row that could be genuine.
  Passed-not_Genuine :
      (height : ℕ) (block : MsgBlock) (tx : MsgTx)
      → Passed tx
      → (d : BtcDepositTx) → ¬ (Genuine height block tx d)
  Passed-not_Genuine height block tx (unpaid all) d g =
      FirstReceiver-paid tx.tx_out g.agent g.addr all g.first
  Passed-not_Genuine height block tx (unread agent addr first why) d g =
      let same = FirstReceiver-unique tx.tx_out agent g.agent addr g.addr first g.first in
      IsPaid-payable btcd tx g.agent g.addr d.amount g.pays
        (subst (λ p. Unpayable btcd tx p.0 p.1) same why)
  Passed-not_Genuine height block tx (internal agent addr first eth sent) d g =
      let same = FirstReceiver-unique tx.tx_out agent g.agent addr g.addr first g.first in
      elim g.sender [
        | inl no_eth ↦ eth (ap (λ p. p.0.eth_addr) same ∙ no_eth)
        | inr (_, other) ↦ Sender-unique tx other sent
      ]

  -- The rows are those of the genuine deposits, in the block's order, one for a transaction at
  -- most, and every other transaction has a reason to be passed over and could have no row.
  abbrev pub Selects : ℕ → MsgBlock → List MsgTx → List BtcDepositTx → Type 0
  Selects height block [] ds = ds ≡ []
  Selects height block (tx ∷ txs) ds =
      ((d : BtcDepositTx) × (rest : List BtcDepositTx) × (ds ≡ d ∷ rest)
        × Genuine height block tx d
        × Selects height block txs rest)
      ⊎ (Passed tx
          × ((d : BtcDepositTx) → ¬ (Genuine height block tx d))
          × Selects height block txs ds)

  module _ (height : ℕ) (block : MsgBlock) (tx : MsgTx) where
    deposit_in-FirstReceiver :
        (outs : List TxOut) (found : Option BtcDepositTx)
        → deposit_in btcd r height block tx outs ≡ done found
        → (All (λ out. receiver_of btcd r out ≡ none) outs × (found ≡ none))
          ⊎ ((agent : Agent) × (addr : Address) × FirstReceiver outs agent addr
              × (take_or_leave btcd r height block tx agent addr ≡ done found))
    unfolding deposit_in
    deposit_in-FirstReceiver [] found h = inl (tt, ground arith)
    deposit_in-FirstReceiver (out ∷ outs) found h = elim (Option-cases (receiver_of btcd r out)) [
      | inl pays_none ↦ elim (deposit_in-FirstReceiver outs found (ground arith)) [
        | inl (all, e) ↦ inl ((pays_none, all), e)
        | inr (agent, addr, first, e) ↦ inr (agent, addr, inr (pays_none, first), e)
      ]
      | inr ((agent, addr), paid) ↦ inr (agent, addr, inl paid, ground arith)
    ]

    sender_check-Sender :
        (agent : Agent) (passes : Bool)
        → sender_check btcd r tx agent ≡ done passes
        → ((agent.eth_addr ≡ "") × (passes ≡ true))
          ⊎ ((agent.eth_addr ≢ "") × Sender tx (not passes))
    unfolding sender_check
    sender_check-Sender agent passes h = elim (Bool-cases (str_eq agent.eth_addr "")) [
      | inl same ↦ inl ((eq_iff agent.eth_addr "").0 same, ground arith)
      | inr other ↦
          let ask = λ (n : ℕ). r.get_tx n tx.tx_hash in
          let (detail, got, e) =
            then_run-done (await_tx r.patience ask 0) _ (rw (other, sender_check) at h) in
          let (n, answered) = await_tx-done r.patience ask 0 detail got in
          let eth : agent.eth_addr ≢ "" = ground (arith, eq_iff agent.eth_addr "") in
          inr (eth, (n, detail, answered, ground arith))
    ]

    clear :
        (agent : Agent) (passes : Bool)
        → passes ≡ true
        → ((agent.eth_addr ≡ "") × (passes ≡ true))
          ⊎ ((agent.eth_addr ≢ "") × Sender tx (not passes))
        → (agent.eth_addr ≡ "") ⊎ ((agent.eth_addr ≢ "") × Sender tx false)
    clear agent passes pass (inl (same, _)) = inl same
    clear agent passes pass (inr (other, s)) = inr (other, subst (λ b. Sender tx (not b)) pass s)

    blocked :
        (agent : Agent) (addr : Address) (passes : Bool)
        → FirstReceiver tx.tx_out agent addr
        → passes ≡ false
        → ((agent.eth_addr ≡ "") × (passes ≡ true))
          ⊎ ((agent.eth_addr ≢ "") × Sender tx (not passes))
        → Passed tx
    blocked agent addr passes first stop (inl (_, pass)) = cc
    blocked agent addr passes first stop (inr (other, s)) =
        internal agent addr first other (subst (λ b. Sender tx (not b)) stop s)

    take_or_leave-Genuine :
        (agent : Agent) (addr : Address) (found : Option BtcDepositTx)
        → FirstReceiver tx.tx_out agent addr
        → take_or_leave btcd r height block tx agent addr ≡ done found
        → ((d : BtcDepositTx) × (found ≡ some d) × Genuine height block tx d)
          ⊎ ((found ≡ none) × Passed tx)
    unfolding take_or_leave deposit_of
    take_or_leave-Genuine agent addr found first h =
        let (value, got, rest) = then_run-done (value_of btcd r tx agent addr) _ h in
        elim (value_of-IsPaid btcd r tx agent addr value got) [
          | inr (e, failed, why) ↦ inr (ground arith, unread agent addr first why)
          | inl (v, e, pays) ↦
              let (passes, checked, out) =
                then_run-done (sender_check btcd r tx agent) _ (rw e at rest) in
              let d = deposit_of height block tx agent v in
              elim (Bool-cases passes) [
                | inl pass ↦ inl (
                  d,
                  ground arith,
                  record {
                    agent = agent;
                    addr = addr;
                    first = first;
                    pays = pays;
                    sender = clear agent passes pass (sender_check-Sender agent passes checked);
                    row = refl;
                  },
                )
                | inr stop ↦ inr (
                  ground arith,
                  blocked agent addr passes first stop (sender_check-Sender agent passes checked),
                )
              ]
        ]

    deposit_in-Genuine :
        (found : Option BtcDepositTx)
        → deposit_in btcd r height block tx tx.tx_out ≡ done found
        → ((d : BtcDepositTx) × (found ≡ some d) × Genuine height block tx d)
          ⊎ ((found ≡ none) × Passed tx)
    deposit_in-Genuine found h = elim (deposit_in-FirstReceiver tx.tx_out found h) [
      | inl (all, e) ↦ inr (e, unpaid all)
      | inr (agent, addr, first, e) ↦ take_or_leave-Genuine agent addr found first e
    ]

  module _ (height : ℕ) (block : MsgBlock) where
    deposits_in-Selects :
        (txs : List MsgTx) (found ds : List BtcDepositTx)
        → deposits_in btcd r height block txs found ≡ done ds
        → (new : List BtcDepositTx) × (ds ≡ found ++ new) × Selects height block txs new
    unfolding deposits_in append_found
    deposits_in-Selects [] found ds h = ([], ground (arith, append-nil found), refl)
    deposits_in-Selects (tx ∷ txs) found ds h =
        let (deposit, e, rest) = then_run-done (deposit_in btcd r height block tx tx.tx_out) _ h in
        let (new, all, selects) = deposits_in-Selects txs (append_found found deposit) ds rest in
        elim (deposit_in-Genuine height block tx deposit e) [
          | inl (d, one, genuine) ↦ (
            d ∷ new,
            ground (arith, append_assoc found (d ∷ []) new),
            inl (d, new, refl, genuine, selects),
          )
          | inr (no_one, passed) ↦
              (new, ground arith, inr (passed, Passed-not_Genuine height block tx passed, selects))
        ]

    -- When the scan of a block returns, its rows are exactly those of the transactions that
    -- qualify, in the order of the block. Each row is of a transaction whose first output to an
    -- agent names that agent; the agent's address has a script, the amount is the sum of the
    -- payments to that script modulo 2^64, and the row is pending; an agent without an Ethereum
    -- address gets it only with an identifier in another output and no output that is cut short,
    -- and for an agent with one no input is a receiver's, by the first detail that the explorer
    -- gives. A transaction without a row could have no such row: it pays no agent, the agent's
    -- address has no script, the agent has no Ethereum address and no output carries an identifier,
    -- or the agent has one and an input is a receiver's.
    pub get_valid_deposit_txs-Selects :
        (ds : List BtcDepositTx)
        → get_valid_deposit_txs btcd r height block ≡ done ds
        → Selects height block block.transactions ds
    unfolding get_valid_deposit_txs
    get_valid_deposit_txs-Selects ds h =
        let (new, e, selects) = deposits_in-Selects block.transactions [] ds h in rw e selects
