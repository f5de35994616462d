-- ===== src/TxRelayer/Deposits/Values.antt =====
-- The value of a deposit in `getValidDepositTxs`, by either reader of btc/utils.go.
use lorenzo_btcstaking_submi.Base.{
  ℕ, ◌%◌, ◌≡◌, ◌≢◌, ◌⊎◌, refl, str_eq, eq_iff, false, none, some, arith, Bytes, some_of, Bool-cases,
  inl, inr, u64_mod, Result, ok, err, Error, message, done, then_run-done, Result-cases,
  Option-cases,
}
use lorenzo_btcstaking_submi.Btc.Types.{MsgTx}
use lorenzo_btcstaking_submi.Btc.Utils.{
  Btcd, extract_payment_to, extract_payment_to_with_op_return_id,
}
use lorenzo_btcstaking_submi.Btc.Utils.Payments.{
  paid, breaks, last_id, extract_payment_to-paid, extract_with_id-panicked, extract_with_id-last_id,
}
use lorenzo_btcstaking_submi.TxRelayer.Agents.{Agent}
use lorenzo_btcstaking_submi.TxRelayer.Deposits.{Scanner, drop_id, value_of}

drop_id-ok :
    (v : ℕ) (id : Bytes) (value : Result ℕ) → drop_id (ok (v, id)) ≡ done value → value ≡ ok v
unfolding drop_id
drop_id-ok v id value h = ground arith

drop_id-err : (e : Error) (value : Result ℕ) → drop_id (err e) ≡ done value → value ≡ err e
unfolding drop_id
drop_id-err e value h = ground arith

module _ {PkScript Address : Type 0} (btcd : Btcd PkScript Address) where
  -- The value is the sum of the payments, modulo 2^64.
  pub PaysScript : MsgTx → Address → ℕ → Type 0
  PaysScript tx addr v =
      (script : Bytes) × (btcd.pay_to_addr_script addr ≡ ok script)
      × (v ≡ paid script tx.tx_out % u64_mod)

  -- The same, with an output that carries an identifier, and none whose script is cut short.
  pub PaysWithId : MsgTx → Address → ℕ → Type 0
  PaysWithId tx addr v =
      (script : Bytes) × (id : Bytes) × (btcd.pay_to_addr_script addr ≡ ok script)
      × (some_of (breaks btcd script) tx.tx_out ≡ false)
      × (last_id btcd script tx.tx_out none ≡ some id)
      × (v ≡ paid script tx.tx_out % u64_mod)

  -- What the agent is paid: the sum of the payments, which an agent without an Ethereum address gets
  -- only with an identifier.
  pub IsPaid : MsgTx → Agent → Address → ℕ → Type 0
  IsPaid tx agent addr v =
      ((agent.eth_addr ≡ "") × PaysWithId tx addr v)
      ⊎ ((agent.eth_addr ≢ "") × PaysScript tx addr v)

  -- The address has no script, or the agent has no Ethereum address and no output carries an
  -- identifier.
  pub Unpayable : MsgTx → Agent → Address → Type 0
  Unpayable tx agent addr =
      ((e : Error) × (btcd.pay_to_addr_script addr ≡ err e))
      ⊎ ((agent.eth_addr ≡ "")
          × ((script : Bytes) × (btcd.pay_to_addr_script addr ≡ ok script)
              × (last_id btcd script tx.tx_out none ≡ none)))

  extract_payment_to-failed :
      (tx : MsgTx) (addr : Address) (e : Error)
      → btcd.pay_to_addr_script addr ≡ err e
      → extract_payment_to btcd tx addr ≡ err (message "invalid address")
  unfolding extract_payment_to
  extract_payment_to-failed tx addr e h = ground arith

  extract_with_id-cases :
      (tx : MsgTx) (addr : Address) (answer : Result (ℕ × Bytes))
      → extract_payment_to_with_op_return_id btcd tx addr ≡ done answer
      → ((v : ℕ) × (id : Bytes) × (answer ≡ ok (v, id)) × PaysWithId tx addr v)
        ⊎ ((e : Error) × (answer ≡ err e)
            × (((f : Error) × (btcd.pay_to_addr_script addr ≡ err f))
                ⊎ ((script : Bytes) × (btcd.pay_to_addr_script addr ≡ ok script)
                    × (last_id btcd script tx.tx_out none ≡ none))))
  unfolding PaysWithId extract_payment_to_with_op_return_id
  extract_with_id-cases tx addr answer h = elim (Result-cases (btcd.pay_to_addr_script addr)) [
    | inr (e, failed) ↦ inr (message "invalid address", ground arith, inl (e, failed))
    | inl (script, e) ↦ elim (Bool-cases (some_of (breaks btcd script) tx.tx_out)) [
      | inl broken ↦ cc (extract_with_id-panicked btcd tx addr script e broken)
      | inr whole ↦
          let reads = extract_with_id-last_id btcd tx addr script e whole in
          let amt = paid script tx.tx_out % u64_mod in
          elim (Option-cases (last_id btcd script tx.tx_out none)) [
            | inl lacks ↦
                inr
                  (message "expected op_return_id not found", ground arith, inr (script, e, lacks))
            | inr (id, has) ↦ inl (amt, id, ground arith, (script, id, e, whole, has, refl))
          ]
    ]
  ]

  -- A value is read exactly where the agent is paid.
  pub value_of-IsPaid :
      (r : Scanner) (tx : MsgTx) (agent : Agent) (addr : Address) (value : Result ℕ)
      → value_of btcd r tx agent addr ≡ done value
      → ((v : ℕ) × (value ≡ ok v) × IsPaid tx agent addr v)
        ⊎ ((e : Error) × (value ≡ err e) × Unpayable tx agent addr)
  unfolding value_of IsPaid Unpayable PaysScript
  value_of-IsPaid r tx agent addr value h = elim (Bool-cases (str_eq agent.eth_addr "")) [
    | inl by_id ↦
        let no_eth : agent.eth_addr ≡ "" = (eq_iff agent.eth_addr "").0 by_id in
        let (answer, got, rest) =
          then_run-done (extract_payment_to_with_op_return_id btcd tx addr) _ (rw by_id at h) in
        elim (extract_with_id-cases tx addr answer got) [
          | inl (v, id, e, pays) ↦ inl (v, drop_id-ok v id value (rw e at rest), inl (no_eth, pays))
          | inr (e, failed, inl none_to_pay) ↦
              inr (e, drop_id-err e value (rw failed at rest), inl none_to_pay)
          | inr (e, failed, inr lacks) ↦
              inr (e, drop_id-err e value (rw failed at rest), inr (no_eth, lacks))
        ]
    | inr direct ↦
        let eth : agent.eth_addr ≢ "" = ground (arith, eq_iff agent.eth_addr "") in
        elim (Result-cases (btcd.pay_to_addr_script addr)) [
          | inl (script, e) ↦
              let reads = extract_payment_to-paid btcd tx addr script e in
              inl (paid script tx.tx_out % u64_mod, ground arith, inr (eth, (script, e, refl)))
          | inr (e, failed) ↦
              let fails = extract_payment_to-failed tx addr e failed in
              inr (message "invalid address", ground arith, inl (e, failed))
        ]
  ]

  -- Where the agent is paid, the value is readable.
  pub IsPaid-payable :
      (tx : MsgTx) (agent : Agent) (addr : Address) (v : ℕ)
      → IsPaid tx agent addr v
      → ¬ (Unpayable tx agent addr)
  unfolding IsPaid Unpayable PaysScript PaysWithId
  IsPaid-payable tx agent addr v (inl (no_eth, (script, id, e, whole, has, amt)))
        (inl (f, failed)) =
      cc
  IsPaid-payable tx agent addr v (inl (no_eth, (script, id, e, whole, has, amt)))
        (inr (_, (other, f, lacks))) =
      let same : other ≡ script = ground arith in cc (rw same at lacks)
  IsPaid-payable tx agent addr v (inr (eth, (script, e, amt))) (inl (f, failed)) = cc
  IsPaid-payable tx agent addr v (inr (eth, (script, e, amt))) (inr (no_eth, _)) = eth no_eth
