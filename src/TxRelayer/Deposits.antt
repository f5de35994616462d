-- ===== src/TxRelayer/Deposits.antt =====
-- `getValidDepositTxs`: the deposits among the transactions of a block.
pub mod Values
pub mod Selection
pub mod Answers
pub mod Progress
pub mod Pending
use lorenzo_btcstaking_submi.Base.{
  ℕ, zero, suc, String, str_eq, Bool, true, false, not, Option, none, some, List, [], ◌∷◌, ◌++◌,
  Bytes, if◌then◌else◌, Result, ok, err, Run, done, panicked, spinning, then_run,
}
use lorenzo_btcstaking_submi.Btc.Types.{Vin, BtcTx, TxOut, MsgTx, MsgBlock, Params}
use lorenzo_btcstaking_submi.Btc.Utils.{
  Btcd, extract_payment_to, extract_payment_to_with_op_return_id,
}
use lorenzo_btcstaking_submi.Db.Types.{BtcDepositTx, status_pending}
use lorenzo_btcstaking_submi.TxRelayer.Agents.{
  Agent, get_agent_by_address, is_valid_deposit_receiver,
}

-- What a scan of one block uses: the agents and the network of the relayer, and the block
-- explorer's answers to the successive requests for a transaction's detail (`r.btcQuery.GetTx`),
-- of which it makes as many as it must.
pub record Scanner : Type 0 where
  pub agents : List Agent
  pub btc_param : Params
  pub get_tx : ℕ → String → Result BtcTx
  pub patience : ℕ

-- The loop that asks for the detail until it gets it; `tries` were made.
pub await_tx : ℕ → (ℕ → Result BtcTx) → ℕ → Run BtcTx
await_tx zero get_tx tries = spinning
await_tx (suc fuel) get_tx tries = elim (get_tx tries) [
  | ok detail ↦ done detail
  | err _ ↦ await_tx fuel get_tx (suc tries)
]

-- `value, _, err = …`
drop_id : Result (ℕ × Bytes) → Run (Result ℕ)
drop_id (ok (value, id)) = done (ok value)
drop_id (err e) = done (err e)

-- Some input was paid from a receiver's address.
pub sent_by_receiver : List Agent → List Vin → Bool
sent_by_receiver agents [] = false
sent_by_receiver agents (vin ∷ vins) =
    if is_valid_deposit_receiver agents vin.prevout.script_pub_key_address
    then true
    else sent_by_receiver agents vins

pub deposit_of : ℕ → MsgBlock → MsgTx → Agent → ℕ → BtcDepositTx
deposit_of block_height block tx agent value = record {
  agent_id = agent.id;
  receiver_name = agent.name;
  receiver_address = agent.btc_receiving_address;
  amount = value;
  txid = tx.tx_hash;
  height = block_height;
  block_hash = block.block_hash;
  block_time = block.timestamp;
  status = status_pending;
}

append_found : List BtcDepositTx → Option BtcDepositTx → List BtcDepositTx
append_found found none = found
append_found found (some deposit) = found ++ deposit ∷ []

module _ {PkScript Address : Type 0} (btcd : Btcd PkScript Address) (r : Scanner) where
  -- Pick only one of the two ways to read the value.
  pub value_of : MsgTx → Agent → Address → Run (Result ℕ)
  value_of tx agent addr =
      if str_eq agent.eth_addr ""
      then then_run (extract_payment_to_with_op_return_id btcd tx addr) drop_id
      else done (extract_payment_to btcd tx addr)

  -- Whether the inputs let the transaction pass.
  sender_check : MsgTx → Agent → Run Bool
  sender_check tx agent = elim (str_eq agent.eth_addr "") [
    | true ↦ done true
    | false ↦
        then_run (await_tx r.patience (λ n. r.get_tx n tx.tx_hash) 0)
          (λ detail. done (not (sent_by_receiver r.agents detail.vin)))
  ]

  -- From the first output to an agent on, the transaction is taken or left.
  take_or_leave : ℕ → MsgBlock → MsgTx → Agent → Address → Run (Option BtcDepositTx)
  take_or_leave block_height block tx agent addr = then_run (value_of tx agent addr) (λ found.
      elim found [
        | err _ ↦ done none
        | ok value ↦ then_run (sender_check tx agent) (λ passes.
            done (if passes then some (deposit_of block_height block tx agent value) else none))
      ])

  -- The agent and the address that an output pays, if it pays one.
  pub receiver_of : TxOut → Option (Agent × Address)
  receiver_of out = elim (btcd.parse_pk_script out.pk_script) [
    | err _ ↦ none
    | ok pk_script ↦ elim (btcd.address pk_script r.btc_param) [
      | err _ ↦ none
      | ok addr ↦ elim (get_agent_by_address r.agents (btcd.address_string addr)) [
        | none ↦ none
        | some agent ↦ some (agent, addr)
      ]
    ]
  ]

  -- The loop over the outputs.
  deposit_in : ℕ → MsgBlock → MsgTx → List TxOut → Run (Option BtcDepositTx)
  deposit_in block_height block tx [] = done none
  deposit_in block_height block tx (out ∷ outs) = elim (receiver_of out) [
    | none ↦ deposit_in block_height block tx outs
    | some (agent, addr) ↦ take_or_leave block_height block tx agent addr
  ]

  -- The loop over the transactions.
  pub deposits_in : ℕ → MsgBlock → List MsgTx → List BtcDepositTx → Run (List BtcDepositTx)
  deposits_in block_height block [] found = done found
  deposits_in block_height block (tx ∷ txs) found =
      then_run (deposit_in block_height block tx tx.tx_out)
        (λ deposit. deposits_in block_height block txs (append_found found deposit))

  unfoldable pub get_valid_deposit_txs : ℕ → MsgBlock → Run (List BtcDepositTx)
  unfolding deposits_in deposit_in append_found take_or_leave sender_check value_of deposit_of
      receiver_of await_tx sent_by_receiver drop_id
  get_valid_deposit_txs block_height block = deposits_in block_height block block.transactions []
