-- ===== src/Btc/Utils.antt =====
-- btc/utils.go: what a transaction pays to an address, and the identifier in its OP_RETURN output.
pub mod Payments
use lorenzo_btcstaking_submi.Base.{
  ℕ, suc, ◌+◌, String, str_eq, Bool, true, false, ◌&&◌, Option, none, some, List, [], ◌∷◌, Bytes,
  bytes_eq, length, leb, ◌==◌, add_u64, if◌then◌else◌, ◌>>=◌, Result, ok, err, message, Run, done,
  panicked, spinning, then_run,
}
use lorenzo_btcstaking_submi.Btc.Types.{
  TxOut, MsgTx, Params, main_net_params, test_net3_params, sig_net_params,
}

-- What the program uses of btcd's `txscript` and `btcutil`: `ParsePkScript`, `PkScript.Address`,
-- `Address.String`, `PayToAddrScript`, `DecodeAddress` and two opcodes.
pub record Btcd (PkScript Address : Type 0) : Type 0 where
  pub parse_pk_script : Bytes → Result PkScript
  pub address : PkScript → Params → Result Address
  pub address_string : Address → String
  pub pay_to_addr_script : Address → Result Bytes
  pub decode_address : String → Params → Result Address
  pub op_return : ℕ
  pub op_pushdata1 : ℕ

abbrev pub max_op_return_pk_script_size : ℕ
max_op_return_pk_script_size = 83

unfoldable pub get_btc_params : String → Params
get_btc_params net =
    if str_eq net "mainnet"
    then main_net_params
    else if str_eq net "testnet"
    then test_net3_params
    else sig_net_params

module _ {PkScript Address : Type 0} (btcd : Btcd PkScript Address) where
  -- The loop over the outputs.
  sum_payments : Bytes → List TxOut → ℕ → ℕ
  sum_payments script [] amt = amt
  sum_payments script (out ∷ outs) amt =
      sum_payments script outs
        (if bytes_eq out.pk_script script then add_u64 amt out.value else amt)

  -- fmt.Errorf("invalid address")
  unfoldable pub script_of : Address → Result Bytes
  script_of addr = elim (btcd.pay_to_addr_script addr) [
    | ok script ↦ ok script
    | err _ ↦ err (message "invalid address")
  ]

  unfoldable pub extract_payment_to : MsgTx → Address → Result ℕ
  unfolding script_of sum_payments
  extract_payment_to tx addr = do script ← script_of addr; ok (sum_payments script tx.tx_out 0)

  -- `pkScript[3:]` and `pkScript[2:]`, of a script that has two bytes and then `rest`. The first
  -- one panics when there is no third byte.
  drop_marker : ℕ → Bytes → Run (Option Bytes)
  drop_marker second [] = if second == btcd.op_pushdata1 then panicked else done (some [])
  drop_marker second (third ∷ rest) =
      if second == btcd.op_pushdata1 then done (some rest) else done (some (third ∷ rest))

  -- The identifier in one output's script, if it is an OP_RETURN script.
  op_return_id : Bytes → Run (Option Bytes)
  op_return_id (first ∷ second ∷ rest) =
      if leb (length (first ∷ second ∷ rest)) max_op_return_pk_script_size
        && first == btcd.op_return
      then drop_marker second rest
      else done none
  op_return_id _ = done none

  -- The loop over the outputs: the amount, and the identifier found last.
  scan_outputs : Bytes → List TxOut → ℕ → Option Bytes → Run (ℕ × Option Bytes)
  scan_outputs script [] amt id = done (amt, id)
  scan_outputs script (out ∷ outs) amt id = elim (bytes_eq out.pk_script script) [
    | true ↦ scan_outputs script outs (add_u64 amt out.value) id
    | false ↦ elim (op_return_id out.pk_script) [
      | done none ↦ scan_outputs script outs amt id
      | done (some found) ↦ scan_outputs script outs amt (some found)
      | panicked ↦ panicked
      | spinning ↦ spinning
    ]
  ]

  found_id : ℕ × Option Bytes → Run (Result (ℕ × Bytes))
  found_id (amt, none) = done (err (message "expected op_return_id not found"))
  found_id (amt, some id) = done (ok (amt, id))

  unfoldable pub extract_payment_to_with_op_return_id : MsgTx → Address → Run (Result (ℕ × Bytes))
  unfolding script_of scan_outputs op_return_id drop_marker found_id
  extract_payment_to_with_op_return_id tx addr = elim (script_of addr) [
    | err e ↦ done (err e)
    | ok script ↦ then_run (scan_outputs script tx.tx_out 0 none) found_id
  ]

  unfoldable pub must_decode_address : String → Params → Run Address
  must_decode_address addr params = elim (btcd.decode_address addr params) [
    | ok found ↦ done found
    | err _ ↦ panicked
  ]

-- `NewBTCTxFromBytes`, where `deserialize` is `MsgTx.Deserialize` of btcd.
pub new_btc_tx_from_bytes : (Bytes → Result MsgTx) → Bytes → Result MsgTx
new_btc_tx_from_bytes deserialize tx_bytes = do msg_tx ← deserialize tx_bytes; ok msg_tx
