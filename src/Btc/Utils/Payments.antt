-- ===== src/Btc/Utils/Payments.antt =====
-- What the two payment readers return, against a plain description of the outputs.
use lorenzo_btcstaking_submi.Base.{
  ◌≢◌, inl, inr, Bool-cases, Result-cases, spinning, ℕ, ◌+◌, ◌%◌, ◌<◌, ◌≡◌, refl, Bool, true, false,
  not, ◌&&◌, Option, none, some, List, [], ◌∷◌, arith, Bytes, bytes_eq, length, drop, some_of, leb,
  ◌==◌, u64_mod, add_u64, if◌then◌else◌, Result, ok, err, message, done, panicked,
}
use lorenzo_btcstaking_submi.Btc.Types.{TxOut, MsgTx}
use lorenzo_btcstaking_submi.Btc.Utils.{
  Btcd, max_op_return_pk_script_size, sum_payments, extract_payment_to, op_return_id, drop_marker,
  scan_outputs, extract_payment_to_with_op_return_id,
}

-- The exact sum of the outputs that carry the script.
pub paid : Bytes → List TxOut → ℕ
paid script [] = 0
paid script (out ∷ outs) =
    (if bytes_eq out.pk_script script then out.value else 0) + paid script outs

module _ {PkScript Address : Type 0} (btcd : Btcd PkScript Address) where
  sum_payments-paid :
      (script : Bytes) (outs : List TxOut) (amt : ℕ)
      → amt < u64_mod
      → sum_payments btcd script outs amt ≡ (amt + paid script outs) % u64_mod
  unfolding sum_payments paid add_u64
  sum_payments-paid script [] amt h = omega arith
  sum_payments-paid script (out ∷ outs) amt h = ground (
    arith,
    sum_payments-paid script outs ((amt + out.value) % u64_mod),
    sum_payments-paid script outs amt,
  )

  -- For an address with a script, ExtractPaymentTo is the sum of the outputs that carry exactly
  -- this script, modulo 2^64.
  pub extract_payment_to-paid :
      (tx : MsgTx) (addr : Address) (script : Bytes)
      → btcd.pay_to_addr_script addr ≡ ok script
      → extract_payment_to btcd tx addr ≡ ok (paid script tx.tx_out % u64_mod)
  unfolding extract_payment_to
  extract_payment_to-paid tx addr script h = ground (arith, sum_payments-paid script tx.tx_out 0)

  -- OP_RETURN OP_PUSHDATA1, and nothing more.
  unfoldable pub truncated : Bytes → Bool
  truncated (first ∷ second ∷ []) = first == btcd.op_return && second == btcd.op_pushdata1
  truncated _ = false

  -- OP_RETURN and at least one byte more, of 83 bytes at most.
  pub marked : Bytes → Bool
  marked (first ∷ second ∷ rest) =
      first == btcd.op_return && leb (length (first ∷ second ∷ rest)) max_op_return_pk_script_size
  marked _ = false

  -- What follows the opcodes and the length byte.
  pub payload : Bytes → Bytes
  payload (first ∷ second ∷ rest) = if second == btcd.op_pushdata1 then drop 1 rest else rest
  payload _ = []

  -- The output is not the payment, and has a truncated script.
  abbrev pub breaks : Bytes → TxOut → Bool
  breaks script out = not (bytes_eq out.pk_script script) && truncated out.pk_script

  -- The output is not the payment, and has an OP_RETURN script.
  abbrev pub identifies : Bytes → TxOut → Bool
  identifies script out = not (bytes_eq out.pk_script script) && marked out.pk_script

  -- The identifier of the last output that has one, or else `id`.
  pub last_id : Bytes → List TxOut → Option Bytes → Option Bytes
  last_id script [] id = id
  last_id script (out ∷ outs) id =
      last_id script outs (if identifies script out then some (payload out.pk_script) else id)

  op_return_id-truncated : (s : Bytes) → truncated s ≡ true → op_return_id btcd s ≡ panicked
  unfolding op_return_id drop_marker truncated
  op_return_id-truncated [] h = cc
  op_return_id-truncated (first ∷ []) h = cc
  op_return_id-truncated (first ∷ second ∷ []) h = ground arith
  op_return_id-truncated (first ∷ second ∷ third ∷ rest) h = cc

  op_return_id-marked :
      (s : Bytes)
      → truncated s ≡ false
      → op_return_id btcd s ≡ done (if marked s then some (payload s) else none)
  unfolding op_return_id drop_marker truncated marked payload
  op_return_id-marked [] h = refl
  op_return_id-marked (first ∷ []) h = refl
  op_return_id-marked (first ∷ second ∷ []) h = ground arith
  op_return_id-marked (first ∷ second ∷ third ∷ rest) h = ground arith

  scan_outputs-panicked :
      (script : Bytes) (outs : List TxOut) (amt : ℕ) (id : Option Bytes)
      → some_of (breaks script) outs ≡ true
      → scan_outputs btcd script outs amt id ≡ panicked
  unfolding scan_outputs
  scan_outputs-panicked script [] amt id h = cc
  scan_outputs-panicked script (out ∷ outs) amt id h = ground (
    arith,
    op_return_id-truncated out.pk_script,
    op_return_id-marked out.pk_script,
    scan_outputs-panicked script outs (add_u64 amt out.value) id,
    scan_outputs-panicked script outs amt id,
    scan_outputs-panicked script outs amt (some (payload out.pk_script)),
  )

  scan_outputs-last_id :
      (script : Bytes) (outs : List TxOut) (amt : ℕ) (id : Option Bytes)
      → some_of (breaks script) outs ≡ false
      → scan_outputs btcd script outs amt id
        ≡ done (sum_payments btcd script outs amt, last_id script outs id)
  unfolding scan_outputs sum_payments last_id
  scan_outputs-last_id script [] amt id h = refl
  scan_outputs-last_id script (out ∷ outs) amt id h = ground (
    arith,
    op_return_id-marked out.pk_script,
    scan_outputs-last_id script outs (add_u64 amt out.value) id,
    scan_outputs-last_id script outs amt id,
    scan_outputs-last_id script outs amt (some (payload out.pk_script)),
  )

  abbrev pub with_id : ℕ → Option Bytes → Result (ℕ × Bytes)
  with_id amt none = err (message "expected op_return_id not found")
  with_id amt (some id) = ok (amt, id)

  module _ (tx : MsgTx) (addr : Address) (script : Bytes)
      (pays : btcd.pay_to_addr_script addr ≡ ok script) where
    -- For an address with a script, the process dies on a transaction that has, beside its
    -- payments, an output whose script is exactly OP_RETURN OP_PUSHDATA1: the slice pkScript[3:] is
    -- out of range.
    pub extract_with_id-panicked :
        some_of (breaks script) tx.tx_out ≡ true
        → extract_payment_to_with_op_return_id btcd tx addr ≡ panicked
    unfolding extract_payment_to_with_op_return_id
    extract_with_id-panicked h = ground (arith, scan_outputs-panicked script tx.tx_out 0 none)

    -- For an address with a script, and where no output beside the payments has exactly the script
    -- OP_RETURN OP_PUSHDATA1, the call returns: the payments modulo 2^64 with the payload of the
    -- last other output whose script is OP_RETURN and at least one byte more, 83 bytes at most, or
    -- an error if there is no such output.
    pub extract_with_id-last_id :
        some_of (breaks script) tx.tx_out ≡ false
        → extract_payment_to_with_op_return_id btcd tx addr
          ≡ done (with_id (paid script tx.tx_out % u64_mod) (last_id script tx.tx_out none))
    unfolding extract_payment_to_with_op_return_id
    extract_with_id-last_id h =
        ground (
          arith,
          scan_outputs-last_id script tx.tx_out 0 none,
          sum_payments-paid script tx.tx_out 0,
        )

  pub extract_with_id-returns :
      (tx : MsgTx) (addr : Address) → extract_payment_to_with_op_return_id btcd tx addr ≢ spinning
  unfolding extract_payment_to_with_op_return_id
  extract_with_id-returns tx addr h = elim (Result-cases (btcd.pay_to_addr_script addr)) [
    | inr (e, failed) ↦ ground arith
    | inl (script, pays) ↦ elim (Bool-cases (some_of (breaks script) tx.tx_out)) [
      | inl broken ↦ ground (arith, scan_outputs-panicked script tx.tx_out 0 none)
      | inr whole ↦ ground (
        arith,
        scan_outputs-last_id script tx.tx_out 0 none,
        sum_payments-paid script tx.tx_out 0,
      )
    ]
  ]
