-- ===== src/TxRelayer/Deposits/Answers.antt =====
-- The loop of `getValidDepositTxs` that asks for a transaction until the explorer answers.
use native.Mathlib.Decide.{dec_le, dec_lt}
use lorenzo_btcstaking_submi.Base.{
  ℕ, zero, suc, ◌≤◌, ◌<◌, ◌≡◌, sym, ◌∙◌, ap, arith, inl, inr, Result, ok, err, Error, done,
  Result-cases,
}
use lorenzo_btcstaking_submi.Btc.Types.{BtcTx}
use lorenzo_btcstaking_submi.TxRelayer.Deposits.{await_tx}

-- From request `low` on, request `n` is the first that is answered, with this detail.
abbrev pub FirstAnswer : (ℕ → Result BtcTx) → ℕ → ℕ → BtcTx → Type 0
FirstAnswer get_tx low n detail =
    (low ≤ n)
    × (get_tx n ≡ ok detail)
    × ((k : ℕ) → low ≤ k → k < n → (e : Error) × (get_tx k ≡ err e))

-- A detail that the loop returns is the first answer to its requests.
pub await_tx-done :
    (fuel : ℕ) (get_tx : ℕ → Result BtcTx) (tries : ℕ) (detail : BtcTx)
    → await_tx fuel get_tx tries ≡ done detail
    → (n : ℕ) × FirstAnswer get_tx tries n detail
unfolding await_tx
await_tx-done zero get_tx tries detail h = cc
await_tx-done (suc fuel) get_tx tries detail h = elim (Result-cases (get_tx tries)) [
  | inl (found, e) ↦ (tries, (omega arith, ground arith, λ k low high. absurd (omega arith)))
  | inr (e, failed) ↦
      let (n, (low, got, before)) = await_tx-done fuel get_tx (suc tries) detail (ground arith) in
      (
        n,
        (
          omega arith,
          got,
          λ k from below. elim (dec_le (suc tries) k) [
            | yes later ↦ before k later below
            | no now ↦ let same : tries ≡ k = omega arith in (e, ap get_tx (sym same) ∙ failed)
          ],
        ),
      )
]

-- There is one first answer.
pub FirstAnswer-unique :
    (get_tx : ℕ → Result BtcTx) (n m : ℕ) (one other : BtcTx)
    → FirstAnswer get_tx 0 n one
    → FirstAnswer get_tx 0 m other
    → one ≡ other
FirstAnswer-unique get_tx n m one other (_, got, before) (_, got', before') = elim (dec_lt n m) [
  | yes earlier ↦ let (e, failed) = before' n (omega arith) earlier in cc
  | no late ↦ elim (dec_lt m n) [
    | yes later ↦ let (e, failed) = before m (omega arith) later in cc
    | no same ↦ let e : n ≡ m = omega arith in ground arith
  ]
]
