-- ===== src/TxRelayer/Submit/Waiting.antt =====
-- The deposits that wait, and a pass of `submitLoop` of txrelayer/tx_relayer.go.
use mathlib.Core.Path.{subst}
use mathlib.Core.List.{Mem, Mem-prop, mem-cons, mem-cons_self, not-mem-nil}
use mathlib.Core.Logic.Or
use lorenzo_btcstaking_submi.Base.{
  ℕ, ◌≤◌, ◌<◌, ◌≡◌, ◌≢◌, refl, sym, ap, inl, inr, String, str_eq, eq_iff, true, false, List, [],
  ◌∷◌, arith, All, Each, keep, length, some_of, Bool-cases,
}
use lorenzo_btcstaking_submi.Btc.Network.{Codec}
use lorenzo_btcstaking_submi.Db.Types.{BtcDepositTx, status_pending}
use lorenzo_btcstaking_submi.Db.Insertion.{Distinct}
use lorenzo_btcstaking_submi.Db.Queue.Ledger.{status_where}
use lorenzo_btcstaking_submi.Db.Queue.Settled.{IsSettled}
use lorenzo_btcstaking_submi.Db.Queue.Rows.{unique_row}
use lorenzo_btcstaking_submi.Db.BtcRepository.{is_unhandled}
use lorenzo_btcstaking_submi.Db.BtcRepository.Columns.{
  btc_columns, btc_columns-IsColumns, unhandled-pending,
}
use lorenzo_btcstaking_submi.Db.BtcRepository.Deposits.{same_txid}
use lorenzo_btcstaking_submi.TxRelayer.Lorenzo.{Keeper}
use lorenzo_btcstaking_submi.TxRelayer.Submit.{Submitter, SubmitEnv}
use lorenzo_btcstaking_submi.TxRelayer.Submit.Marks.{Justified-ne-pending}
use lorenzo_btcstaking_submi.TxRelayer.Submit.Final.{Progress}

-- How many rows wait.
abbrev pub waiting : ℕ → List BtcDepositTx → ℕ
waiting tip rows = length (keep (is_unhandled tip) rows)

settled_row :
    (tip : ℕ) (row : BtcDepositTx) → row.status ≢ status_pending → is_unhandled tip row ≡ false
settled_row tip row final = elim (Bool-cases (is_unhandled tip row)) [
  | inl waits ↦ absurd (final (unhandled-pending tip row waits))
  | inr done ↦ done
]

module _ {MerkleBlock : Type 0} (keeper : Keeper MerkleBlock) (codec : Codec) (r : Submitter) where
  module _ (env : SubmitEnv) (tip : ℕ) where
    Progress-row :
        (row after : BtcDepositTx)
        → Progress keeper codec r env row after
        → (after.txid ≡ row.txid) × (is_unhandled tip after ≡ true → is_unhandled tip row ≡ true)
    Progress-row row after (inl e) = rw e (refl, λ waits. waits)
    Progress-row row after (inr (n, was, e, why)) = (
      ap (λ t. t.txid) e,
      λ waits.
          let final =
            settled_row tip (record row { status = n })
              (Justified-ne-pending keeper codec r env row n why) in
          absurd (cc (waits, e, final)),
    )

    pub waiting-le :
        (rows after : List BtcDepositTx)
        → Each (Progress keeper codec r env) rows after
        → waiting tip after ≤ waiting tip rows
    waiting-le [] [] h = omega arith
    waiting-le [] (a ∷ after) h = elim h [ ]
    waiting-le (row ∷ rows) [] h = elim h [ ]
    waiting-le (row ∷ rows) (a ∷ after) (p, h) =
        let (_, back) = Progress-row row a p in ground (arith, waiting-le rows after h, back)

    -- A row that waited and is settled waits no more.
    pub waiting-lt :
        (t : BtcDepositTx) (rows after : List BtcDepositTx)
        → Each (Progress keeper codec r env) rows after
        → Distinct same_txid rows
        → Mem t rows
        → is_unhandled tip t ≡ true
        → IsSettled btc_columns t after
        → waiting tip after < waiting tip rows
    unfolding status_where
    waiting-lt t [] after h d m waits done = absurd (not-mem-nil m)
    waiting-lt t (row ∷ rows) [] h d m waits done = elim h [ ]
    waiting-lt t (row ∷ rows) (a ∷ after) (p, h) d m waits (n, final, e) =
        let (same_id, back) = Progress-row row a p in
        let (fresh, d') = d in
        elim (Bool-cases (str_eq row.txid t.txid)) [
          | inl here ↦
              let is_t : row ≡ t =
                unique_row btc_columns-IsColumns t row (row ∷ rows) d
                  (sym ((eq_iff row.txid t.txid).0 here)) m mem-cons_self in
              let gone : is_unhandled tip a ≡ false = settled_row tip a (ground arith) in
              let waited : is_unhandled tip row ≡ true = rw is_t waits in
              let rest = waiting-le rows after h in ground arith
          | inr other ↦
              let later : Mem t rows =
                Or.elim Mem-prop (mem-cons.0 m)
                  (λ f. absurd (cc (other, (eq_iff row.txid t.txid).1 (sym (ap (λ o. o.txid) f)))))
                  (λ m'. m') in
              let rest = waiting-lt t rows after h d' later waits (n, final, ground arith) in
              ground (arith, back)
        ]

    absent-Progress :
        (o : BtcDepositTx) (rows after : List BtcDepositTx)
        → Each (Progress keeper codec r env) rows after
        → some_of (same_txid o) after ≡ some_of (same_txid o) rows
    absent-Progress o [] [] h = refl
    absent-Progress o [] (a ∷ after) h = elim h [ ]
    absent-Progress o (row ∷ rows) [] h = elim h [ ]
    absent-Progress o (row ∷ rows) (a ∷ after) (p, h) =
        let (same_id, _) = Progress-row row a p in ground (arith, absent-Progress o rows after h)

    pub Distinct-Progress :
        (rows after : List BtcDepositTx)
        → Each (Progress keeper codec r env) rows after
        → Distinct same_txid rows
        → Distinct same_txid after
    Distinct-Progress [] [] h d = tt
    Distinct-Progress [] (a ∷ after) h d = elim h [ ]
    Distinct-Progress (row ∷ rows) [] h d = elim h [ ]
    Distinct-Progress (row ∷ rows) (a ∷ after) (p, h) (fresh, d) =
        let (same_id, _) = Progress-row row a p in
        (ground (arith, absent-Progress a rows after h, same_id), Distinct-Progress rows after h d)

    pub All-Progress :
        (P : String → Type 0) (rows after : List BtcDepositTx)
        → Each (Progress keeper codec r env) rows after
        → All (λ t. P t.txid) rows
        → All (λ t. P t.txid) after
    All-Progress P [] [] h all = tt
    All-Progress P [] (a ∷ after) h all = elim h [ ]
    All-Progress P (row ∷ rows) [] h all = elim h [ ]
    All-Progress P (row ∷ rows) (a ∷ after) (p, h) (q, all) =
        let (same_id, _) = Progress-row row a p in
        (subst P (sym same_id) q, All-Progress P rows after h all)
