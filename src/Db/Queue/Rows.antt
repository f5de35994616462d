-- ===== src/Db/Queue/Rows.antt =====
-- The rows of a table by their keys.
use mathlib.Core.HLevel.{hedberg}
use mathlib.Core.Logic.Or
use mathlib.Core.List.{
  Mem, Perm, Nodup, Nodup-nil, Mem-prop, mem-cons, not-mem-nil, mem-cons_self, mem-cons_of_mem,
  Nodup-cons,
}
use mathlib.Core.List.Perm
use lorenzo_btcstaking_submi.Base.{
  ℕ, zero, suc, ◌≡◌, ◌≢◌, refl, sym, ◌∙◌, ap, ◌↔◌, inl, inr, Bool, true, false, List, [], ◌∷◌,
  arith, some_of, Bool-cases, keep, take, map,
}
use lorenzo_btcstaking_submi.Db.Insertion.{Distinct}
use lorenzo_btcstaking_submi.Db.Queue.{Columns, IsColumns, marked}

module _ {Row Key : Type 0} {c : Columns Row Key} (law : IsColumns c) where
  -- A row is not in a table where its key is not.
  absent-row :
      (t o : Row) (rows : List Row)
      → some_of (c.same o) rows ≡ false
      → c.key t ≡ c.key o
      → Mem t rows
      → ⊥
  absent-row t o [] absent e m = not-mem-nil m
  absent-row t o (r ∷ rows) absent e m =
      let other : c.key r ≢ c.key o = ground (arith, law.reads o r) in
      let rest : some_of (c.same o) rows ≡ false = ground arith in
      Or.elim (λ x y. absurd x) (mem-cons.0 m) (λ same. other (sym (ap c.key same) ∙ e))
        (absent-row t o rows rest e)

  -- In a table without duplicates, a key is one row's.
  pub unique_row :
      (t o : Row) (rows : List Row)
      → Distinct c.same rows
      → c.key t ≡ c.key o
      → Mem t rows
      → Mem o rows
      → o ≡ t
  unique_row t o [] d e m n = absurd (not-mem-nil m)
  unique_row t o (r ∷ rows) (fresh, d) e m n =
      let is_set = hedberg law.row_discrete o t in
      Or.elim is_set (mem-cons.0 m)
        (λ t_first.
          Or.elim is_set (mem-cons.0 n) (λ o_first. o_first ∙ sym t_first)
            (λ o_later. absurd (absent-row o r rows fresh (sym e ∙ ap c.key t_first) o_later)))
        (λ t_later.
          Or.elim is_set (mem-cons.0 n)
            (λ o_first. absurd (absent-row t r rows fresh (e ∙ ap c.key o_first) t_later))
            (unique_row t o rows d e t_later))

  -- A key is a row's exactly when it is among the keys.
  some_of-Mem :
      (t : Row) (rows : List Row)
      → (some_of (c.same t) rows ≡ true) ↔ Mem (c.key t) (map c.key rows)
  some_of-Mem t rows = (to rows, from rows)
    where
      to : (rows : List Row) → some_of (c.same t) rows ≡ true → Mem (c.key t) (map c.key rows)
      to [] h = cc
      to (r ∷ rows) h = elim (Bool-cases (c.same t r)) [
        | inl same ↦ rw ((law.reads t r).0 same) mem-cons_self
        | inr other ↦ mem-cons_of_mem _ (to rows (rw other at h))
      ]

      from : (rows : List Row) → Mem (c.key t) (map c.key rows) → some_of (c.same t) rows ≡ true
      from [] m = absurd (not-mem-nil m)
      from (r ∷ rows) m = elim (Bool-cases (some_of (c.same t) (r ∷ rows))) [
        | inl yes_ ↦ yes_
        | inr none_ ↦ absurd (
            Or.elim (λ x y. absurd x) (mem-cons.0 m)
              (λ e. ground (arith, none_, (law.reads t r).1 (sym e)))
              (λ later. ground (arith, none_, from rows later)))
      ]

  absent-not-Mem :
      (t : Row) (rows : List Row)
      → (some_of (c.same t) rows ≡ false) ↔ (¬ Mem (c.key t) (map c.key rows))
  absent-not-Mem t rows = (
    λ absent m. cc (absent, (some_of-Mem t rows).1 m),
    λ no_row. elim (Bool-cases (some_of (c.same t) rows)) [
      | inl there_is ↦ absurd (no_row ((some_of-Mem t rows).0 there_is))
      | inr absent ↦ absent
    ],
  )

  Distinct-Nodup : (rows : List Row) → Distinct c.same rows → Nodup (map c.key rows)
  Distinct-Nodup [] d = Nodup-nil
  Distinct-Nodup (r ∷ rows) (fresh, d) =
      Nodup-cons.1 ((absent-not-Mem r rows).0 fresh, Distinct-Nodup rows d)

  Nodup-Distinct : (rows : List Row) → Nodup (map c.key rows) → Distinct c.same rows
  Nodup-Distinct [] d = tt
  Nodup-Distinct (r ∷ rows) d =
      let (fresh, rest) = Nodup-cons.0 d in
      ((absent-not-Mem r rows).1 fresh, Nodup-Distinct rows rest)

  absent-keep :
      (p : Row → Bool) (t : Row) (rows : List Row)
      → some_of (c.same t) rows ≡ false
      → some_of (c.same t) (keep p rows) ≡ false
  absent-keep p t [] h = refl
  absent-keep p t (r ∷ rows) h = ground (arith, absent-keep p t rows)

  Distinct-keep :
      (p : Row → Bool) (rows : List Row) → Distinct c.same rows → Distinct c.same (keep p rows)
  Distinct-keep p [] d = tt
  Distinct-keep p (r ∷ rows) (fresh, d) = elim (Bool-cases (p r)) [
    | inl passes ↦ rw passes (absent-keep p r rows fresh, Distinct-keep p rows d)
    | inr fails ↦ rw fails (Distinct-keep p rows d)
  ]

  absent-take :
      (n : ℕ) (t : Row) (rows : List Row)
      → some_of (c.same t) rows ≡ false
      → some_of (c.same t) (take n rows) ≡ false
  absent-take zero t rows h = refl
  absent-take (suc n) t [] h = refl
  absent-take (suc n) t (r ∷ rows) h = ground (arith, absent-take n t rows)

  pub Distinct-take :
      (n : ℕ) (rows : List Row) → Distinct c.same rows → Distinct c.same (take n rows)
  Distinct-take zero rows d = tt
  Distinct-take (suc n) [] d = tt
  Distinct-take (suc n) (r ∷ rows) (fresh, d) = (absent-take n r rows fresh, Distinct-take n rows d)

  -- Reordering the rows that pass a test keeps the keys apart.
  pub Distinct-Perm-keep :
      (p : Row → Bool) (rows sorted : List Row)
      → Perm sorted (keep p rows)
      → Distinct c.same rows
      → Distinct c.same sorted
  Distinct-Perm-keep p rows sorted same d =
      Nodup-Distinct sorted
        (Perm.nodup (Perm.map c.key (Perm.symm same)) (Distinct-Nodup _ (Distinct-keep p rows d)))

  -- A mark changes no key.
  absent-marked :
      (t : Row) (n : ℕ) (o : Row) (rows : List Row)
      → some_of (c.same o) (marked c t n rows) ≡ some_of (c.same o) rows
  absent-marked t n o [] = refl
  absent-marked t n o (r ∷ rows) = ground (
    arith,
    absent-marked t n o rows,
    law.reads o r,
    law.reads o (c.with_status n r),
    law.keeps_key n r,
  )

  absent-same :
      (s o : Row) (rows : List Row)
      → c.key s ≡ c.key o
      → some_of (c.same s) rows ≡ some_of (c.same o) rows
  absent-same s o [] e = refl
  absent-same s o (r ∷ rows) e =
      ground (arith, absent-same s o rows e, law.reads s r, law.reads o r)

  pub Distinct-marked :
      (t : Row) (n : ℕ) (rows : List Row)
      → Distinct c.same rows
      → Distinct c.same (marked c t n rows)
  Distinct-marked t n [] d = tt
  Distinct-marked t n (r ∷ rows) (fresh, d) =
      let absent = absent-marked t n r rows ∙ fresh in
      elim (Bool-cases (c.same t r)) [
        | inl same ↦ rw same (
          absent-same (c.with_status n r) r (marked c t n rows) (law.keeps_key n r) ∙ absent,
          Distinct-marked t n rows d,
        )
        | inr other ↦ rw other (absent, Distinct-marked t n rows d)
      ]

  -- A mark leaves the rows with other keys.
  pub Mem-marked_ne :
      (t o : Row) (n : ℕ) (rows : List Row)
      → c.key o ≢ c.key t
      → Mem o rows
      → Mem o (marked c t n rows)
  Mem-marked_ne t o n [] other m = m
  Mem-marked_ne t o n (r ∷ rows) other m =
      Or.elim Mem-prop (mem-cons.0 m)
        (λ e. elim (Bool-cases (c.same t r)) [
          | inl same ↦ absurd (other (ap c.key e ∙ (law.reads t r).0 same))
          | inr kept ↦ rw (kept, e) mem-cons_self
        ])
        (λ later. mem-cons_of_mem _ (Mem-marked_ne t o n rows other later))
