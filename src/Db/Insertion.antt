-- ===== src/Db/Insertion.antt =====
-- What both repositories mean by an insertion: a transaction is added unless its key is there.
use lorenzo_btcstaking_submi.Base.{
  ◌≡◌, refl, ◌∙◌, Bool, true, false, List, [], ◌∷◌, ◌++◌, arith, ltb, Bool-cases, inl, inr,
  if◌then◌else◌, keep, some_of, length, some_of-append, All,
}
use mathlib.Core.List.{append-nil, append_assoc}

-- `count > 0`
pub some_of-keep {ℓ} :
    {A : Type ℓ} (p : A → Bool) (xs : List A) → ltb 0 (length (keep p xs)) ≡ some_of p xs
some_of-keep p [] = refl
some_of-keep p (x ∷ xs) = ground (arith, some_of-keep p xs)

-- `same t r`: the row `r` has the key of `t`.
pub record IsKeyTest {Row : Type 0} (same : Row → Row → Bool) : Type 0 where
  pub self : (t : Row) → same t t ≡ true
  pub share : (s t r : Row) → same s t ≡ true → same s r ≡ same t r

module _ {Row : Type 0} (same : Row → Row → Bool) where
  abbrev pub add_new : Row → List Row → List Row
  add_new t rows = if some_of (same t) rows then rows else rows ++ t ∷ []

  unfoldable pub insert_new : List Row → List Row → List Row
  insert_new [] rows = rows
  insert_new (t ∷ ts) rows = insert_new ts (add_new t rows)

  -- No two rows have one key.
  abbrev pub Distinct : List Row → Type 0
  Distinct [] = Unit
  Distinct (r ∷ rows) = (some_of (same r) rows ≡ false) × Distinct rows

  -- The key of every transaction of a list is in the table.
  abbrev pub Covers : List Row → List Row → Type 0
  Covers rows = All (λ t. some_of (same t) rows ≡ true)

  pub insert_new-append :
      (ts rows : List Row) → (added : List Row) × (insert_new ts rows ≡ rows ++ added)
  unfolding insert_new
  insert_new-append [] rows = ([], rw append-nil)
  insert_new-append (t ∷ ts) rows = elim (Bool-cases (some_of (same t) rows)) [
    | inl old ↦ rw old (insert_new-append ts rows)
    | inr new ↦ rw new (
        let (added, e) = insert_new-append ts (rows ++ t ∷ []) in
        (t ∷ added, e ∙ append_assoc rows (t ∷ []) added))
  ]

  -- What is added is of the transactions.
  pub insert_new-added :
      (P : Row → Type 0) (ts rows : List Row)
      → All P ts
      → (added : List Row) × (insert_new ts rows ≡ rows ++ added) × All P added
  unfolding insert_new
  insert_new-added P [] rows h = ([], rw append-nil, tt)
  insert_new-added P (t ∷ ts) rows (p, h) = elim (Bool-cases (some_of (same t) rows)) [
    | inl old ↦ rw old (insert_new-added P ts rows h)
    | inr new ↦ rw new (
        let (added, e, all) = insert_new-added P ts (rows ++ t ∷ []) h in
        (t ∷ added, e ∙ append_assoc rows (t ∷ []) added, (p, all)))
  ]

module _ {Row : Type 0} {same : Row → Row → Bool} (key : IsKeyTest same) where
  some_of-same :
      (s t : Row) (rows : List Row)
      → same s t ≡ true
      → some_of (same s) rows ≡ some_of (same t) rows
  some_of-same s t [] e = refl
  some_of-same s t (r ∷ rows) e = ground (arith, key.share s t r e, some_of-same s t rows e)

  Distinct-concat :
      (t : Row) (rows : List Row)
      → some_of (same t) rows ≡ false
      → Distinct same rows
      → Distinct same (rows ++ t ∷ [])
  Distinct-concat t [] new d = (refl, tt)
  Distinct-concat t (r ∷ rows) new (fresh, d) = ground (
    arith,
    key.share r t r,
    key.self r,
    some_of-append (same r) rows (t ∷ []),
    Distinct-concat t rows,
  )

  pub insert_new-Distinct :
      (ts rows : List Row) → Distinct same rows → Distinct same (insert_new same ts rows)
  unfolding insert_new
  insert_new-Distinct [] rows d = d
  insert_new-Distinct (t ∷ ts) rows d =
      insert_new-Distinct ts (add_new same t rows) (ground (arith, Distinct-concat t rows))

  some_of-insert_new :
      (s : Row) (ts rows : List Row)
      → some_of (same s) rows ≡ true
      → some_of (same s) (insert_new same ts rows) ≡ true
  some_of-insert_new s ts rows h =
      let (added, e) = insert_new-append same ts rows in rw (e, some_of-append, h)

  some_of-add_new : (t : Row) (rows : List Row) → some_of (same t) (add_new same t rows) ≡ true
  some_of-add_new t rows = ground (arith, key.self t, some_of-append (same t) rows (t ∷ []))

  pub insert_new-Covers : (ts rows : List Row) → Covers same (insert_new same ts rows) ts
  unfolding insert_new
  insert_new-Covers [] rows = tt
  insert_new-Covers (t ∷ ts) rows =
      (some_of-insert_new t ts _ (some_of-add_new t rows), insert_new-Covers ts _)

-- What is there already is not added again.
pub insert_new_of_Covers :
    {Row : Type 0} (same : Row → Row → Bool) (ts rows : List Row)
    → Covers same rows ts
    → insert_new same ts rows ≡ rows
unfolding insert_new
insert_new_of_Covers same [] rows h = refl
insert_new_of_Covers same (t ∷ ts) rows (there_is, h) =
    rw there_is (insert_new_of_Covers same ts rows h)

-- Rows that are added do not uncover a transaction.
pub Covers-append :
    {Row : Type 0} (same : Row → Row → Bool) (ts rows added : List Row)
    → Covers same rows ts
    → Covers same (rows ++ added) ts
Covers-append same [] rows added h = tt
Covers-append same (t ∷ ts) rows added (there_is, h) =
    (rw (some_of-append, there_is), Covers-append same ts rows added h)
