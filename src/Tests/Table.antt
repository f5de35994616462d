-- ===== src/Tests/Table.antt =====
-- A table in memory, which answers every statement as documented.
use mathlib.Core.List.{Perm}
use mathlib.Core.List.Perm
use lorenzo_btcstaking_submi.Base.{
  ℕ, ◌≡◌, refl, inl, inr, arith, Bool, List, [], ◌∷◌, ◌++◌, leb, Bool-cases, if◌then◌else◌, keep,
  length, Option, ok,
}
use lorenzo_btcstaking_submi.Db.Reliable.{IsReliable}
use lorenzo_btcstaking_submi.Db.Orm.{Model, IsLawful, first_row, update_rows, limited, Ascending}

module _ {Row : Type 0} (key : Row → ℕ) where
  -- Insertion sort.
  put : Row → List Row → List Row
  put r [] = r ∷ []
  put r (s ∷ rows) = if leb (key r) (key s) then r ∷ s ∷ rows else s ∷ put r rows

  unfoldable pub sort : List Row → List Row
  unfolding put
  sort [] = []
  sort (r ∷ rows) = put r (sort rows)

  put-Perm : (r : Row) (rows : List Row) → Perm (put r rows) (r ∷ rows)
  unfolding put
  put-Perm r [] = Perm.refl (r ∷ [])
  put-Perm r (s ∷ rows) = elim (Bool-cases (leb (key r) (key s))) [
    | inl le ↦ rw le (Perm.refl (r ∷ s ∷ rows))
    | inr gt ↦ rw gt (Perm.trans (Perm.cons s (put-Perm r rows)) (Perm.swap r s rows))
  ]

  sort-Perm : (rows : List Row) → Perm (sort rows) rows
  unfolding sort
  sort-Perm [] = Perm.refl []
  sort-Perm (r ∷ rows) = Perm.trans (put-Perm r (sort rows)) (Perm.cons r (sort-Perm rows))

  put-Ascending : (r : Row) (rows : List Row) → Ascending key rows → Ascending key (put r rows)
  unfolding put
  put-Ascending r [] h = tt
  put-Ascending r (s ∷ []) h = ground arith
  put-Ascending r (s ∷ t ∷ rows) h = ground (arith, put-Ascending r (t ∷ rows))

  sort-Ascending : (rows : List Row) → Ascending key (sort rows)
  unfolding sort
  sort-Ascending [] = tt
  sort-Ascending (r ∷ rows) = put-Ascending r (sort rows) (sort-Ascending rows)

module _ (Row : Type 0) where
  abbrev pub table : Model Row
  table = record {
    first = first_row;
    count = λ p rows. ok (length (keep p rows));
    find = λ p key limit rows. ok (limited limit (sort key (keep p rows)));
    create = λ r rows. ok (rows ++ r ∷ []);
    update = λ p f rows. ok (update_rows p f rows);
    transaction = λ steps rows. steps rows;
  }

  table-find :
      (p : Row → Bool) (key : Row → ℕ) (limit : Option ℕ) (rows found : List Row)
      → table.find p key limit rows ≡ ok found
      → (sorted : List Row) × Perm sorted (keep p rows)
        × Ascending key sorted
        × (found ≡ limited limit sorted)
  table-find p key limit rows found h = (
    sort key (keep p rows),
    sort-Perm key (keep p rows),
    sort-Ascending key (keep p rows),
    ground arith,
  )

  pub table-IsLawful : IsLawful table
  table-IsLawful = record {
    first_answers = λ p rows. inl refl;
    count_answers = λ p rows. inl refl;
    find_answers = table-find;
    create_answers = λ r rows. inl refl;
    update_answers = λ p f rows. inl refl;
    transaction_answers = λ steps rows. inl refl;
  }

  pub table-IsReliable : IsReliable table
  table-IsReliable = record {
    first_replies = λ p rows. refl;
    count_replies = λ p rows. refl;
    create_replies = λ r rows. refl;
    update_replies = λ p f rows. refl;
    transaction_replies = λ steps rows. refl;
  }
