-- ===== src/Db/Reliable.antt =====
-- A database none of whose statements fails, for what the loops achieve when all goes well.
use lorenzo_btcstaking_submi.Base.{
  ℕ, ◌≡◌, refl, ◌⊎◌, inl, inr, String, Bool, List, [], ◌∷◌, ◌++◌, arith, Bool-cases, keep, length,
  Result, ok, err, record_not_found,
}
use lorenzo_btcstaking_submi.Db.Types.{Config}
use lorenzo_btcstaking_submi.Strconv.{format_uint}
use lorenzo_btcstaking_submi.Db.Orm.{Model, first_row, update_rows}
use lorenzo_btcstaking_submi.Db.Kv.{named, set_uint64}

pub record IsReliable {Row : Type 0} (m : Model Row) : Type 0 where
  pub first_replies : (p : Row → Bool) (rows : List Row) → m.first p rows ≡ first_row p rows
  pub count_replies :
      (p : Row → Bool) (rows : List Row) → m.count p rows ≡ ok (length (keep p rows))
  pub create_replies : (r : Row) (rows : List Row) → m.create r rows ≡ ok (rows ++ r ∷ [])
  pub update_replies :
      (p : Row → Bool) (f : Row → Row) (rows : List Row)
      → m.update p f rows ≡ ok (update_rows p f rows)
  pub transaction_replies :
      (steps : List Row → Result (List Row)) (rows : List Row)
      → m.transaction steps rows ≡ steps rows

-- `First` finds a row or says that there is none.
first_row-cases :
    {Row : Type 0} (p : Row → Bool) (rows : List Row)
    → (first_row p rows ≡ err record_not_found) ⊎ ((r : Row) × (first_row p rows ≡ ok r))
unfolding first_row
first_row-cases p [] = inl refl
first_row-cases p (r ∷ rows) = elim (Bool-cases (p r)) [
  | inl passes ↦ inr (r, rw passes refl)
  | inr fails ↦ rw fails (first_row-cases p rows)
]

-- A write of a number succeeds.
pub set_uint64-succeeds :
    (db : Model Config) (key : String) (n : ℕ) (rows : List Config)
    → IsReliable db
    → (after : List Config) × (set_uint64 db key n rows ≡ ok after)
unfolding set_uint64
set_uint64-succeeds db key n rows reliable =
    let row : Config = record { name = key; value = format_uint n } in
    let revalue : Config → Config = λ c. record c { value = format_uint n } in
    let found = reliable.first_replies (named key) rows in
    elim (first_row-cases (named key) rows) [
      | inl absent ↦
          (rows ++ row ∷ [], ground (arith, found, absent, reliable.create_replies row rows))
      | inr (c, present) ↦ (
        update_rows (named key) revalue rows,
        ground (arith, found, present, reliable.update_replies (named key) revalue rows),
      )
    ]
