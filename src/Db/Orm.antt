-- ===== src/Db/Orm.antt =====
-- What the program asks of gorm and of the database behind it, for one table: an interface, whose
-- laws are the documented meaning of each statement. A statement that fails changes nothing, and
-- may fail at any time; `ErrRecordNotFound` is only said by `First`, and of an empty answer.
use mathlib.Core.List.{Perm}
use lorenzo_btcstaking_submi.Base.{
  ℕ, zero, suc, ◌≤◌, ◌≡◌, ◌⊎◌, inl, inr, arith, String, Bool, Option, none, some, List, [], ◌∷◌,
  ◌++◌, map, if◌then◌else◌, keep, length, take, Result, ok, err, record_not_found, message,
}

pub record Model (Row : Type 0) : Type 0 where
  -- db.Model(..).Where(p).First(&row)
  pub first : (Row → Bool) → List Row → Result Row
  -- db.Model(..).Where(p).Count(&n)
  pub count : (Row → Bool) → List Row → Result ℕ
  -- db.Model(..).Where(p).Order(key).Limit(n).Find(&rows)
  pub find : (Row → Bool) → (Row → ℕ) → Option ℕ → List Row → Result (List Row)
  -- db.Create(row)
  pub create : Row → List Row → Result (List Row)
  -- db.Model(..).Where(p).Update(column, value)
  pub update : (Row → Bool) → (Row → Row) → List Row → Result (List Row)
  -- db.Transaction(steps)
  pub transaction : (List Row → Result (List Row)) → List Row → Result (List Row)

module _ {ℓ} {A : Type ℓ} where
  -- The expected answer, or an error of the connection or the server.
  abbrev pub Answers : Result A → Result A → Type ℓ
  Answers r expected = (r ≡ expected) ⊎ ((e : String) × (r ≡ err (message e)))

module _ {Row : Type 0} where
  unfoldable pub first_row : (Row → Bool) → List Row → Result Row
  first_row p [] = err record_not_found
  first_row p (r ∷ rows) = if p r then ok r else first_row p rows

  abbrev pub update_rows : (Row → Bool) → (Row → Row) → List Row → List Row
  update_rows p f = map (λ r. if p r then f r else r)

  abbrev pub limited : Option ℕ → List Row → List Row
  limited none rows = rows
  limited (some n) rows = take n rows

  -- Ascending by a column; rows that tie may come in any order.
  abbrev pub Ascending : (Row → ℕ) → List Row → Type 0
  Ascending key [] = Unit
  Ascending key (r ∷ []) = Unit
  Ascending key (r ∷ s ∷ rows) = (key r ≤ key s) × Ascending key (s ∷ rows)

pub record IsLawful {Row : Type 0} (m : Model Row) : Type 0 where
  pub first_answers :
      (p : Row → Bool) (rows : List Row) → Answers (m.first p rows) (first_row p rows)
  pub count_answers :
      (p : Row → Bool) (rows : List Row) → Answers (m.count p rows) (ok (length (keep p rows)))
  pub find_answers :
      (p : Row → Bool) (key : Row → ℕ) (limit : Option ℕ) (rows found : List Row)
      → m.find p key limit rows ≡ ok found
      → (sorted : List Row) × Perm sorted (keep p rows)
        × Ascending key sorted
        × (found ≡ limited limit sorted)
  pub create_answers : (r : Row) (rows : List Row) → Answers (m.create r rows) (ok (rows ++ r ∷ []))
  pub update_answers :
      (p : Row → Bool) (f : Row → Row) (rows : List Row)
      → Answers (m.update p f rows) (ok (update_rows p f rows))
  pub transaction_answers :
      (steps : List Row → Result (List Row)) (rows : List Row)
      → Answers (m.transaction steps rows) (steps rows)

-- What a statement that succeeded has answered.
pub eq_of_Answers {ℓ} : {A : Type ℓ} {r : Result A} {a b : A} → Answers r (ok a) → r ≡ ok b → b ≡ a
eq_of_Answers (inl e) h = ground (arith, e, h)
eq_of_Answers (inr (s, e)) h = cc

pub Ascending-take :
    {Row : Type 0} (key : Row → ℕ) (n : ℕ) (rows : List Row)
    → Ascending key rows
    → Ascending key (take n rows)
Ascending-take key zero rows h = tt
Ascending-take key (suc n) [] h = tt
Ascending-take key (suc zero) (r ∷ rows) h = tt
Ascending-take key (suc (suc n)) (r ∷ []) h = tt
Ascending-take key (suc (suc n)) (r ∷ s ∷ rows) (le, h) =
    (le, Ascending-take key (suc n) (s ∷ rows) h)
