-- ===== src/Db/Kv/SyncPoint.antt =====
-- The number stored under a key of the config table, as the sync points use db/kv.go.
use lorenzo_btcstaking_submi.Base.{
  ℕ, ◌<◌, ◌≡◌, ◌≢◌, refl, String, str_eq, eq_iff, List, [], ◌∷◌, ◌++◌, arith, u64_mod,
  if◌then◌else◌, Result, ok, err, record_not_found, eth_not_found, message,
}
use lorenzo_btcstaking_submi.Strconv.{format_uint, parse_uint}
use lorenzo_btcstaking_submi.Strconv.RoundTrip.{parse_uint-format_uint}
use lorenzo_btcstaking_submi.Db.Types.{Config}
use lorenzo_btcstaking_submi.Db.Orm.{Model, IsLawful, Answers, first_row, update_rows}
use lorenzo_btcstaking_submi.Db.Kv.{named, get_uint64, set_uint64}

-- The number under a key: 0 where there is no row.
unfoldable pub stored : String → List Config → Result ℕ
stored key [] = ok 0
stored key (c ∷ rows) = if str_eq c.name key then parse_uint c.value else stored key rows

read_row : Result Config → Result ℕ
read_row (err record_not_found) = ok 0
read_row (err eth_not_found) = err eth_not_found
read_row (err (message s)) = err (message s)
read_row (ok c) = parse_uint c.value

stored-first_row :
    (key : String) (rows : List Config) → stored key rows ≡ read_row (first_row (named key) rows)
unfolding stored first_row read_row
stored-first_row key [] = refl
stored-first_row key (c ∷ rows) = ground (arith, stored-first_row key rows)

-- A new row is found under its name, and hides no other.
stored-append :
    (key j value : String) (rows : List Config)
    → first_row (named key) rows ≡ err record_not_found
    → stored j (rows ++ record { name = key; value = value } ∷ [])
      ≡ (if str_eq key j then parse_uint value else stored j rows)
unfolding stored first_row
stored-append key j value [] absent = refl
stored-append key j value (c ∷ rows) absent =
    ground (arith, stored-append key j value rows, eq_iff c.name key, eq_iff c.name j, eq_iff key j)

abbrev revalued : String → List Config → String → List Config
revalued key rows value = update_rows (named key) (λ c. record c { value = value }) rows

stored-revalued_ne :
    (key j value : String) (rows : List Config)
    → key ≢ j
    → stored j (revalued key rows value) ≡ stored j rows
unfolding stored
stored-revalued_ne key j value [] other = refl
stored-revalued_ne key j value (c ∷ rows) other =
    ground (arith, stored-revalued_ne key j value rows other, eq_iff c.name key, eq_iff c.name j)

stored-revalued_self :
    (key value : String) (rows : List Config)
    → first_row (named key) rows ≢ err record_not_found
    → stored key (revalued key rows value) ≡ parse_uint value
unfolding stored first_row
stored-revalued_self key value [] found = absurd (found refl)
stored-revalued_self key value (c ∷ rows) found =
    ground (arith, stored-revalued_self key value rows, eq_iff c.name key)

module _ (db : Model Config) (lawful : IsLawful db) where
  -- On a database that obeys its laws, a read gives the number stored under the key (0 where there
  -- is none, an error where the text is no number), or fails as a statement does.
  pub get_uint64-stored :
      (key : String) (rows : List Config) → Answers (get_uint64 db key rows) (stored key rows)
  unfolding get_uint64 read_row
  get_uint64-stored key rows =
      ground (arith, lawful.first_answers (named key) rows, stored-first_row key rows)

  -- On a database that obeys its laws, a write of a number below 2^64 that succeeds gives the key
  -- that number and leaves the number of every other key.
  pub stored-set_uint64 :
      (key j : String) (n : ℕ) (rows : List Config) {after : List Config}
      → n < u64_mod
      → set_uint64 db key n rows ≡ ok after
      → stored j after ≡ (if str_eq key j then ok n else stored j rows)
  unfolding set_uint64
  stored-set_uint64 key j n rows fits written = ground (
    arith,
    lawful.first_answers (named key) rows,
    parse_uint-format_uint n fits,
    stored-append key j (format_uint n) rows,
    stored-revalued_ne key j (format_uint n) rows,
    stored-revalued_self key (format_uint n) rows,
    lawful.create_answers (record { name = key; value = format_uint n }) rows,
    lawful.update_answers (named key) (λ c. record c { value = format_uint n }) rows,
    eq_iff key j,
  )

-- A read whose statement is answered gives the stored number.
pub get_uint64-answered :
    (db : Model Config) (key : String) (rows : List Config)
    → db.first (named key) rows ≡ first_row (named key) rows
    → get_uint64 db key rows ≡ stored key rows
unfolding get_uint64 read_row
get_uint64-answered db key rows answered = ground (arith, stored-first_row key rows)
