-- ===== src/Db/Kv.antt =====
-- db/kv.go: named values in the config table.
pub mod SyncPoint
use lorenzo_btcstaking_submi.Base.{
  ℕ, String, str_eq, Bool, List, ◌>>=◌, Result, ok, err, record_not_found, eth_not_found, message,
}
use lorenzo_btcstaking_submi.Strconv.{format_uint, parse_uint}
use lorenzo_btcstaking_submi.Db.Types.{Config}
use lorenzo_btcstaking_submi.Db.Orm.{Model}

-- Where("name = ?", key)
abbrev pub named : String → Config → Bool
named key c = str_eq c.name key

module _ (db : Model Config) where
  unfoldable pub set : String → String → List Config → Result (List Config)
  set key value rows = elim (db.first (named key) rows) [
    | err record_not_found ↦ db.create (record { name = key; value = value }) rows
    | err e ↦ err e
    | ok _ ↦ db.update (named key) (λ c. record c { value = value }) rows
  ]

  unfoldable pub get : String → List Config → Result String
  get key rows = do cfg ← db.first (named key) rows; ok cfg.value

  unfoldable pub get_uint64 : String → List Config → Result ℕ
  unfolding get
  get_uint64 key rows = elim (get key rows) [
    | err record_not_found ↦ ok 0
    | err e ↦ err e
    | ok value ↦ parse_uint value
  ]

  unfoldable pub set_uint64 : String → ℕ → List Config → Result (List Config)
  unfolding set
  set_uint64 key value rows = set key (format_uint value) rows
