-- ===== src/Db/Connection.antt =====
-- db/init.go: the connection that the repositories need. gorm's MySQL driver is a parameter.
use lorenzo_btcstaking_submi.Base.{◌+◌, String, ◌<>◌, Option, Error}
use lorenzo_btcstaking_submi.Strconv.{format_uint}
use lorenzo_btcstaking_submi.BnbTypes.Header.{ℤ, pos, negsuc}
use lorenzo_btcstaking_submi.Config.{Database}

-- The verb %d of an `int`.
unfoldable pub format_int : ℤ → String
format_int (pos n) = format_uint n
format_int (negsuc n) = "-" <> format_uint (n + 1)

unfoldable pub data_source_name : Database → String
unfolding format_int
data_source_name cfg =
    cfg.username
    <> ":"
    <> cfg.password
    <> "@tcp("
    <> cfg.host
    <> ":"
    <> format_int cfg.port
    <> ")/"
    <> cfg.db_name
    <> "?charset=utf8mb4&parseTime=True&loc=Local"

-- `Init`, where `open_connection` is `gorm.Open` of a MySQL data source: `DB` is set when there is no error.
unfoldable pub init : (String → Option Error) → Database → Option Error
unfolding data_source_name
init open_connection cfg = open_connection (data_source_name cfg)
