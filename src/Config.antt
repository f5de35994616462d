-- ===== src/Config.antt =====
-- config/config.go and config/log.go: the configuration, its defaults and checks, and the choice of
-- a log format.
pub mod Accepted
use lorenzo_btcstaking_submi.Base.{
  ℕ, Bool, true, false, String, ◌<>◌, str_eq, Option, none, some, ltb, ◌==◌, if◌then◌else◌, Error,
  message, Result, ok, err,
}
use lorenzo_btcstaking_submi.BnbTypes.Header.{ℤ, pos}

abbrev pub min_confirmation_depth : ℕ
min_confirmation_depth = 1

-- The fields of the SDK's `LorenzoConfig` that are given defaults, and the others. The timeout is in
-- nanoseconds.
pub record LorenzoConfig (Float Others : Type 0) : Type 0 where
  pub account_prefix : String
  pub gas_adjustment : Float
  pub gas_prices : String
  pub timeout : ℤ
  pub output_format : String
  pub sign_mode_str : String
  pub others : Others

pub record TxRelayerConfig : Type 0 where
  pub confirmation_depth : ℕ
  pub net_params : String
  pub btc_api_endpoint : String
  pub start_block_height : ℕ

pub record BnbTxRelayerConfig : Type 0 where
  pub rpc_url : String
  pub confirmation_depth : ℕ
  pub start_block_height : ℕ

pub record Database : Type 0 where
  pub host : String
  pub port : ℤ
  pub username : String
  pub password : String
  pub db_name : String

pub record Config (Float Others : Type 0) : Type 0 where
  pub lorenzo : LorenzoConfig Float Others
  pub tx_relayer : TxRelayerConfig
  pub bnb_tx_relayer : BnbTxRelayerConfig
  pub database : Database

unfoldable pub validate_bnb_tx_relayer : BnbTxRelayerConfig → Option Error
validate_bnb_tx_relayer cfg =
    if str_eq cfg.rpc_url ""
    then some (message "rpcUrl cannot be empty")
    else (if cfg.confirmation_depth == 0
        then some (message "confirmationDepth cannot be 0")
        else (if cfg.start_block_height == 0
            then some (message "startBlockHeight cannot be 0")
            else none))

unfoldable pub validate_tx_relayer : TxRelayerConfig → Option Error
validate_tx_relayer cfg =
    if ltb cfg.confirmation_depth min_confirmation_depth
    then some (message "confirmationDepth must be larger than 1")
    else (if str_eq cfg.btc_api_endpoint ""
        then some (message "btcApiEndpoint cannot be empty")
        else (if str_eq cfg.net_params ""
            then some (message "BTC netParams cannot be empty")
            else none))

-- `time.Second * 20`
abbrev pub default_timeout : ℤ
default_timeout = pos 20000000000

abbrev pub is_zero : ℤ → Bool
is_zero (pos n) = n == 0
is_zero _ = false

abbrev pub or_default : String → String → String
or_default value default = if str_eq value "" then default else value

-- The numbers of type float64: the test for zero, and 1.5.
pub record Floats (Float : Type 0) : Type 0 where
  pub is_zero_float : Float → Bool
  pub one_and_half : Float

-- Where the configuration comes from: `os.Stat`, viper's `ReadInConfig` and `Unmarshal`.
pub data Stat : Type 0 where
  found : Stat
  not_exist : Stat
  stat_failed : Error → Stat

pub record Source (Float Others : Type 0) : Type 0 where
  pub stat : String → Stat
  pub read_in_config : String → Option Error
  pub unmarshal : String → Result (Config Float Others)

module _ {Float Others : Type 0} (floats : Floats Float)
    -- `LorenzoConfig.Validate` of the SDK
    (validate_lorenzo : LorenzoConfig Float Others → Option Error) where
  -- `fillDefaultValueIfNotSet`
  unfoldable pub fill_defaults : Config Float Others → Config Float Others
  fill_defaults cfg = record cfg {
    lorenzo = record {
      account_prefix = or_default cfg.lorenzo.account_prefix "lrz";
      gas_adjustment =
          if floats.is_zero_float cfg.lorenzo.gas_adjustment
          then floats.one_and_half
          else cfg.lorenzo.gas_adjustment;
      gas_prices = or_default cfg.lorenzo.gas_prices "0alrz";
      timeout = if is_zero cfg.lorenzo.timeout then default_timeout else cfg.lorenzo.timeout;
      output_format = or_default cfg.lorenzo.output_format "json";
      sign_mode_str = or_default cfg.lorenzo.sign_mode_str "direct";
      others = cfg.lorenzo.others;
    };
  }

  -- `Config.Validate`: the receiver after the call, and the error.
  unfoldable pub validate : Config Float Others → Config Float Others × Option Error
  unfolding fill_defaults validate_tx_relayer
  validate cfg =
      let filled = fill_defaults cfg in
      elim (validate_lorenzo filled.lorenzo) [
        | some e ↦ (filled, some e)
        | none ↦ elim (validate_tx_relayer filled.tx_relayer) [
          | some e ↦ (filled, some e)
          | none ↦ (filled, none)
        ]
      ]

  -- `NewConfig`
  unfoldable pub new_config : Source Float Others → String → Result (Config Float Others)
  unfolding validate
  new_config source config_file = elim (source.stat config_file) [
    | found ↦ elim (source.read_in_config config_file) [
      | some e ↦ err e
      | none ↦ elim (source.unmarshal config_file) [
        | err e ↦ err e
        | ok cfg ↦ elim (validate cfg).1 [ some e ↦ err e | none ↦ ok (validate cfg).0 ]
      ]
    ]
    | not_exist ↦ err (message ("no config file found at " <> config_file))
    | stat_failed e ↦ err e
  ]

-- The encoders of zap and its levels.
pub data Encoder : Type 0 where
  json_encoder : Encoder
  console_encoder : Encoder
  logfmt_encoder : Encoder

pub data Level : Type 0 where
  info_level : Level
  debug_level : Level

-- `NewRootLogger`, as the encoder and the level of the logger. `quote` is the verb %q.
unfoldable pub new_root_logger : (String → String) → String → Bool → Result (Encoder × Level)
new_root_logger quote format debug =
    let level = if debug then debug_level else info_level in
    if str_eq format "json"
    then ok (json_encoder, level)
    else (if str_eq format "auto"
        then ok (console_encoder, level)
        else (if str_eq format "console"
            then ok (console_encoder, level)
            else (if str_eq format "logfmt"
                then ok (logfmt_encoder, level)
                else err (message ("unrecognized log format " <> quote format)))))

-- `CreateLogger`
unfoldable pub create_logger : (String → String) → Bool → Result (Encoder × Level)
unfolding new_root_logger
create_logger quote debug = new_root_logger quote "auto" debug
