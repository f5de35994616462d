-- ===== src/Tests/Config.antt =====
-- A small configuration file.
use lorenzo_btcstaking_submi.Base.{
  ℕ, ◌≡◌, ◌≢◌, ◌↔◌, refl, true, ◌==◌, String, Option, none, Error, ok,
}
use lorenzo_btcstaking_submi.BnbTypes.Header.{pos}
use lorenzo_btcstaking_submi.Config.{
  LorenzoConfig, Config, Floats, Source, found, fill_defaults, new_config, create_logger,
  console_encoder, debug_level, validate_bnb_tx_relayer,
}
use lorenzo_btcstaking_submi.Config.Accepted.{IsUsable, new_config_iff}

-- Numbers in tenths.
abbrev pub tenths : Floats ℕ
tenths = record { is_zero_float = λ n. n == 0; one_and_half = 15 }

abbrev pub all_valid : LorenzoConfig ℕ (Unit {0}) → Option Error
all_valid lorenzo = none

abbrev pub written : Config ℕ (Unit {0})
written = record {
  lorenzo = record {
    account_prefix = "";
    gas_adjustment = 0;
    gas_prices = "";
    timeout = pos 0;
    output_format = "";
    sign_mode_str = "";
    others = tt;
  };
  tx_relayer = record {
    confirmation_depth = 3;
    net_params = "mainnet";
    btc_api_endpoint = "https://mempool";
    start_block_height = 1;
  };
  bnb_tx_relayer = record { rpc_url = "rpc"; confirmation_depth = 15; start_block_height = 1 };
  database = record { host = "db"; port = pos 3306; username = "u"; password = "p"; db_name = "d" };
}

abbrev pub loaded : Config ℕ (Unit {0})
loaded = record written {
  lorenzo = record {
    account_prefix = "lrz";
    gas_adjustment = 15;
    gas_prices = "0alrz";
    timeout = pos 20000000000;
    output_format = "json";
    sign_mode_str = "direct";
    others = tt;
  };
}

abbrev pub source : Source ℕ (Unit {0})
source = record {
  stat = λ file. found;
  read_in_config = λ file. none;
  unmarshal = λ file. ok written;
}

new_config-loads : new_config tenths all_valid source "config.yml" ≡ ok loaded
unfolding new_config
new_config-loads = refl

new_config_iff_example : (new_config tenths all_valid source "config.yml" ≡ ok loaded) ↔ (
    (read : Config ℕ (Unit {0})) × (source.stat "config.yml" ≡ found)
    × (source.read_in_config "config.yml" ≡ none)
    × (source.unmarshal "config.yml" ≡ ok read)
    × (loaded ≡ fill_defaults tenths all_valid read)
    × IsUsable tenths all_valid loaded)
new_config_iff_example = new_config_iff tenths all_valid source "config.yml" loaded

debug_logger :
    (quote : String → String) → create_logger quote true ≡ ok (console_encoder, debug_level)
unfolding create_logger
debug_logger quote = refl

no_url :
    validate_bnb_tx_relayer
      (record { rpc_url = ""; confirmation_depth = 0; start_block_height = 0 })
    ≢ none
unfolding validate_bnb_tx_relayer
no_url h = cc
