-- ===== src/Tests/Root.antt =====
-- The program from its flags on, where the BNB node cannot be reached.
use lorenzo_btcstaking_submi.Base.{
  ℕ, ◌≡◌, ◌↔◌, refl, inl, String, Bool, true, none, some, message, Error, ok, err, done,
}
use lorenzo_btcstaking_submi.Config as Conf
use lorenzo_btcstaking_submi.Db.Connection.{data_source_name, format_int}
use lorenzo_btcstaking_submi.Strconv.{format_uint}
use lorenzo_btcstaking_submi.TxRelayer.Startup.{BtcRelayer}
use lorenzo_btcstaking_submi.Cmd.{signal}
use lorenzo_btcstaking_submi.Cmd.Root.{RootEnv, root_action}
use lorenzo_btcstaking_submi.Cmd.Root.Returns.{Prepared, Made, shut_down, root_action_iff}
use lorenzo_btcstaking_submi.Tests.Config.{tenths, all_valid, loaded, source}
use lorenzo_btcstaking_submi.Tests.Startup.{env, bnb_env, before, after, btc_relayer}

abbrev root_env : RootEnv ℕ (Unit {0})
root_env = record {
  config_flag = ok "config.yml";
  debug_flag = ok true;
  source = source;
  open_connection = λ name. none;
  quote = λ text. text;
  new_lorenzo_client = λ conf logger. none;
  btc = env;
  bnb = record bnb_env {
    dial = record {
      eth = λ url. some (message "connection refused");
      rpc = λ url. none;
      receipts_cache = λ size. none;
      header_cache = λ size. none;
    };
  };
  btc_loops_end = true;
  bnb_loops_end = true;
}

name_of_source :
    data_source_name loaded.database ≡ "u:p@tcp(db:3306)/d?charset=utf8mb4&parseTime=True&loc=Local"
unfolding data_source_name format_int format_uint
name_of_source = refl

root_action_iff_example :
    (root_action tenths all_valid root_env before signal ≡ done (shut_down btc_relayer, after)) ↔ (
      (config_file : String) × (cfg : Conf.Config ℕ (Unit {0})) × (debug : Bool)
      × (btc : BtcRelayer) × (e : Error) × Prepared tenths all_valid root_env config_file cfg debug
      × Made tenths all_valid root_env cfg before after btc (err e)
      × (root_env.btc_loops_end ≡ true)
      × (shut_down btc_relayer ≡ shut_down btc))
root_action_iff_example =
    root_action_iff tenths all_valid root_env signal (inl refl) before after (shut_down btc_relayer)
