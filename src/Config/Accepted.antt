-- ===== src/Config/Accepted.antt =====
-- Which configuration files are accepted, and what the program then runs with.
use mathlib.Core.Path.{subst}
use lorenzo_btcstaking_submi.Base.{
  ◌≤◌, ◌≡◌, ◌≢◌, ◌↔◌, sym, ◌∙◌, false, String, eq_iff, Option, none, arith, Error, ok, Result-cases,
  inl, inr,
}
use lorenzo_btcstaking_submi.Config.{
  LorenzoConfig, TxRelayerConfig, Config, validate_tx_relayer, Floats, Source, found, fill_defaults,
  validate, new_config,
}

module _ {Float Others : Type 0} (floats : Floats Float)
    (validate_lorenzo : LorenzoConfig Float Others → Option Error) where
  -- What the program needs of its configuration.
  pub record IsUsable (cfg : Config Float Others) : Type 0 where
    pub lorenzo_valid : validate_lorenzo cfg.lorenzo ≡ none
    pub has_depth : 1 ≤ cfg.tx_relayer.confirmation_depth
    pub has_endpoint : cfg.tx_relayer.btc_api_endpoint ≢ ""
    pub has_net_params : cfg.tx_relayer.net_params ≢ ""

  validate_tx_relayer_iff :
      (cfg : TxRelayerConfig)
      → (validate_tx_relayer cfg ≡ none)
        ↔ ((1 ≤ cfg.confirmation_depth) × (cfg.btc_api_endpoint ≢ "") × (cfg.net_params ≢ ""))
  unfolding validate_tx_relayer
  validate_tx_relayer_iff cfg =
      ground (arith, eq_iff cfg.btc_api_endpoint "", eq_iff cfg.net_params "")

  validate-IsUsable :
      (cfg : Config Float Others)
      → (validate floats validate_lorenzo cfg).1 ≡ none
      → ((validate floats validate_lorenzo cfg).0 ≡ fill_defaults floats validate_lorenzo cfg)
        × IsUsable (fill_defaults floats validate_lorenzo cfg)
  unfolding validate
  validate-IsUsable cfg h =
      let filled = fill_defaults floats validate_lorenzo cfg in
      let valid : validate_lorenzo filled.lorenzo ≡ none = ground arith in
      let checked : validate_tx_relayer filled.tx_relayer ≡ none = ground arith in
      let (depth, endpoint, params) = (validate_tx_relayer_iff filled.tx_relayer).0 checked in
      (
        ground arith,
        record {
          lorenzo_valid = valid;
          has_depth = depth;
          has_endpoint = endpoint;
          has_net_params = params;
        },
      )

  validate_of_IsUsable :
      (cfg : Config Float Others)
      → IsUsable (fill_defaults floats validate_lorenzo cfg)
      → validate floats validate_lorenzo cfg ≡ (fill_defaults floats validate_lorenzo cfg, none)
  unfolding validate
  validate_of_IsUsable cfg usable =
      let filled = fill_defaults floats validate_lorenzo cfg in
      let valid = usable.lorenzo_valid in
      let checked =
        (validate_tx_relayer_iff filled.tx_relayer).1
          (usable.has_depth, usable.has_endpoint, usable.has_net_params) in
      ground (arith, valid, checked)

  new_config-read :
      (source : Source Float Others) (config_file : String) (cfg : Config Float Others)
      → new_config floats validate_lorenzo source config_file ≡ ok cfg
      → (read : Config Float Others) × (source.stat config_file ≡ found)
        × (source.read_in_config config_file ≡ none)
        × (source.unmarshal config_file ≡ ok read)
        × ((validate floats validate_lorenzo read).1 ≡ none)
        × ((validate floats validate_lorenzo read).0 ≡ cfg)
  unfolding new_config
  new_config-read source config_file cfg h = elim (Result-cases (source.unmarshal config_file)) [
    | inr (e, failed) ↦ absurd (ground arith)
    | inl (read, got) ↦ (read, ground arith, ground arith, got, ground arith, ground arith)
  ]

  -- A configuration file gives a configuration exactly when it exists, can be read and decoded, and
  -- the configuration is the decoded one with its defaults filled in, passes the SDK's check, and
  -- has a confirmation depth of 1 at least and neither an empty endpoint nor empty network
  -- parameters.
  pub new_config_iff :
      (source : Source Float Others) (config_file : String) (cfg : Config Float Others)
      → (new_config floats validate_lorenzo source config_file ≡ ok cfg) ↔ (
          (read : Config Float Others) × (source.stat config_file ≡ found)
          × (source.read_in_config config_file ≡ none)
          × (source.unmarshal config_file ≡ ok read)
          × (cfg ≡ fill_defaults floats validate_lorenzo read)
          × IsUsable cfg)
  unfolding new_config
  new_config_iff source config_file cfg = (
    λ h.
        let (read, there, loaded, got, checked, same) = new_config-read source config_file cfg h in
        let (filled, usable) = validate-IsUsable read checked in
        let e : cfg ≡ fill_defaults floats validate_lorenzo read = sym same ∙ filled in
        (read, there, loaded, got, e, subst IsUsable (sym e) usable),
    λ (read, there, loaded, got, e, usable).
        let valid = validate_of_IsUsable read (subst IsUsable e usable) in
        ground (arith, there, loaded, got, valid, e),
  )

  -- Filling in defaults twice is filling them in once.
  pub fill_defaults_idem :
      (cfg : Config Float Others)
      → floats.is_zero_float floats.one_and_half ≡ false
      → fill_defaults floats validate_lorenzo (fill_defaults floats validate_lorenzo cfg)
        ≡ fill_defaults floats validate_lorenzo cfg
  unfolding fill_defaults
  fill_defaults_idem cfg h = ground (arith, h)
