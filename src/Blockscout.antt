-- ===== src/Blockscout.antt =====
-- blockscout/: the refresher, which makes the Blockscout explorer update the balances of the accounts
-- that Lorenzo events touched.
pub mod Refresher
use lorenzo_btcstaking_submi.Base.{ℕ, String, List, Result}
use lorenzo_btcstaking_submi.Btc.Network.{Response}

-- An event of the Lorenzo chain; the time is in seconds.
pub record LorenzoBurnAndMintEvent : Type 0 where
  pub event_type : ℕ
  pub status : ℕ
  pub amount : String
  pub lorenzo_block_height : ℕ
  pub lorenzo_addr : String
  pub lorenzo_tx_hash : String
  pub lorenzo_tx_time : ℕ

-- The bytes of a body as text, the fields of the decoded JSON answers that are read, and
-- `strconv.ParseUint(s, 0, 64)`.
pub record Decoder : Type 0 where
  pub body_text : Response → String
  pub block_number : Response → Result String
  pub redirect_type : Response → Result String
  pub refresh_result : Response → Result String
  pub events : Response → Result (List LorenzoBurnAndMintEvent)
  pub scan_cursor : Response → Result ℕ
  pub parse_uint_any_base : String → Result ℕ
