-- ===== src/Btc/Network.antt =====
-- What the program uses of Go's `net/http` and of its decoders: parameters, with no law.
use lorenzo_btcstaking_submi.Base.{ℕ, String, Option, List, Bytes, Error, Result}
use lorenzo_btcstaking_submi.Btc.Types.{BtcTx, MsgBlock}

-- A response: what could be read of its body, and the error that ended the reading, if any.
pub record Response : Type 0 where
  pub status_code : ℕ
  pub body : Bytes
  pub read_error : Option Error

-- `http.Get(url)`
pub record Http : Type 0 where
  pub get : String → Result Response

-- `string(bytes)`, `hex.DecodeString`, `json.NewDecoder(body).Decode` at each type, and
-- `MsgBlock.Deserialize`.
pub record Codec : Type 0 where
  pub text : Bytes → String
  pub hex_decode : String → Result Bytes
  pub decode_txs : Response → Result (List BtcTx)
  pub decode_tx : Response → Result BtcTx
  pub decode_height : Response → Result ℕ
  pub decode_block : Response → Result MsgBlock

abbrev pub status_ok : ℕ
status_ok = 200
