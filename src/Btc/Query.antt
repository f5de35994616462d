-- ===== src/Btc/Query.antt =====
-- btc/query.go: the client of the block explorer's API.
use lorenzo_btcstaking_submi.Base.{
  ℕ, String, ◌<>◌, str_eq, none, some, List, Bytes, ◌==◌, if◌then◌else◌, ◌>>=◌, ◌>>◌, message,
  Result, ok, err, error_text,
}
use lorenzo_btcstaking_submi.Strconv.{format_uint}
use lorenzo_btcstaking_submi.Btc.Types.{BtcTx, MsgBlock}
use lorenzo_btcstaking_submi.Btc.Network.{Response, Http, Codec, status_ok}

pub record BtcQuery : Type 0 where
  pub api_endpoint : String

pub new_btc_query : String → BtcQuery
new_btc_query api_endpoint = record { api_endpoint = api_endpoint }

module _ (codec : Codec) where
  unfoldable pub check_blockstream_response : Response → Result (Unit {0})
  check_blockstream_response resp =
      if resp.status_code == status_ok then ok tt else err (message (codec.text resp.body))

module _ (http : Http) (codec : Codec) (c : BtcQuery) where
  unfoldable pub get_tx_bytes : String → Result Bytes
  unfolding check_blockstream_response
  get_tx_bytes txid = do
    resp ← http.get (c.api_endpoint <> "/tx/" <> txid <> "/raw")
    check_blockstream_response codec resp
    ok resp.body

  unfoldable pub get_txs : String → String → Result (List BtcTx)
  unfolding check_blockstream_response
  get_txs address last_seen_txid = do
    let base = c.api_endpoint <> "/address/" <> address <> "/txs/chain"
    let url = if str_eq last_seen_txid "" then base else base <> "/" <> last_seen_txid
    resp ← http.get url
    check_blockstream_response codec resp
    codec.decode_txs resp

  unfoldable pub get_tx_block_proof : String → Result Bytes
  unfolding check_blockstream_response
  get_tx_block_proof txid = do
    resp ← http.get (c.api_endpoint <> "/tx/" <> txid <> "/merkleblock-proof")
    check_blockstream_response codec resp
    codec.hex_decode (codec.text resp.body)

  unfoldable pub get_btc_current_height : Result ℕ
  unfolding check_blockstream_response
  get_btc_current_height = do
    resp ← http.get (c.api_endpoint <> "/blocks/tip/height")
    check_blockstream_response codec resp
    codec.decode_height resp

  unfoldable pub get_block_hash_by_height : ℕ → Result String
  unfolding check_blockstream_response
  get_block_hash_by_height height = do
    resp ← http.get (c.api_endpoint <> "/block-height/" <> format_uint height)
    check_blockstream_response codec resp
    elim resp.read_error [ some e ↦ err e | none ↦ ok (codec.text resp.body) ]

  -- fmt.Errorf("getBlockHash failed, err:%v", err)
  block_hash_failed : Result String → Result String
  block_hash_failed (ok hash) = ok hash
  block_hash_failed (err e) = err (message ("getBlockHash failed, err:" <> error_text e))

  unfoldable pub get_block_by_height : ℕ → Result MsgBlock
  unfolding check_blockstream_response get_block_hash_by_height block_hash_failed
  get_block_by_height height = do
    block_hash ← block_hash_failed (get_block_hash_by_height height)
    resp ← http.get (c.api_endpoint <> "/block/" <> block_hash <> "/raw")
    check_blockstream_response codec resp
    codec.decode_block resp

  unfoldable pub get_tx : String → Result BtcTx
  unfolding check_blockstream_response
  get_tx txid = do
    resp ← http.get (c.api_endpoint <> "/tx/" <> txid)
    check_blockstream_response codec resp
    codec.decode_tx resp
