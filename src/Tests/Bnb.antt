-- ===== src/Tests/Bnb.antt =====
-- The BNB relayer on a small chain.
use Prim.Native.Char.{code}
use lorenzo_btcstaking_submi.Base.{
  ℕ, zero, suc, ◌==◌, u64_mod, true, false, ap, ◌+◌, ◌≤◌, ◌<◌, ◌≡◌, refl, String, none, some, List,
  [], ◌∷◌, arith, Bytes, All, Has, Each, add_u64, sub_u64, ok, err, message,
}
use lorenzo_btcstaking_submi.Strconv.{parse_uint, format_uint}
use lorenzo_btcstaking_submi.Db.Types.{Config, WrappedBtcDepositTx, submitter_bnb_sync_point_key}
use lorenzo_btcstaking_submi.Db.Orm.{first_row}
use lorenzo_btcstaking_submi.Db.Insertion.{Covers}
use lorenzo_btcstaking_submi.Db.Kv.{get_uint64, set_uint64}
use lorenzo_btcstaking_submi.Db.Kv.SyncPoint.{stored}
use lorenzo_btcstaking_submi.Db.BnbRepository.{
  get_sync_point, update_sync_point, insert_wrapped_btc_deposit_txs,
}
use lorenzo_btcstaking_submi.Db.BnbRepository.Deposits.{same_chain_txid}
use lorenzo_btcstaking_submi.TxRelayer.Lorenzo.{LorenzoClient}
use lorenzo_btcstaking_submi.TxRelayer.Bnb.{
  ReceiptWithProof, Encoding, IsInverse, BnbClient, BnbRelayer, to_wrapped_list,
}
use lorenzo_btcstaking_submi.TxRelayer.Bnb.Scan.{
  WindowEnv, WrappedState, window_end, scan_round, scan_loop,
}
use lorenzo_btcstaking_submi.TxRelayer.Bnb.Scan.Windows.{IsLawfulWindow, bnb_point_of, ReadWindow}
use lorenzo_btcstaking_submi.TxRelayer.Bnb.Scan.NoGaps.{scan_loop-Covers}
use lorenzo_btcstaking_submi.TxRelayer.Bnb.Submit.{WrappedEnv, WrappedSubmission, submit_wrapped}
use lorenzo_btcstaking_submi.TxRelayer.Bnb.Submit.Settled.{Settled, submit_wrapped-Settled}
use lorenzo_btcstaking_submi.TxRelayer.Bnb.Submit.Carried.{Carries, to_wrapped_list-Carries}
use lorenzo_btcstaking_submi.Tests.Table.{table, table-IsLawful}
use lorenzo_btcstaking_submi.Tests.World.{config, lorenzo}

-- Bytes in text: each one as so many times `1`, and a `0`.
tally : ℕ → String → String
tally zero rest = String.◌∷◌ "0" rest
tally (suc n) rest = String.◌∷◌ "1" (tally n rest)

unfoldable pub tallies : Bytes → String
unfolding tally
tallies [] = ""
tallies (byte ∷ bytes) = tally byte (tallies bytes)

pub read_tallies : ℕ → String → Bytes
read_tallies n String.[] = []
read_tallies n (String.◌∷◌ c rest) = elim (code c == b'1') [
  | true ↦ read_tallies (suc n) rest
  | false ↦ n ∷ read_tallies 0 rest
]

read_tallies-tally :
    (k n : ℕ) (rest : String) → read_tallies k (tally n rest) ≡ (k + n) ∷ read_tallies 0 rest
unfolding tally read_tallies
read_tallies-tally k zero rest = ground arith
read_tallies-tally k (suc n) rest = ground (arith, read_tallies-tally (suc k) n rest)

read_tallies-tallies : (bytes : Bytes) → read_tallies 0 (tallies bytes) ≡ bytes
unfolding tallies read_tallies
read_tallies-tallies [] = refl
read_tallies-tallies (byte ∷ bytes) =
    ground (arith, read_tallies-tally 0 byte (tallies bytes), read_tallies-tallies bytes)

-- A receipt's body and a proof are their own encodings.
abbrev pub small_encoding : Encoding Bytes Bytes
small_encoding = record {
  encode_receipt = λ receipt. ok receipt.body;
  encode_proof = λ proof. ok proof;
  hex_encode = tallies;
  hex_decode = λ s. ok (read_tallies 0 s);
}

small_encoding-IsInverse : IsInverse small_encoding
small_encoding-IsInverse = record { decode_encode = λ bytes. ap ok (read_tallies-tallies bytes) }

abbrev pub bnb_relayer : BnbRelayer
bnb_relayer = record {
  chain_name = "bnb";
  delay_blocks = 15;
  plan_stake_hub_address = "0xhub";
  submitter = "lrz1submitter";
}

abbrev receipt_at : String → ℕ → ReceiptWithProof Bytes Bytes
receipt_at txid height = record {
  block_time = 1700000000;
  receipt = record { tx_hash = txid; block_number = height; block_hash = "0xb"; body = 2 ∷ 3 ∷ [] };
  proof = 1 ∷ [];
}

-- The tip of the chain, and one receipt in every window.
abbrev pub client_at : ℕ → BnbClient Bytes Bytes
client_at tip = record {
  block_number = (tip, none);
  receipts_with_proof = λ hub start end. ok (receipt_at "0xa" start ∷ []);
}

-- The node of the chain is not reached: the number is 0.
abbrev client_down : BnbClient Bytes Bytes
client_down = record {
  block_number = (0, some (message "connection refused"));
  receipts_with_proof = λ hub start end. err (message "connection refused");
}

abbrev pub window_at : BnbClient Bytes Bytes → WindowEnv Bytes Bytes
window_at client = record {
  client = client;
  config_db = table Config;
  wrapped_db = table WrappedBtcDepositTx;
}

abbrev windows : List (WindowEnv Bytes Bytes)
windows = window_at (client_at 5000) ∷ window_at client_down ∷ window_at (client_at 5001) ∷ []

pub window_at-IsLawfulWindow :
    (tip : ℕ) → tip < u64_mod → IsLawfulWindow (window_at (client_at tip))
window_at-IsLawfulWindow tip fits = record {
  config_lawful = table-IsLawful Config;
  wrapped_lawful = table-IsLawful WrappedBtcDepositTx;
  tip_fits = fits;
}

client_down-IsLawfulWindow : IsLawfulWindow (window_at client_down)
client_down-IsLawfulWindow = record {
  config_lawful = table-IsLawful Config;
  wrapped_lawful = table-IsLawful WrappedBtcDepositTx;
  tip_fits = omega arith;
}

windows-IsLawfulWindow : All IsLawfulWindow windows
windows-IsLawfulWindow = (
  window_at-IsLawfulWindow 5000 (omega arith),
  (client_down-IsLawfulWindow, (window_at-IsLawfulWindow 5001 (omega arith), tt)),
)

abbrev pub at_3500 : WrappedState
at_3500 = record { configs = config submitter_bnb_sync_point_key "3500" ∷ []; wrapped = [] }

pub at_3500-stored : bnb_point_of at_3500 ≡ ok 3500
unfolding stored parse_uint
at_3500-stored = refl

windows-reached : bnb_point_of (scan_loop small_encoding bnb_relayer windows at_3500) ≡ ok 4986
unfolding stored scan_loop scan_round window_end add_u64 sub_u64 get_sync_point update_sync_point
    get_uint64 set_uint64 parse_uint format_uint first_row to_wrapped_list
    insert_wrapped_btc_deposit_txs
windows-reached = refl

scan_loop-Covers_example :
    (env : WindowEnv Bytes Bytes) × (start end : ℕ) × (txs : List WrappedBtcDepositTx) × Has
      (λ e. e ≡ env)
      windows
    × (start ≤ 4600)
    × (4600 ≤ end)
    × ReadWindow small_encoding bnb_relayer env start end txs
    × Covers same_chain_txid (scan_loop small_encoding bnb_relayer windows at_3500).wrapped txs
scan_loop-Covers_example =
    scan_loop-Covers small_encoding bnb_relayer windows 3500 4986 4600 at_3500
      windows-IsLawfulWindow at_3500-stored (omega arith) windows-reached (omega arith)
      (omega arith)

-- The node has seen every event.
abbrev seen : LorenzoClient
seen = record lorenzo { create_btcb_staking = λ msg. err (message "duplicate event") }

abbrev pub seen_env : WrappedEnv
seen_env = record {
  lorenzo = seen;
  wrapped_db = table WrappedBtcDepositTx;
  quit_closed = λ i. false;
}

abbrev pub wrapped_row : ℕ → WrappedBtcDepositTx
wrapped_row status = record {
  chain = "bnb";
  txid = "0xa";
  height = 3501;
  block_hash = "0xb";
  block_time = 1700000000;
  receipt = "1101110";
  proof = "10";
  status = status;
}

abbrev one_pending : WrappedSubmission
one_pending = record { wrapped = wrapped_row 0 ∷ []; sent = [] }

submit_wrapped-Settled_example :
    Settled small_encoding bnb_relayer seen_env
      (wrapped_row 0)
      one_pending.wrapped
      (submit_wrapped small_encoding bnb_relayer seen_env (wrapped_row 0) one_pending).wrapped
submit_wrapped-Settled_example =
    submit_wrapped-Settled small_encoding bnb_relayer seen_env (table-IsLawful WrappedBtcDepositTx)
      (wrapped_row 0) one_pending

abbrev one_receipt : List (ReceiptWithProof Bytes Bytes)
one_receipt = receipt_at "0xa" 3501 ∷ []

one_receipt-row : to_wrapped_list small_encoding bnb_relayer one_receipt ≡ ok (wrapped_row 0 ∷ [])
unfolding to_wrapped_list tallies
one_receipt-row = refl

to_wrapped_list-Carries_example :
    Each (Carries small_encoding bnb_relayer seen_env one_pending) one_receipt (wrapped_row 0 ∷ [])
to_wrapped_list-Carries_example =
    to_wrapped_list-Carries small_encoding bnb_relayer seen_env small_encoding-IsInverse one_pending
      one_receipt (wrapped_row 0 ∷ []) one_receipt-row
