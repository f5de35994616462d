-- ===== src/Tests/Events.antt =====
-- The BNB scanner with the client of the window of three events.
use mathlib.Core.Path.{subst}
use mathlib.Core.List.Perm
use lorenzo_btcstaking_submi.Base.{
  ℕ, ◌+◌, ◌≤◌, ◌≡◌, refl, none, List, [], ◌∷◌, arith, Has, here, there, add_u64, sub_u64, ok, done,
}
use lorenzo_btcstaking_submi.Strconv.{parse_uint, format_uint}
use lorenzo_btcstaking_submi.Db.Types.{Config, WrappedBtcDepositTx}
use lorenzo_btcstaking_submi.Db.Orm.{first_row}
use lorenzo_btcstaking_submi.Db.Kv.{get_uint64, set_uint64}
use lorenzo_btcstaking_submi.Db.Kv.SyncPoint.{stored}
use lorenzo_btcstaking_submi.Db.BnbRepository.{
  get_sync_point, update_sync_point, insert_wrapped_btc_deposit_txs,
}
use lorenzo_btcstaking_submi.BnbClient.Headers.{header_by_hash}
use lorenzo_btcstaking_submi.BnbClient.{receipts_by_block_hash}
use lorenzo_btcstaking_submi.BnbClient.StakePlan.{
  StakePlanEvent, get_stake_plan_events, get_receipts_with_proof, block_hash_set,
}
use lorenzo_btcstaking_submi.TxRelayer.Bnb.{ReceiptWithProof, Encoding, BnbClient, to_wrapped_list}
use lorenzo_btcstaking_submi.TxRelayer.Bnb.Scan.{WindowEnv, window_end, scan_round, scan_loop}
use lorenzo_btcstaking_submi.TxRelayer.Bnb.Scan.Windows.{IsLawfulWindow, bnb_point_of}
use lorenzo_btcstaking_submi.TxRelayer.Bnb.Scan.Events.{Implements, Recorded, scan_loop-Recorded}
use lorenzo_btcstaking_submi.Tests.Table.{table, table-IsLawful}
use lorenzo_btcstaking_submi.Tests.Bnb.{bnb_relayer, at_3500, at_3500-stored}
use lorenzo_btcstaking_submi.Tests.StakePlan.{
  place_lru, Entry, place-IsFaithfulLru, ethereum, filter_logs, node, hash_of, gen_receipt_proof,
  empty, filled, proof, empty-Keyed,
}

abbrev both : List (ReceiptWithProof ℕ ℕ)
both = proof "0xt" 1 ∷ proof "0xu" 2 ∷ []

abbrev encoding : Encoding ℕ ℕ
encoding = record {
  encode_receipt = λ receipt. ok (receipt.body ∷ []);
  encode_proof = λ proof. ok (proof ∷ []);
  hex_encode = λ bytes. "0x";
  hex_decode = λ text. ok [];
}

abbrev client : BnbClient ℕ ℕ
client = record { block_number = (5000, none); receipts_with_proof = λ hub start stop. ok both }

abbrev window : WindowEnv ℕ ℕ
window = record {
  client = client;
  config_db = table Config;
  wrapped_db = table WrappedBtcDepositTx;
}

window-IsLawfulWindow : IsLawfulWindow window
window-IsLawfulWindow = record {
  config_lawful = table-IsLawful Config;
  wrapped_lawful = table-IsLawful WrappedBtcDepositTx;
  tip_fits = omega arith;
}

run_of_window :
    (start stop : ℕ)
    → get_receipts_with_proof place_lru place_lru hash_of
        (λ r. r.body)
        gen_receipt_proof
        ethereum
        filter_logs
        (λ entries. entries)
        node
        "0xhub"
        start
        stop
        empty
      ≡ done (ok both, filled)
unfolding get_receipts_with_proof get_stake_plan_events block_hash_set header_by_hash
    receipts_by_block_hash
run_of_window start stop = refl

abbrev window-Implements :
    Implements place_lru place_lru hash_of
      (λ r. r.body)
      gen_receipt_proof
      Entry
      place-IsFaithfulLru
      ethereum
      encoding
      bnb_relayer
      window
window-Implements = record {
  filter_logs = filter_logs;
  node = node;
  order = λ entries. entries;
  reorders = λ entries. Perm.refl entries;
  caches = empty;
  keyed = empty-Keyed;
  runs = λ start stop list answer. (
    filled,
    subst
        (λ found.
          get_receipts_with_proof place_lru place_lru hash_of (λ r. r.body) gen_receipt_proof
            ethereum filter_logs (λ entries. entries) node "0xhub" start stop empty
          ≡ done (found, filled))
        answer (run_of_window start stop),
  );
}

abbrev one_window : List (WindowEnv ℕ ℕ)
one_window = window ∷ []

abbrev implemented :
    (env : WindowEnv ℕ ℕ)
    → Has (λ e. e ≡ env) one_window
    → Implements place_lru place_lru hash_of
        (λ r. r.body)
        gen_receipt_proof
        Entry
        place-IsFaithfulLru
        ethereum
        encoding
        bnb_relayer
        env
implemented env (here e) =
    subst
      (Implements place_lru place_lru hash_of (λ r. r.body) gen_receipt_proof Entry
        place-IsFaithfulLru ethereum encoding bnb_relayer)
      e window-Implements
implemented env (there h) = elim h [ ]

one_window-reached : bnb_point_of (scan_loop encoding bnb_relayer one_window at_3500) ≡ ok 4500
unfolding stored scan_loop scan_round window_end add_u64 sub_u64 get_sync_point update_sync_point
    get_uint64 set_uint64 parse_uint format_uint first_row to_wrapped_list
    insert_wrapped_btc_deposit_txs
one_window-reached = refl

scan_loop-Recorded_example :
    (env : WindowEnv ℕ ℕ) × (place : Has (λ e. e ≡ env) one_window) × (start stop : ℕ)
    × (events : List StakePlanEvent) × (start ≤ 4000)
    × (4000 ≤ stop)
    × (stop + 15 ≤ env.client.block_number.0)
    × (get_stake_plan_events ethereum (implemented env place).filter_logs "0xhub" start stop
        ≡ done (ok events))
    × Recorded place_lru place_lru hash_of
        (λ r. r.body)
        gen_receipt_proof
        Entry
        place-IsFaithfulLru
        ethereum
        encoding
        bnb_relayer
        (scan_loop encoding bnb_relayer one_window at_3500).wrapped
        events
scan_loop-Recorded_example =
    scan_loop-Recorded place_lru place_lru hash_of (λ r. r.body) gen_receipt_proof Entry
      place-IsFaithfulLru ethereum encoding bnb_relayer one_window 3500 4500 4000 at_3500
      (window-IsLawfulWindow, tt) implemented at_3500-stored (omega arith) one_window-reached
      (omega arith) (omega arith)
