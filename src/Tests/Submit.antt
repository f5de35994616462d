-- ===== src/Tests/Submit.antt =====
-- The submitter on a small table.
use lorenzo_btcstaking_submi.Base.{
  ◌≡◌, refl, [], ◌∷◌, bytes_eq, sub_u64, Each, arith, keep, take, length,
}
use lorenzo_btcstaking_submi.Db.Types.{BtcDepositTx}
use lorenzo_btcstaking_submi.TxRelayer.Agents.{get_agent_by_address}
use lorenzo_btcstaking_submi.TxRelayer.Submit.{
  Submitter, SubmitEnv, SubmitState, submit_tx, submit_round, submit_loop,
  new_msg_create_btc_staking,
}
use lorenzo_btcstaking_submi.TxRelayer.Submit.Final.{Progress, submit_round-Progress}
use lorenzo_btcstaking_submi.Btc.Query.{get_tx_block_proof, get_tx_bytes}
use lorenzo_btcstaking_submi.Db.BtcRepository.{
  is_unhandled, get_unhandled_btc_deposit_txs, update_tx_status,
}
use lorenzo_btcstaking_submi.TxRelayer.Submit.Marks.{Handled, submit_tx-Handled}
use lorenzo_btcstaking_submi.TxRelayer.Submit.Clears.{IsDecisive, known, ready}
use lorenzo_btcstaking_submi.TxRelayer.Submit.Drained.{IsServing, submit_loop-Drains}
use lorenzo_btcstaking_submi.Tests.Table.{table, table-IsLawful, table-IsReliable, sort}
use lorenzo_btcstaking_submi.Tests.World.{
  two_agents, http_up, codec, query, row, lorenzo, small_keeper,
}

abbrev pub submitter : Submitter
submitter = record { submitter = "lrz1submitter"; btc_query = query }

abbrev pub submit_env : SubmitEnv
submit_env = record {
  http = http_up;
  lorenzo = lorenzo;
  agents = two_agents;
  deposit_db = table BtcDepositTx;
}

abbrev pub pending_rows : SubmitState
pending_rows = record {
  deposits = row "tx-a" 1000 90 0 ∷ row "tx-staked" 3000000 100 0 ∷ [];
  sent = [];
}

submit_tx-Handled_example :
    Handled small_keeper codec submitter submit_env
      (row "tx-a" 1000 90 0)
      pending_rows.deposits
      (submit_tx small_keeper codec submitter submit_env
        (row "tx-a" 1000 90 0)
        pending_rows).deposits
submit_tx-Handled_example =
    submit_tx-Handled small_keeper codec submitter submit_env (table-IsLawful BtcDepositTx)
      (row "tx-a" 1000 90 0) pending_rows

submit_round-Progress_example :
    Each
      (Progress small_keeper codec submitter submit_env)
      pending_rows.deposits
      (submit_round small_keeper codec submitter submit_env pending_rows).deposits
submit_round-Progress_example =
    submit_round-Progress small_keeper codec submitter submit_env (table-IsLawful BtcDepositTx)
      pending_rows (refl, (refl, tt))

-- Both deposits end as successes, and one message was sent.
pending_rows-round : submit_round small_keeper codec submitter submit_env pending_rows ≡ record {
  deposits = row "tx-a" 1000 90 1 ∷ row "tx-staked" 3000000 100 1 ∷ [];
  sent =
      record {
        signer = "lrz1submitter";
        agent_id = 1;
        staking_tx = record {
          key = record { index = 0; hash = 171 ∷ [] };
          proof = 171 ∷ [];
          transaction = 1 ∷ [];
        };
      }
      ∷ [];
}
unfolding submit_round get_unhandled_btc_deposit_txs sort sub_u64 get_tx_block_proof get_tx_bytes
    get_agent_by_address new_msg_create_btc_staking update_tx_status bytes_eq
pending_rows-round = refl

a-IsDecisive : IsDecisive small_keeper codec submitter submit_env "tx-a"
unfolding get_tx_block_proof get_tx_bytes
a-IsDecisive = ready (171 ∷ []) (1 ∷ []) refl refl refl (λ msg e failed. cc)

serves : IsServing small_keeper codec submitter 110 pending_rows.deposits submit_env
unfolding get_unhandled_btc_deposit_txs
serves = record {
  reliable = table-IsReliable BtcDepositTx;
  lawful = table-IsLawful BtcDepositTx;
  at_tip = refl;
  finds = λ rows. (take 50 (sort (λ row. row.height) (keep (is_unhandled 110) rows)), refl);
  decides = (a-IsDecisive, (known (1 ∷ []) refl, tt));
}

two_wait : length (keep (is_unhandled 110) pending_rows.deposits) ≡ 2
unfolding is_unhandled sub_u64
two_wait = refl

submit_loop-Drains_example :
    keep
      (is_unhandled 110)
      (submit_loop small_keeper codec submitter
        (submit_env ∷ submit_env ∷ [])
        pending_rows).deposits
    ≡ []
submit_loop-Drains_example =
    submit_loop-Drains small_keeper codec submitter (submit_env ∷ submit_env ∷ []) 110 pending_rows
      (serves, (serves, tt)) (refl, (refl, tt)) (omega (arith, two_wait))
