-- ===== src/Tests/Btc.antt =====
-- The payments of concrete transactions, and a refresh of the agents over two pages.
use lorenzo_btcstaking_submi.Base.{
  ℕ, ◌%◌, ◌≡◌, ◌⊎◌, List, Has, err, message, refl, bytes_eq, add_u64, Bytes, none, some, [], ◌∷◌,
  arith, u64_mod, ok, done,
}
use lorenzo_btcstaking_submi.Btc.Utils.{extract_payment_to_with_op_return_id}
use lorenzo_btcstaking_submi.Btc.Utils.Payments.{
  paid, truncated, last_id, with_id, extract_with_id-last_id,
}
use lorenzo_btcstaking_submi.TxRelayer.Agents.{
  AgentsQuery, update_agents_list, update_agents_list_loop,
}
use lorenzo_btcstaking_submi.TxRelayer.Agents.Loop.{update_agents_list_loop-Serves}
use lorenzo_btcstaking_submi.TxRelayer.Agents.Pages.{Serves, update_agents_list-Serves}
use lorenzo_btcstaking_submi.Tests.World.{
  small_btcd, agent, safe, two_agents, agent_script, deposit_msg,
}

-- The amount and the identifier that the code computes.
deposit_msg-value :
    extract_payment_to_with_op_return_id small_btcd deposit_msg agent_script
    ≡ done (ok (1200000, 7 ∷ 8 ∷ []))
unfolding extract_payment_to_with_op_return_id bytes_eq add_u64
deposit_msg-value = refl

extract_with_id-last_id_example :
    extract_payment_to_with_op_return_id small_btcd deposit_msg agent_script
    ≡ done (
        with_id small_btcd
          (paid agent_script deposit_msg.tx_out % u64_mod)
          (last_id small_btcd agent_script deposit_msg.tx_out none))
unfolding truncated bytes_eq
extract_with_id-last_id_example =
    extract_with_id-last_id small_btcd deposit_msg agent_script agent_script refl refl

abbrev page_key : Bytes
page_key = 9 ∷ []

-- Two pages of one agent each.
abbrev two_pages : AgentsQuery
two_pages none = ok (record { agents = agent ∷ []; next_key = some page_key })
two_pages (some key) = ok (record { agents = safe ∷ []; next_key = none })

update_agents_list-Serves_example :
    update_agents_list 3 two_pages (safe ∷ []) ≡ done (ok tt, two_agents)
update_agents_list-Serves_example =
    update_agents_list-Serves two_pages 1 3 two_agents (safe ∷ []) (omega arith) (
      record { agents = agent ∷ []; next_key = some page_key },
      page_key,
      safe ∷ [],
      refl,
      refl,
      (record { agents = safe ∷ []; next_key = none }, refl, refl, refl),
      refl,
    )

-- The node is down in the first pass.
abbrev two_passes : List AgentsQuery
two_passes = (λ key. err (message "timeout")) ∷ two_pages ∷ []

two_passes-run : update_agents_list_loop 3 two_passes (safe ∷ []) ≡ done two_agents
unfolding update_agents_list_loop update_agents_list
two_passes-run = refl

update_agents_list_loop-Serves_example :
    (two_agents ≡ safe ∷ []) ⊎ Has (λ query. (n : ℕ) × Serves query n none two_agents) two_passes
update_agents_list_loop-Serves_example =
    update_agents_list_loop-Serves 3 two_passes (safe ∷ []) two_agents two_passes-run
