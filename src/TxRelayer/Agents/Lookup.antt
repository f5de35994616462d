-- ===== src/TxRelayer/Agents/Lookup.antt =====
-- `GetAgentByAddress` and `IsValidDepositReceiver` of txrelayer/tx_relayer.go.
use lorenzo_btcstaking_submi.Base.{
  String, str_eq, ◌≡◌, true, none, some, List, [], ◌∷◌, arith, eq_iff, ◌↔◌, ◌≢◌, Has, here, there,
  Bool-cases, inl, inr,
}
use lorenzo_btcstaking_submi.TxRelayer.Agents.{
  Agent, get_agent_by_address, is_valid_deposit_receiver,
}

-- An agent that is found for an address has the address, and is one of the list's.
pub get_agent_by_address-Has :
    (agents : List Agent) (addr : String) (agent : Agent)
    → get_agent_by_address agents addr ≡ some agent
    → (agent.btc_receiving_address ≡ addr) × Has (λ a. a ≡ agent) agents
unfolding get_agent_by_address
get_agent_by_address-Has [] addr agent h = cc
get_agent_by_address-Has (a ∷ agents) addr agent h =
    elim (Bool-cases (str_eq a.btc_receiving_address addr)) [
      | inl same ↦
          let found : some a ≡ some agent = rw same at h in
          (ground (arith, eq_iff a.btc_receiving_address addr), here (ground arith))
      | inr other ↦
          let (at_addr, place) = get_agent_by_address-Has agents addr agent (rw other at h) in
          (at_addr, there place)
    ]

-- An address is a receiver's exactly when an agent is found for it.
pub is_valid_deposit_receiver_iff :
    (agents : List Agent) (addr : String)
    → (is_valid_deposit_receiver agents addr ≡ true) ↔ (get_agent_by_address agents addr ≢ none)
unfolding get_agent_by_address is_valid_deposit_receiver
is_valid_deposit_receiver_iff [] addr = ground arith
is_valid_deposit_receiver_iff (a ∷ agents) addr =
    ground (arith, is_valid_deposit_receiver_iff agents addr)
