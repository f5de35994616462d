-- ===== src/TxRelayer/Agents.antt =====
-- The relayer's list of agents: its lookups, and its refresh from the Lorenzo node page by page. A
-- Go slice that grew by `append` from nil is nil exactly when it is empty.
pub mod Pages
pub mod Loop
pub mod Lookup
use lorenzo_btcstaking_submi.Base.{
  ℕ, zero, suc, String, str_eq, Bool, true, false, ◌&&◌, Option, none, some, List, [], ◌∷◌, ◌++◌,
  Bytes, ◌==◌, if◌then◌else◌, Result, ok, err, Run, done, panicked, spinning, then_run,
}

pub record Agent : Type 0 where
  pub id : ℕ
  pub name : String
  pub btc_receiving_address : String
  pub eth_addr : String
  pub description : String
  pub url : String

-- What `lorenzoClient.Agents` answers: a page, and the key of the next one.
pub record AgentsPage : Type 0 where
  pub agents : List Agent
  pub next_key : Option Bytes

abbrev pub AgentsQuery : Type 0
AgentsQuery = Option Bytes → Result AgentsPage

unfoldable pub get_agent_by_address : List Agent → String → Option Agent
get_agent_by_address [] addr = none
get_agent_by_address (agent ∷ agents) addr =
    if str_eq agent.btc_receiving_address addr
    then some (record {
      id = agent.id;
      name = agent.name;
      btc_receiving_address = agent.btc_receiving_address;
      eth_addr = agent.eth_addr;
      description = agent.description;
      url = agent.url;
    })
    else get_agent_by_address agents addr

unfoldable pub is_valid_deposit_receiver : List Agent → String → Bool
is_valid_deposit_receiver [] addr = false
is_valid_deposit_receiver (agent ∷ agents) addr =
    if str_eq agent.btc_receiving_address addr then true else is_valid_deposit_receiver agents addr

agent_eq : Agent → Agent → Bool
agent_eq a b =
    a.id == b.id
    && str_eq a.name b.name
    && str_eq a.btc_receiving_address b.btc_receiving_address
    && str_eq a.eth_addr b.eth_addr
    && str_eq a.description b.description
    && str_eq a.url b.url

-- `reflect.DeepEqual` on two lists of agents.
agents_eq : List Agent → List Agent → Bool
unfolding agent_eq
agents_eq [] [] = true
agents_eq (a ∷ xs) (b ∷ ys) = agent_eq a b && agents_eq xs ys
agents_eq _ _ = false

-- The loop over the pages. The node could name a next page for ever.
collect_agents : ℕ → AgentsQuery → Option Bytes → List Agent → Run (Result (List Agent))
collect_agents zero query next_key agents = spinning
collect_agents (suc fuel) query next_key agents = elim (query next_key) [
  | err e ↦ done (err e)
  | ok page ↦ elim page.next_key [
    | none ↦ done (ok (agents ++ page.agents))
    | some key ↦ collect_agents fuel query (some key) (agents ++ page.agents)
  ]
]

pub keep_or_replace : List Agent → List Agent → List Agent
unfolding agents_eq
keep_or_replace [] agents = agents
keep_or_replace (a ∷ xs) agents = if agents_eq (a ∷ xs) agents then a ∷ xs else agents

-- The error that is returned, and `r.agents` after the call.
unfoldable pub update_agents_list :
    ℕ → AgentsQuery → List Agent → Run (Result (Unit {0}) × List Agent)
unfolding collect_agents keep_or_replace
update_agents_list fuel query current = elim (collect_agents fuel query none []) [
  | done (err e) ↦ done (err e, current)
  | done (ok agents) ↦ done (ok tt, keep_or_replace current agents)
  | panicked ↦ panicked
  | spinning ↦ spinning
]

-- `updateAgentsListLoop`, with the node's answers in each pass; an error is only logged.
unfoldable pub update_agents_list_loop : ℕ → List AgentsQuery → List Agent → Run (List Agent)
unfolding update_agents_list
update_agents_list_loop fuel [] current = done current
update_agents_list_loop fuel (query ∷ queries) current =
    then_run (update_agents_list fuel query current)
      λ updated. update_agents_list_loop fuel queries updated.1
