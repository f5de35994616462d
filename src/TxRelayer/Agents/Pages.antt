-- ===== src/TxRelayer/Agents/Pages.antt =====
-- `updateAgentsList` of txrelayer/tx_relayer.go, page by page.
use lorenzo_btcstaking_submi.Base.{
  ℕ, zero, suc, ◌<◌, eq_iff, ◌≡◌, refl, true, Option, none, some, List, [], ◌∷◌, ◌++◌, arith, Bytes,
  ok, err, Error, done,
}
use mathlib.Core.List.{append_assoc}
use lorenzo_btcstaking_submi.TxRelayer.Agents.{
  Agent, AgentsPage, AgentsQuery, agent_eq, agents_eq, collect_agents, keep_or_replace,
  update_agents_list,
}

module _ (query : AgentsQuery) where
  -- From `key` on the node serves `n` pages that name a next one, then a last one; together they
  -- hold the agents `all`.
  abbrev pub Serves : ℕ → Option Bytes → List Agent → Type 0
  Serves zero key all =
      (page : AgentsPage) × (query key ≡ ok page) × (page.next_key ≡ none) × (all ≡ page.agents)
  Serves (suc n) key all =
      (page : AgentsPage) × (next : Bytes) × (rest : List Agent) × (query key ≡ ok page)
      × (page.next_key ≡ some next)
      × Serves n (some next) rest
      × (all ≡ page.agents ++ rest)

  -- From `key` on the node serves `n` pages, and then fails.
  abbrev pub Breaks : ℕ → Option Bytes → Error → Type 0
  Breaks zero key e = query key ≡ err e
  Breaks (suc n) key e =
      (page : AgentsPage) × (next : Bytes) × (query key ≡ ok page)
      × (page.next_key ≡ some next)
      × Breaks n (some next) e

  collect_agents-Serves :
      (n fuel : ℕ) (key : Option Bytes) (all agents : List Agent)
      → n < fuel
      → Serves n key all
      → collect_agents fuel query key agents ≡ done (ok (agents ++ all))
  unfolding collect_agents
  collect_agents-Serves n zero key all agents lt s = elim lt [ ]
  collect_agents-Serves zero (suc fuel) key all agents lt (page, q, l, e) = ground arith
  collect_agents-Serves (suc n) (suc fuel) key all agents lt (page, next, rest, q, l, s, e) =
      ground (
        arith,
        collect_agents-Serves n fuel (some next) rest (agents ++ page.agents) (omega arith) s,
        append_assoc agents page.agents rest,
      )

  collect_agents-Breaks :
      (n fuel : ℕ) (key : Option Bytes) (e : Error) (agents : List Agent)
      → n < fuel
      → Breaks n key e
      → collect_agents fuel query key agents ≡ done (err e)
  unfolding collect_agents
  collect_agents-Breaks n zero key e agents lt b = elim lt [ ]
  collect_agents-Breaks zero (suc fuel) key e agents lt q = ground arith
  collect_agents-Breaks (suc n) (suc fuel) key e agents lt (page, next, q, l, b) =
      ground
        (arith, collect_agents-Breaks n fuel (some next) e (agents ++ page.agents) (omega arith) b)

agent_eq_eq : (a b : Agent) → agent_eq a b ≡ true → a ≡ b
unfolding agent_eq
agent_eq_eq a b h = ground (
  arith,
  eq_iff a.name b.name,
  eq_iff a.btc_receiving_address b.btc_receiving_address,
  eq_iff a.eth_addr b.eth_addr,
  eq_iff a.description b.description,
  eq_iff a.url b.url,
)

agents_eq_eq : (xs ys : List Agent) → agents_eq xs ys ≡ true → xs ≡ ys
unfolding agents_eq
agents_eq_eq [] [] h = refl
agents_eq_eq [] (b ∷ ys) h = cc
agents_eq_eq (a ∷ xs) [] h = cc
agents_eq_eq (a ∷ xs) (b ∷ ys) h = ground (arith, agent_eq_eq a b, agents_eq_eq xs ys)

pub keep_or_replace_lem : (current agents : List Agent) → keep_or_replace current agents ≡ agents
unfolding keep_or_replace
keep_or_replace_lem [] agents = refl
keep_or_replace_lem (a ∷ xs) agents = ground (arith, agents_eq_eq (a ∷ xs) agents)

-- With more rounds than pages, a refresh whose pages all arrive returns no error and leaves the
-- agents of all pages, in order, whatever the list was before.
pub update_agents_list-Serves :
    (query : AgentsQuery) (n fuel : ℕ) (all current : List Agent)
    → n < fuel
    → Serves query n none all
    → update_agents_list fuel query current ≡ done (ok tt, all)
unfolding update_agents_list
update_agents_list-Serves query n fuel all current lt s =
    ground
      (arith, collect_agents-Serves query n fuel none all [] lt s, keep_or_replace_lem current all)

-- With more rounds than pages, a refresh that loses a page returns the error and leaves the list as
-- it was.
pub update_agents_list-Breaks :
    (query : AgentsQuery) (n fuel : ℕ) (e : Error) (current : List Agent)
    → n < fuel
    → Breaks query n none e
    → update_agents_list fuel query current ≡ done (err e, current)
unfolding update_agents_list
update_agents_list-Breaks query n fuel e current lt b =
    ground (arith, collect_agents-Breaks query n fuel none e [] lt b)
