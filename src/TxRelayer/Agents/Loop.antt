-- ===== src/TxRelayer/Agents/Loop.antt =====
-- `updateAgentsListLoop` of txrelayer/tx_relayer.go: the list of agents after some passes.
use mathlib.Core.Path.{subst}
use mathlib.Core.List.{append_assoc}
use lorenzo_btcstaking_submi.Base.{
  ℕ, zero, suc, ◌≡◌, refl, sym, ◌∙◌, ◌⊎◌, inl, inr, Option, none, some, Option-cases, List, [], ◌∷◌,
  ◌++◌, arith, Bytes, ok, err, Result, Result-cases, Run, done, panicked, spinning, then_run-done,
  Has, here, there,
}
use lorenzo_btcstaking_submi.TxRelayer.Agents.{
  Agent, AgentsQuery, collect_agents, keep_or_replace, update_agents_list, update_agents_list_loop,
}
use lorenzo_btcstaking_submi.TxRelayer.Agents.Pages.{Serves, keep_or_replace_lem}

-- What is collected is what the node serves.
collect_agents_complete :
    (fuel : ℕ) (query : AgentsQuery) (key : Option Bytes) (acc all : List Agent)
    → collect_agents fuel query key acc ≡ done (ok all)
    → (n : ℕ) × (rest : List Agent) × Serves query n key rest × (all ≡ acc ++ rest)
unfolding collect_agents
collect_agents_complete zero query key acc all h = cc
collect_agents_complete (suc fuel) query key acc all h = elim (Result-cases (query key)) [
  | inr (e, failed) ↦ absurd (ground arith)
  | inl (page, got) ↦ elim (Option-cases page.next_key) [
    | inl last ↦ (0, page.agents, (page, got, last, refl), ground arith)
    | inr (next, more) ↦
        let (n, rest, serves, e) =
          collect_agents_complete fuel query (some next) (acc ++ page.agents) all (ground arith) in
        (
          suc n,
          page.agents ++ rest,
          (page, next, rest, got, more, serves, refl),
          e ∙ append_assoc acc page.agents rest,
        )
  ]
]

-- One pass.
update_agents_list_complete :
    (fuel : ℕ) (query : AgentsQuery) (current after : List Agent) (answer : Result (Unit {0}))
    → update_agents_list fuel query current ≡ done (answer, after)
    → (after ≡ current) ⊎ ((n : ℕ) × Serves query n none after)
unfolding update_agents_list
update_agents_list_complete fuel query current after answer h =
    collected (collect_agents fuel query none []) refl
  where
    collected :
        (r : Run (Result (List Agent)))
        → collect_agents fuel query none [] ≡ r
        → (after ≡ current) ⊎ ((n : ℕ) × Serves query n none after)
    collected (done (err e)) same = inl (ground arith)
    collected (done (ok agents)) same =
        let (n, rest, serves, e) = collect_agents_complete fuel query none [] agents same in
        let replaced : keep_or_replace current agents ≡ after = ground arith in
        let all : rest ≡ after = sym e ∙ sym (keep_or_replace_lem current agents) ∙ replaced in
        inr (n, subst (Serves query n none) all serves)
    collected panicked same = absurd (ground arith)
    collected spinning same = absurd (ground arith)

-- The list of agents is never a part of the node's pages: when a number of passes of
-- updateAgentsListLoop have returned, the list is as it was before or holds the agents of all
-- pages, from the first to the last, that the node served in one of the passes.
pub update_agents_list_loop-Serves :
    (fuel : ℕ) (queries : List AgentsQuery) (current after : List Agent)
    → update_agents_list_loop fuel queries current ≡ done after
    → (after ≡ current) ⊎ Has (λ query. (n : ℕ) × Serves query n none after) queries
unfolding update_agents_list_loop
update_agents_list_loop-Serves fuel [] current after h = inl (ground arith)
update_agents_list_loop-Serves fuel (query ∷ queries) current after h =
    let ((answer, between), e, g) = then_run-done (update_agents_list fuel query current) _ h in
    elim (update_agents_list_loop-Serves fuel queries between after g) [
      | inr later ↦ inr (there later)
      | inl same ↦ elim (update_agents_list_complete fuel query current between answer e) [
        | inl kept ↦ inl (same ∙ kept)
        | inr (n, serves) ↦ inr (here (n, subst (Serves query n none) (sym same) serves))
      ]
    ]
