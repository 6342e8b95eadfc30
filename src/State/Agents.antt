-- ===== src/State/Agents.antt =====
-- The agents of a run in src/workflowState.ts across one event.
pub mod Changes
pub mod Steps
use workflow_mcp.Common.{
  ◌≡◌, refl, sym, ◌∙◌, subst, ◌≢◌, ◌<◌, String, Option, List, [], ◌∷◌, ◌++◌, arith, All, Pairwise,
  All-append, Pairwise-append_one, Result, ok, ◌>>=◌, >>=-eq-ok, modify_first,
  modify_first-Modifies, Ascending, Ascending-distinct, sort_by-Ascending, sort_by-Pairwise,
  All-sort_by, Along, Along-set, All-Along, Pairwise-Along,
}
use workflow_mcp.State.Snapshot.{WorkflowAgentSnapshot, WorkflowSnapshot}
use workflow_mcp.State.Update.{ReduceError, update_agent, has_agent_id}
use workflow_mcp.State.Attempts.{AttemptsWell}
use workflow_mcp.State.Handlers.Admission.{sort_agents}

-- The second agent is a later state of the first.
pub record Evolves (x y : WorkflowAgentSnapshot) : Type 0 where
  pub id : y.id ≡ x.id
  pub call_index : y.call_index ≡ x.call_index
  pub phase_id : y.phase_id ≡ x.phase_id
  pub attempts : AttemptsWell x.attempts → AttemptsWell y.attempts

pub Evolves-refl : (x : WorkflowAgentSnapshot) → Evolves x x
Evolves-refl x = record { id = refl; call_index = refl; phase_id = refl; attempts = λ w. w }

pub Evolves-trans : (x y z : WorkflowAgentSnapshot) → Evolves x y → Evolves y z → Evolves x z
Evolves-trans x y z f g = record {
  id = g.id ∙ f.id;
  call_index = g.call_index ∙ f.call_index;
  phase_id = g.phase_id ∙ f.phase_id;
  attempts = λ w. g.attempts (f.attempts w);
}

-- The same agents in the same order, each in a later state.
abbrev pub Evolved : List WorkflowAgentSnapshot → List WorkflowAgentSnapshot → Type 0
Evolved = Along Evolves

-- `updateAgent` with a change that keeps what an agent is.
pub update_agent-Evolved :
    (id : String) (update : WorkflowAgentSnapshot → Result ReduceError WorkflowAgentSnapshot)
    (s t : WorkflowSnapshot)
    → ((x y : WorkflowAgentSnapshot) → update x ≡ ok y → Evolves x y)
    → update_agent id update s ≡ ok t
    → Evolved s.agents t.agents
unfolding update_agent
update_agent-Evolved id update s t same h =
    let (agents, modified, e) = >>=-eq-ok (modify_first _ _ _ update s.agents) _ h in
    let (i, x, y, at, found, hit, changed, e') =
      modify_first-Modifies _ _ _ update s.agents agents modified in
    subst (Evolved s.agents) (sym e' ∙ ground arith)
      (Along-set Evolves Evolves-refl s.agents i x y found (same x y changed))

-- No two agents share an identity, their call indices ascend, and their attempts are in order.
pub record AgentsWell (agents : List WorkflowAgentSnapshot) : Type 0 where
  pub ids : Pairwise (λ a b. a.id ≢ b.id) agents
  pub order : Ascending (λ a. a.call_index) agents
  pub attempts : All (λ a. AttemptsWell a.attempts) agents

-- One event lets every agent evolve, or admits one.
pub data AgentsStep (xs ys : List WorkflowAgentSnapshot) : Type 0 where
  evolve : Evolved xs ys → AgentsStep xs ys
  admit :
      (agent : WorkflowAgentSnapshot)
      → All (λ a. a.id ≢ agent.id) xs
      → All (λ a. a.call_index ≢ agent.call_index) xs
      → agent.attempts ≡ []
      → ys ≡ sort_agents (xs ++ agent ∷ [])
      → AgentsStep xs ys

Evolved-AgentsWell :
    (xs ys : List WorkflowAgentSnapshot) → Evolved xs ys → AgentsWell xs → AgentsWell ys
Evolved-AgentsWell xs ys e w = record {
  ids =
      Pairwise-Along Evolves (λ a b. a.id ≢ b.id) (λ x y z v f g n p. n (sym f.id ∙ p ∙ g.id)) xs ys
        e w.ids;
  order =
      Pairwise-Along Evolves (λ a b. a.call_index < b.call_index)
        (λ x y z v f g r. omega (arith, f.call_index, g.call_index)) xs ys e w.order;
  attempts =
      All-Along Evolves (λ a. AttemptsWell a.attempts) (λ x y f h. f.attempts h) xs ys e w.attempts;
}

no_attempts : AttemptsWell []
no_attempts = record { ids = tt; numbers = tt; activities = tt }

admit-AgentsWell :
    (xs : List WorkflowAgentSnapshot) (agent : WorkflowAgentSnapshot)
    → All (λ a. a.id ≢ agent.id) xs
    → All (λ a. a.call_index ≢ agent.call_index) xs
    → agent.attempts ≡ []
    → AgentsWell xs
    → AgentsWell (sort_agents (xs ++ agent ∷ []))
admit-AgentsWell xs agent fresh other idle w = record {
  ids =
      sort_by-Pairwise _ (λ a b. a.id ≢ b.id) (λ a b n p. n (sym p)) (xs ++ agent ∷ [])
        (Pairwise-append_one (λ a b. a.id ≢ b.id) xs agent w.ids fresh);
  order = sort_by-Ascending _ (xs ++ agent ∷ []) (
      Pairwise-append_one (λ a b. a.call_index ≢ b.call_index) xs agent
        (Ascending-distinct _ xs w.order) other);
  attempts =
      All-sort_by _ (λ a. AttemptsWell a.attempts) (xs ++ agent ∷ [])
        (All-append (λ a. AttemptsWell a.attempts) xs (agent ∷ []) w.attempts
          (rw idle no_attempts, tt));
}

pub AgentsStep-AgentsWell :
    (xs ys : List WorkflowAgentSnapshot) → AgentsStep xs ys → AgentsWell xs → AgentsWell ys
AgentsStep-AgentsWell xs ys (evolve e) w = Evolved-AgentsWell xs ys e w
AgentsStep-AgentsWell xs ys (admit agent fresh other idle e) w =
    rw e (admit-AgentsWell xs agent fresh other idle w)
