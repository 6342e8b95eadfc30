-- ===== src/State/Handlers/Admission.antt =====
-- src/workflowState.ts: the admission of an agent to a run and to its phase.
use workflow_mcp.Common.{
  ℕ, String, Option, none, some, List, [], ◌∷◌, ◌++◌, any, find, ◌==◌, Result, ok, ◌>>=◌, ◌>>◌,
  throw_if, sort_by,
}
use workflow_mcp.Events.{AgentAdmitted}
use workflow_mcp.State.Snapshot.{
  WorkflowAgentStatus, WorkflowAgentSnapshot, WorkflowPhaseSnapshot, WorkflowSnapshot,
}
use workflow_mcp.State.Update.{ReduceError, repeated_agent, repeated_call_index, has_agent_id}
use workflow_mcp.State.Handlers.Phase.{change_phase}

abbrev pub new_agent : String → String → Option String → AgentAdmitted → WorkflowAgentSnapshot
new_agent timestamp agent_id phase_id payload = record {
  id = agent_id;
  call_index = payload.call_index;
  label = payload.label;
  phase_id = phase_id;
  prompt = payload.prompt;
  options = payload.options;
  cache_key = payload.cache_key;
  status = WorkflowAgentStatus.admitted;
  admitted_at = timestamp;
  queued_at = none;
  queue_reason = none;
  started_at = none;
  completed_at = none;
  outcome = none;
  error = none;
  skipped_reason = none;
  cancelled_reason = none;
  workspace = none;
  retry = none;
  attempts = [];
}

-- `agents.find(...)?.callIndex ?? 0`.
abbrev index_of : Option WorkflowAgentSnapshot → ℕ
index_of none = 0
index_of (some agent) = agent.call_index

unfoldable pub call_index_of : List WorkflowAgentSnapshot → String → ℕ
call_index_of agents id = index_of (find (has_agent_id id) agents)

abbrev pub add_member :
    List WorkflowAgentSnapshot → String → WorkflowPhaseSnapshot → WorkflowPhaseSnapshot
add_member agents agent_id phase = record phase {
  agent_ids = sort_by (call_index_of agents) (phase.agent_ids ++ agent_id ∷ []);
}

unfoldable pub join_phase :
    Option String → String → WorkflowSnapshot → Result ReduceError WorkflowSnapshot
join_phase none agent_id s = ok s
join_phase (some phase_id) agent_id s = do
  phases ← change_phase phase_id (λ phase. ok (add_member s.agents agent_id phase)) s.phases
  ok (record s { phases = phases })

abbrev pub sort_agents : List WorkflowAgentSnapshot → List WorkflowAgentSnapshot
sort_agents = sort_by λ agent. agent.call_index

unfoldable pub admit_agent :
    String
    → String
    → Option String
    → AgentAdmitted
    → WorkflowSnapshot
    → Result ReduceError WorkflowSnapshot
unfolding join_phase
admit_agent timestamp agent_id phase_id payload s = do
  throw_if (any (has_agent_id agent_id) s.agents) (repeated_agent agent_id)
  throw_if (any (λ agent. agent.call_index == payload.call_index) s.agents)
      (repeated_call_index payload.call_index)
  let agent = new_agent timestamp agent_id phase_id payload
  join_phase phase_id agent_id (record s { agents = sort_agents (s.agents ++ agent ∷ []) })
