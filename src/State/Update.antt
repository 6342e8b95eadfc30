-- ===== src/State/Update.antt =====
-- src/workflowState.ts: finding and replacing an agent or an attempt of a snapshot, and what the
-- reducer throws. An error carries the identity that its message names.
use workflow_mcp.Common.{ℕ, String, Bool, List, str_eq, Result, ok, ◌>>=◌, modify_first}
use workflow_mcp.State.Snapshot.{
  WorkflowRunStatus, WorkflowAttemptSnapshot, WorkflowAgentSnapshot, WorkflowSnapshot,
}

pub data ReduceError : Type 0 where
  wrong_run : String → String → ReduceError
  stale_sequence : ℕ → ℕ → ReduceError
  terminal_state : WorkflowRunStatus → ReduceError
  unknown_agent agent_disappeared : String → ReduceError
  unknown_attempt attempt_disappeared : String → ReduceError
  unknown_phase phase_disappeared repeated_phase : String → ReduceError
  unknown_activity activity_disappeared repeated_activity : String → ReduceError
  repeated_agent repeated_attempt : String → ReduceError
  repeated_call_index repeated_attempt_number : ℕ → ReduceError
  reuse_outside_journal reuse_with_attempt no_disposition : ReduceError

abbrev pub has_agent_id : String → WorkflowAgentSnapshot → Bool
has_agent_id id agent = str_eq agent.id id

abbrev pub has_attempt_id : String → WorkflowAttemptSnapshot → Bool
has_attempt_id id attempt = str_eq attempt.id id

unfoldable pub update_agent :
    String
    → (WorkflowAgentSnapshot → Result ReduceError WorkflowAgentSnapshot)
    → WorkflowSnapshot
    → Result ReduceError WorkflowSnapshot
update_agent agent_id update state = do
  agents ←
      modify_first (unknown_agent agent_id) (agent_disappeared agent_id) (has_agent_id agent_id)
        update state.agents
  ok (record state { agents = agents })

-- The attempts of an agent with one of them replaced.
unfoldable pub change_attempt :
    String
    → (WorkflowAttemptSnapshot → Result ReduceError WorkflowAttemptSnapshot)
    → List WorkflowAttemptSnapshot
    → Result ReduceError (List WorkflowAttemptSnapshot)
change_attempt attempt_id =
    modify_first (unknown_attempt attempt_id) (attempt_disappeared attempt_id)
      (has_attempt_id attempt_id)

-- The callback that `updateAttempt` hands to `updateAgent`.
unfoldable pub with_attempt :
    String
    → (WorkflowAttemptSnapshot → Result ReduceError WorkflowAttemptSnapshot)
    → WorkflowAgentSnapshot
    → Result ReduceError WorkflowAgentSnapshot
with_attempt attempt_id update agent = do
  attempts ← change_attempt attempt_id update agent.attempts
  ok (record agent { attempts = attempts })

unfoldable pub update_attempt :
    String
    → String
    → (WorkflowAttemptSnapshot → Result ReduceError WorkflowAttemptSnapshot)
    → WorkflowSnapshot
    → Result ReduceError WorkflowSnapshot
update_attempt agent_id attempt_id update = update_agent agent_id (with_attempt attempt_id update)
