-- ===== src/State/Handlers/Run.antt =====
-- src/workflowState.ts: the cases of `reduceWorkflowState` for the run itself.
use workflow_mcp.Common.{String, Bool, false, Option, none, some, or_keep, if◌then◌else◌}
use workflow_mcp.Events.{WorkflowErrorReference, RunEvent}
use workflow_mcp.State.Snapshot.{WorkflowRunStatus, WorkflowSnapshot}
use workflow_mcp.State.Derive.{CloseStatus, close_nonterminal_agents}

-- `event.payload.withErrors === true`.
abbrev pub is_true : Option Bool → Bool
is_true none = false
is_true (some b) = b

-- The error that `run.interrupted` records.
abbrev pub interruption : String → WorkflowErrorReference
interruption reason = record {
  message = reason;
  name = some "WorkflowInterruptedError";
  code = some "run-interrupted";
  stack = none;
  details = none;
}

unfoldable pub reduce_run : String → RunEvent → WorkflowSnapshot → WorkflowSnapshot
unfolding close_nonterminal_agents
reduce_run timestamp (RunEvent.started workflow) s = record s {
  status = WorkflowRunStatus.running;
  workflow = some workflow;
  started_at = some timestamp;
}
reduce_run timestamp (RunEvent.completed result with_errors) s = record s {
  status =
      if is_true with_errors
      then WorkflowRunStatus.completed_with_errors
      else WorkflowRunStatus.completed;
  completed_at = some timestamp;
  result = some result;
}
reduce_run timestamp (RunEvent.failed error) s = record s {
  status = WorkflowRunStatus.failed;
  completed_at = some timestamp;
  error = some error;
  agents = close_nonterminal_agents CloseStatus.failed timestamp (some error) s.agents;
}
reduce_run timestamp (RunEvent.cancellation_requested reason) s = record s {
  status = WorkflowRunStatus.cancellation_requested;
  cancellation_reason = or_keep reason s.cancellation_reason;
}
reduce_run timestamp (RunEvent.cancelled reason) s = record s {
  status = WorkflowRunStatus.cancelled;
  completed_at = some timestamp;
  cancellation_reason = or_keep reason s.cancellation_reason;
  agents = close_nonterminal_agents CloseStatus.cancelled timestamp none s.agents;
}
reduce_run timestamp (RunEvent.interrupted reason) s = record s {
  status = WorkflowRunStatus.interrupted;
  completed_at = some timestamp;
  error = some (interruption reason);
  agents =
      close_nonterminal_agents CloseStatus.failed timestamp (some (interruption reason)) s.agents;
}
