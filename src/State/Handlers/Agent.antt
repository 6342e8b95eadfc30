-- ===== src/State/Handlers/Agent.antt =====
-- src/workflowState.ts: the cases of `reduceWorkflowState` for agents.
use workflow_mcp.Common.{
  String, Bool, Option, none, some, List, [], ◌∷◌, ◌++◌, any, ◌==◌, or_keep, get_or_else,
  if◌then◌else◌, Result, ok, ◌>>=◌, ◌>>◌, throw_if, sort_by,
}
use workflow_mcp.Events.{WorkflowErrorReference, AgentAttemptStarted, AgentRetry, AgentEvent}
use workflow_mcp.State.Snapshot.{
  WorkflowAgentStatus, WorkflowAttemptStatus, WorkflowAttemptSnapshot, WorkflowAgentSnapshot,
  WorkflowSnapshot,
}
use workflow_mcp.State.Update.{
  ReduceError, repeated_attempt, repeated_attempt_number, has_attempt_id, update_agent,
  change_attempt, with_attempt,
}
use workflow_mcp.State.Derive.{is_open_attempt}
use workflow_mcp.State.Handlers.Run.{is_true}
use workflow_mcp.State.Handlers.Attempt.{reduce_attempt}
use workflow_mcp.State.Handlers.Admission.{admit_agent}
use workflow_mcp.State.Handlers.Settlement.{apply_agent_outcome, reuse_agent}

abbrev pub new_attempt : String → String → AgentAttemptStarted → WorkflowAttemptSnapshot
new_attempt timestamp attempt_id payload = record {
  id = attempt_id;
  number = payload.attempt_number;
  source = payload.source;
  provider = payload.provider;
  status = WorkflowAttemptStatus.running;
  started_at = timestamp;
  last_progress_at = some timestamp;
  startup_deadline_at = payload.startup_deadline_at;
  absolute_deadline_at = payload.absolute_deadline_at;
  completed_at = none;
  provider_session = payload.provider_session;
  replay_safety = payload.replay_safety;
  usage = none;
  error = none;
  stall = none;
  termination = none;
  recovery = none;
  activities = [];
}

unfoldable pub start_attempt :
    String
    → String
    → AgentAttemptStarted
    → WorkflowAgentSnapshot
    → Result ReduceError WorkflowAgentSnapshot
start_attempt timestamp attempt_id payload agent = do
  throw_if (any (has_attempt_id attempt_id) agent.attempts) (repeated_attempt attempt_id)
  throw_if (any (λ attempt. attempt.number == payload.attempt_number) agent.attempts)
      (repeated_attempt_number payload.attempt_number)
  let attempt = new_attempt timestamp attempt_id payload
  ok (record agent {
    retry = none;
    queue_reason = none;
    status = WorkflowAgentStatus.running;
    started_at = some (get_or_else agent.started_at timestamp);
    attempts = sort_by (λ a. a.number) (agent.attempts ++ attempt ∷ []);
  })

-- `attempts` after the change of an attempt that the event may name.
unfoldable pub change_named :
    Option String
    → (WorkflowAttemptSnapshot → WorkflowAttemptSnapshot)
    → List WorkflowAttemptSnapshot
    → Result ReduceError (List WorkflowAttemptSnapshot)
unfolding change_attempt
change_named none change attempts = ok attempts
change_named (some attempt_id) change attempts =
    change_attempt attempt_id (λ attempt. ok (change attempt)) attempts

abbrev pub end_attempt :
    WorkflowAttemptStatus
    → String
    → WorkflowErrorReference
    → WorkflowAttemptSnapshot
    → WorkflowAttemptSnapshot
end_attempt status timestamp error attempt = record attempt {
  status = status;
  completed_at = some timestamp;
  error = some error;
}

unfoldable pub fail_agent :
    String
    → Option String
    → WorkflowErrorReference
    → Option Bool
    → WorkflowAgentSnapshot
    → Result ReduceError WorkflowAgentSnapshot
unfolding change_named
fail_agent timestamp attempt_id error retrying agent = do
  attempts ←
      change_named attempt_id (end_attempt WorkflowAttemptStatus.failed timestamp error)
        agent.attempts
  ok (
      if is_true retrying
      then record agent {
        error = none;
        completed_at = none;
        status = WorkflowAgentStatus.queued;
        attempts = attempts;
      }
      else record agent {
        status = WorkflowAgentStatus.failed;
        completed_at = some timestamp;
        error = some error;
        attempts = attempts;
      })

unfoldable pub require_recovery :
    String
    → String
    → WorkflowErrorReference
    → WorkflowAgentSnapshot
    → Result ReduceError WorkflowAgentSnapshot
unfolding change_attempt
require_recovery timestamp attempt_id error agent = do
  attempts ←
      change_attempt attempt_id
        (λ attempt.
          ok (end_attempt WorkflowAttemptStatus.recovery_required timestamp error attempt))
        agent.attempts
  ok (record agent {
    status = WorkflowAgentStatus.recovery_required;
    completed_at = some timestamp;
    error = some error;
    attempts = attempts;
  })

abbrev pub cancel_attempt : String → WorkflowAttemptSnapshot → WorkflowAttemptSnapshot
cancel_attempt timestamp attempt =
    if is_open_attempt attempt.status
    then record attempt { status = WorkflowAttemptStatus.cancelled; completed_at = some timestamp }
    else attempt

unfoldable pub cancel_agent :
    String
    → Option String
    → Option String
    → WorkflowAgentSnapshot
    → Result ReduceError WorkflowAgentSnapshot
unfolding change_named
cancel_agent timestamp attempt_id reason agent = do
  attempts ← change_named attempt_id (cancel_attempt timestamp) agent.attempts
  ok (record agent {
    retry = none;
    status = WorkflowAgentStatus.cancelled;
    completed_at = some timestamp;
    attempts = attempts;
    cancelled_reason = or_keep reason agent.cancelled_reason;
  })

abbrev pub schedule_retry : AgentRetry → WorkflowAgentSnapshot → WorkflowAgentSnapshot
schedule_retry payload agent = record agent {
  status = WorkflowAgentStatus.queued;
  retry = some (record {
    completed_attempt_number = payload.completed_attempt_number;
    next_attempt_number = payload.next_attempt_number;
    retry_at = payload.retry_at;
    reason = payload.reason;
  });
}

-- The events that change one agent and nothing else.
unfoldable pub change_agent :
    String → AgentEvent → WorkflowAgentSnapshot → Result ReduceError WorkflowAgentSnapshot
unfolding start_attempt fail_agent require_recovery cancel_agent with_attempt reduce_attempt
change_agent timestamp (AgentEvent.queued reason) agent = ok (record agent {
  status = WorkflowAgentStatus.queued;
  queued_at = some timestamp;
  queue_reason = reason;
})
change_agent timestamp (AgentEvent.started attempt_id payload) agent =
    start_attempt timestamp attempt_id payload agent
change_agent timestamp (AgentEvent.workspace_prepared workspace) agent =
    ok (record agent { workspace = some workspace })
change_agent timestamp (AgentEvent.failed attempt_id error retrying) agent =
    fail_agent timestamp attempt_id error retrying agent
change_agent timestamp (AgentEvent.retry_scheduled payload) agent =
    ok (schedule_retry payload agent)
change_agent timestamp (AgentEvent.recovery_required attempt_id error replay_safety) agent =
    require_recovery timestamp attempt_id error agent
change_agent timestamp (AgentEvent.skipped reason) agent = ok (record agent {
  status = WorkflowAgentStatus.skipped;
  completed_at = some timestamp;
  skipped_reason = or_keep reason agent.skipped_reason;
})
change_agent timestamp (AgentEvent.cancelled attempt_id reason) agent =
    cancel_agent timestamp attempt_id reason agent
change_agent timestamp (AgentEvent.attempt attempt_id event) agent =
    with_attempt attempt_id (reduce_attempt timestamp event) agent
change_agent timestamp _ agent = ok agent

unfoldable pub reduce_agent :
    String → String → AgentEvent → WorkflowSnapshot → Result ReduceError WorkflowSnapshot
unfolding admit_agent reuse_agent apply_agent_outcome update_agent change_agent
reduce_agent timestamp agent_id (AgentEvent.admitted phase_id payload) s =
    admit_agent timestamp agent_id phase_id payload s
reduce_agent timestamp agent_id (AgentEvent.reused attempt_id outcome) s =
    reuse_agent timestamp agent_id attempt_id outcome s
reduce_agent timestamp agent_id (AgentEvent.completed attempt_id outcome) s =
    apply_agent_outcome agent_id attempt_id outcome timestamp s
reduce_agent timestamp agent_id event s = update_agent agent_id (change_agent timestamp event) s
