-- ===== src/Events/Stream.antt =====
-- The closed union `WorkflowEvent` of src/workflowEvents.ts.
use workflow_mcp.Common.{ℕ, String, Bool, Option}
use workflow_mcp.Value.{Value}
use workflow_mcp.Events.Content.{
  ContentReference, WorkflowErrorReference, WorkflowDefinitionReference, ProviderSessionReference,
  AgentReplaySafetyAssessment, AgentRecoveryContext,
}
use workflow_mcp.Events.Payloads.{
  WorkflowActivityDetails, AgentAdmitted, AgentOutcome, AgentAttemptStarted, PhaseDiscovered,
  AgentWorkspace, ActivityPatch, AgentStall, AgentRetry, TerminationReason, TerminationBoundary,
  LogLevel, ArtifactCreated, EventOrigin,
}

-- Events whose envelope has a mandatory `attemptId`.
pub data AttemptEvent : Type 0 where
  session_started : ProviderSessionReference → AttemptEvent
  activity_started : WorkflowActivityDetails → AttemptEvent
  activity_updated : ActivityPatch → AttemptEvent
  activity_completed : ActivityPatch → AttemptEvent
  stalled : AgentStall → AttemptEvent
  termination_confirmed : TerminationReason → TerminationBoundary → AttemptEvent
  recovery_started : String → AgentRecoveryContext → AttemptEvent
  recovery_completed : String → AttemptEvent

-- Events whose envelope has an `agentId`. The optional `phaseId` and `attemptId` are kept for those
-- events where the projection of a run reads them.
pub data AgentEvent : Type 0 where
  admitted : Option String → AgentAdmitted → AgentEvent
  queued : Option String → AgentEvent
  reused : Option String → AgentOutcome → AgentEvent
  started : String → AgentAttemptStarted → AgentEvent
  workspace_prepared : AgentWorkspace → AgentEvent
  completed : Option String → AgentOutcome → AgentEvent
  failed : Option String → WorkflowErrorReference → Option Bool → AgentEvent
  retry_scheduled : AgentRetry → AgentEvent
  recovery_required : String → WorkflowErrorReference → AgentReplaySafetyAssessment → AgentEvent
  skipped : Option String → AgentEvent
  cancelled : Option String → Option String → AgentEvent
  attempt : String → AttemptEvent → AgentEvent

pub data PhaseEvent : Type 0 where
  discovered : PhaseDiscovered → PhaseEvent
  entered : String → PhaseEvent
  completed : String → PhaseEvent
  failed : String → WorkflowErrorReference → PhaseEvent

pub data RunEvent : Type 0 where
  started : WorkflowDefinitionReference → RunEvent
  completed : ContentReference → Option Bool → RunEvent
  failed : WorkflowErrorReference → RunEvent
  cancellation_requested : Option String → RunEvent
  cancelled : Option String → RunEvent
  interrupted : String → RunEvent

pub data TraceEvent : Type 0 where
  log : ContentReference → Option LogLevel → TraceEvent
  warning : String → Option String → Option Value → TraceEvent
  artifact_created : ArtifactCreated → TraceEvent

-- The `type`, the identities and the payload of an event.
pub data EventBody : Type 0 where
  run : RunEvent → EventBody
  phase : String → PhaseEvent → EventBody
  agent : String → AgentEvent → EventBody
  trace : EventOrigin → TraceEvent → EventBody

pub record WorkflowEvent : Type 0 where
  pub run_id : String
  pub sequence : ℕ
  pub event_id : String
  pub timestamp : String
  pub parent_id : Option String
  pub body : EventBody
