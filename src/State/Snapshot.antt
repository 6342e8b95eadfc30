-- ===== src/State/Snapshot.antt =====
-- The snapshot types of src/workflowState.ts. An optional field is an `Option`.
use workflow_mcp.Common.{ℕ, String, Bool, true, false, Option, none, List, []}
use workflow_mcp.Value.{Value}
use workflow_mcp.Events.{
  ContentReference, WorkflowErrorReference, WorkflowDefinitionReference, NormalizedAgentOptions,
  ProviderSessionReference, AgentUsage, AgentReplaySafetyAssessment, WorkflowActivityDetails,
  AgentOutcome, AttemptSource, PhaseSource, AgentWorkspace, AgentStall, TerminationReason,
  TerminationBoundary, LogLevel, ArtifactCreated, EventOrigin,
}

pub data WorkflowRunStatus : Type 0 where
  pending running cancellation_requested completed completed_with_errors failed cancelled
        interrupted :
      WorkflowRunStatus

pub data WorkflowAgentStatus : Type 0 where
  admitted queued running completed failed recovery_required skipped cancelled : WorkflowAgentStatus

pub data WorkflowAttemptStatus : Type 0 where
  running stalled completed failed recovery_required cancelled : WorkflowAttemptStatus

pub data WorkflowActivityStatus : Type 0 where
  running completed failed : WorkflowActivityStatus

pub data WorkflowPhaseStatus : Type 0 where
  pending running completed failed : WorkflowPhaseStatus

-- The fields of `WorkflowActivityDetails`, and those of the snapshot.
pub record WorkflowActivitySnapshot : Type 0 where
  pub details : WorkflowActivityDetails
  pub status : WorkflowActivityStatus
  pub started_at : String
  pub updated_at : String
  pub completed_at : Option String
  pub error : Option WorkflowErrorReference
  pub update_count : ℕ

pub record AttemptTermination : Type 0 where
  pub reason : TerminationReason
  pub boundary : TerminationBoundary
  pub confirmed_at : String

pub record AttemptRecovery : Type 0 where
  pub previous_attempt_id : String
  pub previous_attempt_number : ℕ
  pub reason : String
  pub note : String
  pub started_at : String
  pub completed_at : Option String

pub record WorkflowAttemptSnapshot : Type 0 where
  pub id : String
  pub number : ℕ
  pub source : AttemptSource
  pub provider : String
  pub status : WorkflowAttemptStatus
  pub started_at : String
  pub last_progress_at : Option String
  pub startup_deadline_at : Option String
  pub absolute_deadline_at : Option String
  pub completed_at : Option String
  pub provider_session : Option ProviderSessionReference
  pub replay_safety : Option AgentReplaySafetyAssessment
  pub usage : Option AgentUsage
  pub error : Option WorkflowErrorReference
  pub stall : Option AgentStall
  pub termination : Option AttemptTermination
  pub recovery : Option AttemptRecovery
  pub activities : List WorkflowActivitySnapshot

pub record ScheduledRetry : Type 0 where
  pub completed_attempt_number : ℕ
  pub next_attempt_number : ℕ
  pub retry_at : String
  pub reason : WorkflowErrorReference

pub record WorkflowAgentSnapshot : Type 0 where
  pub id : String
  pub call_index : ℕ
  pub label : String
  pub phase_id : Option String
  pub prompt : ContentReference
  pub options : NormalizedAgentOptions
  pub cache_key : String
  pub status : WorkflowAgentStatus
  pub admitted_at : String
  pub queued_at : Option String
  pub queue_reason : Option String
  pub started_at : Option String
  pub completed_at : Option String
  pub outcome : Option AgentOutcome
  pub error : Option WorkflowErrorReference
  pub skipped_reason : Option String
  pub cancelled_reason : Option String
  pub workspace : Option AgentWorkspace
  pub retry : Option ScheduledRetry
  pub attempts : List WorkflowAttemptSnapshot

pub record WorkflowPhaseSnapshot : Type 0 where
  pub id : String
  pub title : String
  pub detail : Option String
  pub model : Option String
  pub source : PhaseSource
  pub discovered_at : String
  pub entered_at : Option String
  pub completed_at : Option String
  pub status : WorkflowPhaseStatus
  pub error : Option WorkflowErrorReference
  pub agent_ids : List String
  pub complete : Bool

pub record WorkflowAgentCounts : Type 0 where
  pub total : ℕ
  pub admitted : ℕ
  pub queued : ℕ
  pub running : ℕ
  pub completed : ℕ
  pub failed : ℕ
  pub recovery_required : ℕ
  pub skipped : ℕ
  pub cancelled : ℕ
  pub reused : ℕ
  pub attempts : ℕ

-- The fields that a log, a warning and an artifact take from their event.
pub record Stamp : Type 0 where
  pub event_id : String
  pub sequence : ℕ
  pub timestamp : String
  pub origin : EventOrigin

pub record WorkflowLogSnapshot : Type 0 where
  pub stamp : Stamp
  pub level : LogLevel
  pub message : ContentReference

pub record WorkflowWarningSnapshot : Type 0 where
  pub stamp : Stamp
  pub message : String
  pub code : Option String
  pub details : Option Value

pub record WorkflowArtifactSnapshot : Type 0 where
  pub stamp : Stamp
  pub created : ArtifactCreated

pub record WorkflowSnapshot : Type 0 where
  pub run_id : String
  pub sequence : ℕ
  pub status : WorkflowRunStatus
  pub workflow : Option WorkflowDefinitionReference
  pub started_at : Option String
  pub completed_at : Option String
  pub cancellation_reason : Option String
  pub result : Option ContentReference
  pub error : Option WorkflowErrorReference
  pub current_phase_id : Option String
  pub counts : WorkflowAgentCounts
  pub phases : List WorkflowPhaseSnapshot
  pub agents : List WorkflowAgentSnapshot
  pub logs : List WorkflowLogSnapshot
  pub warnings : List WorkflowWarningSnapshot
  pub artifacts : List WorkflowArtifactSnapshot

-- TERMINAL_RUN_STATUSES and TERMINAL_AGENT_STATUSES.
unfoldable pub is_terminal_run : WorkflowRunStatus → Bool
is_terminal_run WorkflowRunStatus.completed = true
is_terminal_run WorkflowRunStatus.completed_with_errors = true
is_terminal_run WorkflowRunStatus.failed = true
is_terminal_run WorkflowRunStatus.cancelled = true
is_terminal_run WorkflowRunStatus.interrupted = true
is_terminal_run _ = false

unfoldable pub is_terminal_agent : WorkflowAgentStatus → Bool
is_terminal_agent WorkflowAgentStatus.completed = true
is_terminal_agent WorkflowAgentStatus.failed = true
is_terminal_agent WorkflowAgentStatus.recovery_required = true
is_terminal_agent WorkflowAgentStatus.skipped = true
is_terminal_agent WorkflowAgentStatus.cancelled = true
is_terminal_agent _ = false

abbrev pub create_workflow_agent_counts : WorkflowAgentCounts
create_workflow_agent_counts = record {
  total = 0;
  admitted = 0;
  queued = 0;
  running = 0;
  completed = 0;
  failed = 0;
  recovery_required = 0;
  skipped = 0;
  cancelled = 0;
  reused = 0;
  attempts = 0;
}

unfoldable pub create_workflow_state : String → WorkflowSnapshot
create_workflow_state run_id = record {
  run_id = run_id;
  sequence = 0;
  status = WorkflowRunStatus.pending;
  workflow = none;
  started_at = none;
  completed_at = none;
  cancellation_reason = none;
  result = none;
  error = none;
  current_phase_id = none;
  counts = create_workflow_agent_counts;
  phases = [];
  agents = [];
  logs = [];
  warnings = [];
  artifacts = [];
}
