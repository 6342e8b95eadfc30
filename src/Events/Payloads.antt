-- ===== src/Events/Payloads.antt =====
-- The payloads of src/workflowEvents.ts. A field `data` of the source is named `details`.
use workflow_mcp.Common.{ℕ, String, Bool, Option}
use workflow_mcp.Value.{Value}
use workflow_mcp.Events.Content.{
  ContentReference, WorkflowErrorReference, NormalizedAgentOptions, ProviderSessionReference,
  AgentUsage, AgentReplaySafetyAssessment, AgentActivityKind,
}

pub record WorkflowActivityDetails : Type 0 where
  pub activity_id : String
  pub kind : AgentActivityKind
  pub title : Option String
  pub content : Option ContentReference
  pub details : Option Value

pub record AgentAdmitted : Type 0 where
  pub call_index : ℕ
  pub label : String
  pub prompt : ContentReference
  pub options : NormalizedAgentOptions
  pub cache_key : String

pub data OutcomeSource : Type 0 where
  live provider_resume journal : OutcomeSource

pub data CoverageGapStatus : Type 0 where
  failed recovery_required skipped : CoverageGapStatus

pub record AgentCoverageGapDisposition : Type 0 where
  pub status : CoverageGapStatus
  pub error : WorkflowErrorReference

-- `AgentOutcome`; `coverage_gap` is the field that `AgentReusedOutcome` adds.
pub record AgentOutcome : Type 0 where
  pub source : OutcomeSource
  pub result : ContentReference
  pub structured : Bool
  pub usage : Option AgentUsage
  pub provider_session : Option ProviderSessionReference
  pub diagnostics : Option Value
  pub coverage_gap : Option AgentCoverageGapDisposition

pub data AttemptSource : Type 0 where
  live provider_resume : AttemptSource

pub record AgentAttemptStarted : Type 0 where
  pub attempt_number : ℕ
  pub source : AttemptSource
  pub provider : String
  pub provider_session : Option ProviderSessionReference
  pub startup_deadline_at : Option String
  pub absolute_deadline_at : Option String
  pub workspace_id : Option String
  pub replay_safety : Option AgentReplaySafetyAssessment

pub data PhaseSource : Type 0 where
  metadata runtime : PhaseSource

pub record PhaseDiscovered : Type 0 where
  pub title : String
  pub detail : Option String
  pub model : Option String
  pub source : PhaseSource

pub record AgentWorkspace : Type 0 where
  pub workspace_id : String
  pub path : String
  pub reused : Bool
  pub lease_id : Option String

-- The payload of `agent.activity.updated`, and of `agent.activity.completed` with an `error`.
pub record ActivityPatch : Type 0 where
  pub activity_id : String
  pub title : Option String
  pub content : Option ContentReference
  pub details : Option Value
  pub error : Option WorkflowErrorReference

pub data StallKind : Type 0 where
  startup idle active_operation absolute : StallKind

pub record AgentStall : Type 0 where
  pub kind : StallKind
  pub last_progress_at : String
  pub deadline_at : String

pub record AgentRetry : Type 0 where
  pub completed_attempt_number : ℕ
  pub next_attempt_number : ℕ
  pub delay_ms : ℕ
  pub retry_at : String
  pub reason : WorkflowErrorReference

pub data TerminationReason : Type 0 where
  timeout cancellation shutdown : TerminationReason

pub data TerminationBoundary : Type 0 where
  settlement process_tree : TerminationBoundary

pub data LogLevel : Type 0 where
  debug info warn error : LogLevel

pub record ArtifactCreated : Type 0 where
  pub artifact_id : String
  pub name : String
  pub media_type : Option String
  pub size_bytes : Option ℕ

-- The identities that log, warning and artifact events may carry.
pub record EventOrigin : Type 0 where
  pub phase_id : Option String
  pub agent_id : Option String
  pub attempt_id : Option String
