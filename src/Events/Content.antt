-- ===== src/Events/Content.antt =====
-- Values that events and snapshots refer to: src/workflowEvents.ts and src/agentProvider.ts.
-- Timestamps and identities are texts; counts and sizes are natural numbers.
use workflow_mcp.Common.{ℕ, String, Bool, Option, List}
use workflow_mcp.Value.{Value}

-- `ContentChecksum`: the algorithm is always sha256.
pub record ContentChecksum : Type 0 where
  pub value : String

pub record ContentReference : Type 0 where
  pub preview : String
  pub line_count : ℕ
  pub content : Option Value
  pub artifact_id : Option String
  pub media_type : Option String
  pub truncated : Option Bool
  pub size_bytes : Option ℕ
  pub checksum : Option ContentChecksum

pub record WorkflowErrorReference : Type 0 where
  pub message : String
  pub name : Option String
  pub code : Option String
  pub stack : Option String
  pub details : Option Value

pub record WorkflowDefinitionReference : Type 0 where
  pub name : String
  pub description : String
  pub title : Option String
  pub source_hash : Option String
  pub file_path : Option String

pub data AgentSandboxMode : Type 0 where
  read_only workspace_write danger_full_access : AgentSandboxMode

pub data AgentApprovalPolicy : Type 0 where
  never on_request on_failure untrusted : AgentApprovalPolicy

pub record AgentSandboxPolicy : Type 0 where
  pub mode : AgentSandboxMode
  pub approval_policy : AgentApprovalPolicy
  pub network : Bool
  pub additional_writable_directories : Option (List String)

pub record NormalizedAgentOptions : Type 0 where
  pub model : Option String
  pub effort : Option String
  pub agent_type : Option String
  pub schema : Option Value
  pub working_directory : Option String
  pub isolation : Option String
  pub sandbox : Option AgentSandboxPolicy

pub record ProviderSessionReference : Type 0 where
  pub provider : String
  pub id : String

pub record AgentUsage : Type 0 where
  pub input_tokens : ℕ
  pub output_tokens : ℕ
  pub cached_input_tokens : Option ℕ
  pub reasoning_tokens : Option ℕ
  pub total_tokens : Option ℕ

pub data AgentReplayRisk : Type 0 where
  read_only worktree_write idempotent_external unknown_external : AgentReplayRisk

pub record AgentReplaySafetyAssessment : Type 0 where
  pub automatic : Bool
  pub risk : AgentReplayRisk
  pub reason : String

pub data AgentActivityKind : Type 0 where
  message reasoning command file_change tool_call web_search todo_list error : AgentActivityKind

pub record UncertainActivity : Type 0 where
  pub id : String
  pub kind : AgentActivityKind
  pub title : Option String

pub record AgentRecoveryContext : Type 0 where
  pub reason : String
  pub previous_attempt_number : ℕ
  pub last_progress_at : String
  pub uncertain_in_flight_activity : Option UncertainActivity
  pub note : String
