-- ===== src/State/Handlers/Settlement.antt =====
-- src/workflowState.ts: the outcome of an agent, produced now or reused from the journal.
use workflow_mcp.Common.{
  String, Bool, true, false, not, Option, none, some, or_keep, if◌then◌else◌, Result, ok, err,
  ◌>>=◌, ◌>>◌, throw_if,
}
use workflow_mcp.Events.{
  WorkflowErrorReference, AgentOutcome, AgentCoverageGapDisposition, CoverageGapStatus,
}
use workflow_mcp.State.Snapshot.{
  WorkflowAgentStatus, WorkflowAttemptStatus, WorkflowAttemptSnapshot, WorkflowAgentSnapshot,
  WorkflowSnapshot,
}
use workflow_mcp.State.Update.{
  ReduceError, reuse_outside_journal, reuse_with_attempt, no_disposition, update_agent,
  update_attempt,
}
use workflow_mcp.State.Derive.{is_journal}

abbrev pub finish_agent : String → AgentOutcome → WorkflowAgentSnapshot → WorkflowAgentSnapshot
finish_agent timestamp outcome agent = record agent {
  error = none;
  status = WorkflowAgentStatus.completed;
  completed_at = some timestamp;
  outcome = some outcome;
}

abbrev pub finish_attempt :
    String → AgentOutcome → WorkflowAttemptSnapshot → WorkflowAttemptSnapshot
finish_attempt timestamp outcome attempt = record attempt {
  status = WorkflowAttemptStatus.completed;
  completed_at = some timestamp;
  usage = or_keep outcome.usage attempt.usage;
  provider_session = or_keep outcome.provider_session attempt.provider_session;
}

unfoldable pub settle_attempt :
    String
    → Option String
    → AgentOutcome
    → String
    → WorkflowSnapshot
    → Result ReduceError WorkflowSnapshot
settle_attempt agent_id none outcome timestamp s = ok s
settle_attempt agent_id (some attempt_id) outcome timestamp s =
    update_attempt agent_id attempt_id (λ attempt. ok (finish_attempt timestamp outcome attempt)) s

unfoldable pub apply_agent_outcome :
    String
    → Option String
    → AgentOutcome
    → String
    → WorkflowSnapshot
    → Result ReduceError WorkflowSnapshot
unfolding settle_attempt
apply_agent_outcome agent_id attempt_id outcome timestamp s = do
  next ← update_agent agent_id (λ agent. ok (finish_agent timestamp outcome agent)) s
  settle_attempt agent_id attempt_id outcome timestamp next

abbrev gap_status : CoverageGapStatus → WorkflowAgentStatus
gap_status CoverageGapStatus.failed = WorkflowAgentStatus.failed
gap_status CoverageGapStatus.recovery_required = WorkflowAgentStatus.recovery_required
gap_status CoverageGapStatus.skipped = WorkflowAgentStatus.skipped

abbrev gap_skipped_reason : AgentCoverageGapDisposition → CoverageGapStatus → Option String
gap_skipped_reason gap CoverageGapStatus.skipped = some gap.error.message
gap_skipped_reason gap _ = none

abbrev gap_error : AgentCoverageGapDisposition → CoverageGapStatus → Option WorkflowErrorReference
gap_error gap CoverageGapStatus.skipped = none
gap_error gap _ = some gap.error

abbrev pub fill_gap :
    String
    → AgentOutcome
    → AgentCoverageGapDisposition
    → WorkflowAgentSnapshot
    → WorkflowAgentSnapshot
fill_gap timestamp outcome gap agent = record agent {
  error = gap_error gap gap.status;
  skipped_reason = gap_skipped_reason gap gap.status;
  cancelled_reason = none;
  status = gap_status gap.status;
  completed_at = some timestamp;
  outcome = some outcome;
}

unfoldable pub apply_reused_coverage_gap :
    String → AgentOutcome → String → WorkflowSnapshot → Result ReduceError WorkflowSnapshot
apply_reused_coverage_gap agent_id outcome timestamp s = elim outcome.coverage_gap [
  | none ↦ err no_disposition
  | some gap ↦ update_agent agent_id (λ agent. ok (fill_gap timestamp outcome gap agent)) s
]

abbrev pub is_some {ℓ} : {A : Type ℓ} → Option A → Bool
is_some none = false
is_some (some a) = true

unfoldable pub reuse_agent :
    String
    → String
    → Option String
    → AgentOutcome
    → WorkflowSnapshot
    → Result ReduceError WorkflowSnapshot
unfolding apply_agent_outcome apply_reused_coverage_gap
reuse_agent timestamp agent_id attempt_id payload s = do
  throw_if (not (is_journal payload.source)) reuse_outside_journal
  throw_if (is_some attempt_id) reuse_with_attempt
  if is_some payload.coverage_gap
      then apply_reused_coverage_gap agent_id payload timestamp s
      else apply_agent_outcome agent_id none payload timestamp s
