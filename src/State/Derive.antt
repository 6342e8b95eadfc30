-- ===== src/State/Derive.antt =====
-- src/workflowState.ts: what a snapshot derives from its agents, and the closing of a run.
use workflow_mcp.Common.{
  ◌+◌, String, Bool, true, false, not, ◌&&◌, ◌||◌, Option, none, some, List, [], ◌∷◌, map, length,
  all, find, or_keep, if◌then◌else◌,
}
use workflow_mcp.Events.{WorkflowErrorReference, AgentOutcome, OutcomeSource}
use workflow_mcp.State.Snapshot.{
  WorkflowRunStatus, WorkflowAgentStatus, WorkflowAttemptStatus, WorkflowPhaseStatus,
  WorkflowAttemptSnapshot, WorkflowAgentSnapshot, WorkflowPhaseSnapshot, WorkflowAgentCounts,
  WorkflowSnapshot, is_terminal_run, is_terminal_agent, create_workflow_agent_counts,
}
use workflow_mcp.State.Update.{has_agent_id}

-- `counts[status] += 1`.
unfoldable pub count_status : WorkflowAgentStatus → WorkflowAgentCounts → WorkflowAgentCounts
count_status WorkflowAgentStatus.admitted c = record c { admitted = c.admitted + 1 }
count_status WorkflowAgentStatus.queued c = record c { queued = c.queued + 1 }
count_status WorkflowAgentStatus.running c = record c { running = c.running + 1 }
count_status WorkflowAgentStatus.completed c = record c { completed = c.completed + 1 }
count_status WorkflowAgentStatus.failed c = record c { failed = c.failed + 1 }
count_status WorkflowAgentStatus.recovery_required c = record c {
  recovery_required = c.recovery_required + 1;
}
count_status WorkflowAgentStatus.skipped c = record c { skipped = c.skipped + 1 }
count_status WorkflowAgentStatus.cancelled c = record c { cancelled = c.cancelled + 1 }

-- `agent.outcome?.source === 'journal'`.
abbrev pub is_journal : OutcomeSource → Bool
is_journal OutcomeSource.journal = true
is_journal _ = false

abbrev pub is_reused : Option AgentOutcome → Bool
is_reused none = false
is_reused (some outcome) = is_journal outcome.source

-- The body of the loop of `deriveCounts`.
unfoldable pub count_agent : WorkflowAgentCounts → WorkflowAgentSnapshot → WorkflowAgentCounts
unfolding count_status
count_agent counts agent =
    let c = count_status agent.status counts in
    record c {
      attempts = c.attempts + length agent.attempts;
      reused = if is_reused agent.outcome then c.reused + 1 else c.reused;
    }

unfoldable pub count_agents : WorkflowAgentCounts → List WorkflowAgentSnapshot → WorkflowAgentCounts
unfolding count_agent
count_agents counts [] = counts
count_agents counts (agent ∷ agents) = count_agents (count_agent counts agent) agents

unfoldable pub derive_counts : List WorkflowAgentSnapshot → WorkflowAgentCounts
unfolding count_agents
derive_counts agents =
    count_agents (record create_workflow_agent_counts { total = length agents }) agents

abbrev pub is_completed_phase : WorkflowPhaseStatus → Bool
is_completed_phase WorkflowPhaseStatus.completed = true
is_completed_phase _ = false

abbrev pub is_failed_phase : WorkflowPhaseStatus → Bool
is_failed_phase WorkflowPhaseStatus.failed = true
is_failed_phase _ = false

-- `agent !== undefined && TERMINAL_AGENT_STATUSES.has(agent.status)`.
abbrev pub is_settled : Option WorkflowAgentSnapshot → Bool
is_settled none = false
is_settled (some agent) = is_terminal_agent agent.status

unfoldable pub member_settled : List WorkflowAgentSnapshot → String → Bool
unfolding is_terminal_agent
member_settled agents id = is_settled (find (has_agent_id id) agents)

unfoldable pub derive_phase :
    List WorkflowAgentSnapshot → WorkflowRunStatus → WorkflowPhaseSnapshot → WorkflowPhaseSnapshot
unfolding member_settled is_terminal_run
derive_phase agents run_status phase = record phase {
  complete =
      is_completed_phase phase.status
      || (not (is_failed_phase phase.status)
          && (is_terminal_run run_status && all (member_settled agents) phase.agent_ids));
}

unfoldable pub derive_phases :
    List WorkflowPhaseSnapshot
    → List WorkflowAgentSnapshot
    → WorkflowRunStatus
    → List WorkflowPhaseSnapshot
unfolding derive_phase
derive_phases phases agents run_status = map (derive_phase agents run_status) phases

unfoldable pub finalize_derived_state : WorkflowSnapshot → WorkflowSnapshot
unfolding derive_counts derive_phases
finalize_derived_state state = record state {
  counts = derive_counts state.agents;
  phases = derive_phases state.phases state.agents state.status;
}

-- The two statuses that `closeNonterminalAgents` is called with.
pub data CloseStatus : Type 0 where
  failed cancelled : CloseStatus

abbrev pub is_open_attempt : WorkflowAttemptStatus → Bool
is_open_attempt WorkflowAttemptStatus.running = true
is_open_attempt WorkflowAttemptStatus.stalled = true
is_open_attempt _ = false

abbrev pub attempt_status : CloseStatus → WorkflowAttemptStatus
attempt_status failed = WorkflowAttemptStatus.failed
attempt_status cancelled = WorkflowAttemptStatus.cancelled

abbrev pub agent_status : CloseStatus → WorkflowAgentStatus
agent_status failed = WorkflowAgentStatus.failed
agent_status cancelled = WorkflowAgentStatus.cancelled

-- `status === 'failed' && error !== undefined ? { error } : {}`.
abbrev close_error :
    CloseStatus
    → Option WorkflowErrorReference
    → Option WorkflowErrorReference
    → Option WorkflowErrorReference
close_error failed error old = or_keep error old
close_error cancelled error old = old

abbrev close_reason : CloseStatus → Option String → Option String
close_reason failed old = old
close_reason cancelled old = some "Run became terminal"

unfoldable pub close_attempt :
    CloseStatus
    → String
    → Option WorkflowErrorReference
    → WorkflowAttemptSnapshot
    → WorkflowAttemptSnapshot
close_attempt status timestamp error attempt =
    if is_open_attempt attempt.status
    then record attempt {
      status = attempt_status status;
      completed_at = some timestamp;
      error = close_error status error attempt.error;
    }
    else attempt

unfoldable pub close_agent :
    CloseStatus
    → String
    → Option WorkflowErrorReference
    → WorkflowAgentSnapshot
    → WorkflowAgentSnapshot
unfolding close_attempt is_terminal_agent
close_agent status timestamp error agent =
    if is_terminal_agent agent.status then agent else record agent {
      status = agent_status status;
      completed_at = some timestamp;
      attempts = map (close_attempt status timestamp error) agent.attempts;
      error = close_error status error agent.error;
      cancelled_reason = close_reason status agent.cancelled_reason;
    }

unfoldable pub close_nonterminal_agents :
    CloseStatus
    → String
    → Option WorkflowErrorReference
    → List WorkflowAgentSnapshot
    → List WorkflowAgentSnapshot
unfolding close_agent
close_nonterminal_agents status timestamp error = map (close_agent status timestamp error)
