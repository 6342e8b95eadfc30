-- ===== src/State/Counts.antt =====
-- `deriveCounts` of src/workflowState.ts against a count of the agents.
use workflow_mcp.Common.{ℕ, ◌+◌, ◌≡◌, refl, ◌∙◌, arith, List, [], ◌∷◌, length, if◌then◌else◌}
use mathlib.Core.Logic.{ite}
use workflow_mcp.State.Snapshot.{
  WorkflowAgentStatus, WorkflowAgentSnapshot, WorkflowAgentCounts, create_workflow_agent_counts,
}
use workflow_mcp.State.Derive.{count_status, count_agent, count_agents, derive_counts, is_reused}

pub WorkflowAgentStatus-discrete : Discrete WorkflowAgentStatus
WorkflowAgentStatus-discrete = hlevel

-- The counter that is named after a status.
abbrev pub counter : WorkflowAgentStatus → WorkflowAgentCounts → ℕ
counter WorkflowAgentStatus.admitted c = c.admitted
counter WorkflowAgentStatus.queued c = c.queued
counter WorkflowAgentStatus.running c = c.running
counter WorkflowAgentStatus.completed c = c.completed
counter WorkflowAgentStatus.failed c = c.failed
counter WorkflowAgentStatus.recovery_required c = c.recovery_required
counter WorkflowAgentStatus.skipped c = c.skipped
counter WorkflowAgentStatus.cancelled c = c.cancelled

-- How many agents have a status; how many attempts and reused agents there are.
abbrev pub tally : WorkflowAgentStatus → List WorkflowAgentSnapshot → ℕ
tally status [] = 0
tally status (a ∷ rest) = ite (WorkflowAgentStatus-discrete a.status status) 1 0 + tally status rest

abbrev pub total_attempts : List WorkflowAgentSnapshot → ℕ
total_attempts [] = 0
total_attempts (a ∷ rest) = length a.attempts + total_attempts rest

abbrev pub total_reused : List WorkflowAgentSnapshot → ℕ
total_reused [] = 0
total_reused (a ∷ rest) = (if is_reused a.outcome then 1 else 0) + total_reused rest

counter-count_status :
    (status other : WorkflowAgentStatus) (c : WorkflowAgentCounts)
    → counter status (count_status other c)
      ≡ counter status c + ite (WorkflowAgentStatus-discrete other status) 1 0
unfolding count_status
counter-count_status WorkflowAgentStatus.admitted other c = ground arith
counter-count_status _ other c = ground arith

counter-count_agents :
    (status : WorkflowAgentStatus) (c : WorkflowAgentCounts) (rest : List WorkflowAgentSnapshot)
    → counter status (count_agents c rest) ≡ counter status c + tally status rest
unfolding count_agents count_agent
counter-count_agents status c [] = omega arith
counter-count_agents status c (a ∷ rest) =
    omega (arith, counter-count_agents status (count_agent c a) rest, step status)
  where
    step :
        (s : WorkflowAgentStatus)
        → counter s (count_agent c a)
          ≡ counter s c + ite (WorkflowAgentStatus-discrete a.status s) 1 0
    step WorkflowAgentStatus.admitted = counter-count_status WorkflowAgentStatus.admitted a.status c
    step WorkflowAgentStatus.queued = counter-count_status WorkflowAgentStatus.queued a.status c
    step WorkflowAgentStatus.running = counter-count_status WorkflowAgentStatus.running a.status c
    step WorkflowAgentStatus.completed =
        counter-count_status WorkflowAgentStatus.completed a.status c
    step WorkflowAgentStatus.failed = counter-count_status WorkflowAgentStatus.failed a.status c
    step WorkflowAgentStatus.recovery_required =
        counter-count_status WorkflowAgentStatus.recovery_required a.status c
    step WorkflowAgentStatus.skipped = counter-count_status WorkflowAgentStatus.skipped a.status c
    step WorkflowAgentStatus.cancelled =
        counter-count_status WorkflowAgentStatus.cancelled a.status c

count_status-others :
    (status : WorkflowAgentStatus) (c : WorkflowAgentCounts)
    → ((count_status status c).total ≡ c.total)
      × ((count_status status c).attempts ≡ c.attempts)
      × ((count_status status c).reused ≡ c.reused)
unfolding count_status
count_status-others WorkflowAgentStatus.admitted c = (refl, refl, refl)
count_status-others _ c = (refl, refl, refl)

count_agents-others :
    (c : WorkflowAgentCounts) (rest : List WorkflowAgentSnapshot)
    → ((count_agents c rest).total ≡ c.total)
      × ((count_agents c rest).attempts ≡ c.attempts + total_attempts rest)
      × ((count_agents c rest).reused ≡ c.reused + total_reused rest)
unfolding count_agents count_agent
count_agents-others c [] = (refl, omega arith, omega arith)
count_agents-others c (a ∷ rest) =
    ground (arith, count_status-others a.status c, count_agents-others (count_agent c a) rest)

sum-tally :
    (rest : List WorkflowAgentSnapshot)
    → length rest
      ≡ tally WorkflowAgentStatus.admitted rest
        + tally WorkflowAgentStatus.queued rest
        + tally WorkflowAgentStatus.running rest
        + tally WorkflowAgentStatus.completed rest
        + tally WorkflowAgentStatus.failed rest
        + tally WorkflowAgentStatus.recovery_required rest
        + tally WorkflowAgentStatus.skipped rest
        + tally WorkflowAgentStatus.cancelled rest
sum-tally [] = refl
sum-tally (a ∷ rest) = ground (arith, sum-tally rest)

-- The derived counters are the counts that their names promise.
pub record CountsMatch (c : WorkflowAgentCounts) (agents : List WorkflowAgentSnapshot)
    : Type 0 where
  pub status : (s : WorkflowAgentStatus) → counter s c ≡ tally s agents
  pub total : c.total ≡ length agents
  pub partition :
      c.total
      ≡ c.admitted + c.queued + c.running + c.completed + c.failed + c.recovery_required + c.skipped
        + c.cancelled
  pub attempts : c.attempts ≡ total_attempts agents
  pub reused : c.reused ≡ total_reused agents

-- For any agents, each status counter is the number of the agents with that status, `total` is their
-- number and the sum of the status counters, `attempts` sums up their attempts, and `reused` counts
-- those whose outcome comes from the journal.
pub derive_counts-CountsMatch :
    (agents : List WorkflowAgentSnapshot) → CountsMatch (derive_counts agents) agents
unfolding derive_counts
derive_counts-CountsMatch agents = record {
  status = status;
  total = (count_agents-others start agents).0;
  partition = omega (
    arith,
    sum-tally agents,
    (count_agents-others start agents).0,
    status WorkflowAgentStatus.admitted,
    status WorkflowAgentStatus.queued,
    status WorkflowAgentStatus.running,
    status WorkflowAgentStatus.completed,
    status WorkflowAgentStatus.failed,
    status WorkflowAgentStatus.recovery_required,
    status WorkflowAgentStatus.skipped,
    status WorkflowAgentStatus.cancelled,
  );
  attempts = omega (arith, (count_agents-others start agents).1);
  reused = omega (arith, (count_agents-others start agents).2);
}
  where
    start : WorkflowAgentCounts
    start = record create_workflow_agent_counts { total = length agents }

    status : (s : WorkflowAgentStatus) → counter s (derive_counts agents) ≡ tally s agents
    status s = counter-count_agents s start agents ∙ zero_start s
      where
        zero_start : (r : WorkflowAgentStatus) → counter r start + tally s agents ≡ tally s agents
        zero_start WorkflowAgentStatus.admitted = omega arith
        zero_start _ = omega arith
