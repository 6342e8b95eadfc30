-- ===== src/State/Samples.antt =====
-- A run of two agents, projected by the definitions that model src/workflowState.ts.
use workflow_mcp.Common.{
  ℕ, ◌≡◌, ◌<◌, ◌++◌, refl, String, none, some, List, [], ◌∷◌, map, All, find_index, modify_first,
  sort_by, Result, ok, err, Ascending, IsOk, ◌↔◌,
}
use workflow_mcp.Events.{
  ContentReference, WorkflowErrorReference, NormalizedAgentOptions, AgentAdmitted,
  AgentAttemptStarted, AttemptSource, PhaseSource, PhaseEvent, AgentEvent, RunEvent, EventBody,
  WorkflowEvent,
}
use workflow_mcp.State.Snapshot.{WorkflowSnapshot, WorkflowAgentSnapshot, create_workflow_state}
use workflow_mcp.State.Derive.{derive_counts}
use workflow_mcp.State.Update.{ReduceError}
use workflow_mcp.State.Handlers.Admission.{new_agent, call_index_of}
use workflow_mcp.State.Guards.{
  Accepted, advanced, last_sequence, project_from-order, project_from_terminal,
}
use workflow_mcp.State.Counts.{CountsMatch, derive_counts-CountsMatch}
use workflow_mcp.State.Ending.{ClosesAgent, reduce_workflow_state-closes}
use workflow_mcp.State.Snapshot.{WorkflowAttemptStatus, WorkflowAgentStatus}
use workflow_mcp.Common.{Along}
use workflow_mcp.State.Isolation.{agent_of, reduce_workflow_state-others}
use workflow_mcp.State.Applicable.{EventAllowed}
use workflow_mcp.State.Applicable.Events.{reduce_workflow_state_iff}
use workflow_mcp.State.Invariant.{
  IsWell, project_workflow_state-IsWell, reduce_workflow_state-IsWell,
}
use workflow_mcp.State.Members.Projection.{MembersListed}
use workflow_mcp.State.Members.History.{project_workflow_state-MembersListed}
use workflow_mcp.State.Reduce.{reduce_workflow_state, project_from, project_workflow_state}

abbrev content : ContentReference
content = record {
  preview = "Review the change";
  line_count = 1;
  content = none;
  artifact_id = none;
  media_type = none;
  truncated = none;
  size_bytes = none;
  checksum = none;
}

abbrev options : NormalizedAgentOptions
options = record {
  model = none;
  effort = none;
  agent_type = none;
  schema = none;
  working_directory = none;
  isolation = none;
  sandbox = none;
}

abbrev admission : ℕ → String → AgentAdmitted
admission call_index label = record {
  call_index = call_index;
  label = label;
  prompt = content;
  options = options;
  cache_key = label;
}

abbrev attempt : AgentAttemptStarted
attempt = record {
  attempt_number = 1;
  source = AttemptSource.live;
  provider = "codex";
  provider_session = none;
  startup_deadline_at = none;
  absolute_deadline_at = none;
  workspace_id = none;
  replay_safety = none;
}

abbrev outage : WorkflowErrorReference
outage = record {
  message = "provider is down";
  name = none;
  code = none;
  stack = none;
  details = none;
}

abbrev event : ℕ → String → EventBody → WorkflowEvent
event sequence timestamp body = record {
  run_id = "run";
  sequence = sequence;
  event_id = timestamp;
  timestamp = timestamp;
  parent_id = none;
  body = body;
}

abbrev beginning : List WorkflowEvent
beginning =
    event 1 "t1" (
      EventBody.run (
        RunEvent.started (record {
          name = "review";
          description = "Reviews a change";
          title = none;
          source_hash = none;
          file_path = none;
        })))
    ∷ event 2 "t2" (
        EventBody.phase "phase" (
          PhaseEvent.discovered (record {
            title = "Review";
            detail = none;
            model = none;
            source = PhaseSource.metadata;
          })))
    ∷ event 3 "t3"
        (EventBody.agent "second" (AgentEvent.admitted (some "phase") (admission 1 "second")))
    ∷ event 5 "t4"
        (EventBody.agent "first" (AgentEvent.admitted (some "phase") (admission 0 "first")))
    ∷ []

abbrev start : WorkflowEvent
start = event 6 "t5" (EventBody.agent "first" (AgentEvent.started "attempt" attempt))

abbrev failure : WorkflowEvent
failure = event 7 "t6" (EventBody.run (RunEvent.failed outage))

abbrev sample_agent : WorkflowAgentSnapshot
sample_agent = new_agent "t4" "first" (some "phase") (admission 0 "first")

abbrev value_of : Result ReduceError WorkflowSnapshot → WorkflowSnapshot
value_of (ok s) = s
value_of (err e) = create_workflow_state "unreachable"

abbrev admitted_agents : WorkflowSnapshot
admitted_agents = value_of (project_workflow_state "run" beginning)

abbrev started : WorkflowSnapshot
started = value_of (reduce_workflow_state admitted_agents start)

abbrev failed_run : WorkflowSnapshot
failed_run = value_of (reduce_workflow_state started failure)

-- The agents stand in the order of their calls, and so does the phase.
agents_in_order : map (λ a. a.id) admitted_agents.agents ≡ "first" ∷ "second" ∷ []
unfolding project_workflow_state create_workflow_state find_index modify_first sort_by
agents_in_order = refl

-- The phase lists its members in the order of their calls, and the counters tell who failed.
members_in_order : map (λ p. p.agent_ids) failed_run.phases ≡ ("first" ∷ "second" ∷ []) ∷ []
unfolding project_workflow_state reduce_workflow_state create_workflow_state find_index modify_first
    sort_by call_index_of
members_in_order = refl

failures_counted : failed_run.counts.failed ≡ 2
unfolding project_workflow_state reduce_workflow_state create_workflow_state find_index modify_first
    sort_by
failures_counted = refl

project_workflow_state-IsWell_example : IsWell admitted_agents
unfolding project_workflow_state create_workflow_state find_index modify_first sort_by
project_workflow_state-IsWell_example =
    project_workflow_state-IsWell "run" beginning admitted_agents refl

reduce_workflow_state-IsWell_example : IsWell started
unfolding project_workflow_state create_workflow_state find_index modify_first sort_by
reduce_workflow_state-IsWell_example =
    reduce_workflow_state-IsWell admitted_agents start started project_workflow_state-IsWell_example
      refl

reduce_workflow_state_iff_example :
    IsOk (reduce_workflow_state admitted_agents start)
    ↔ (Accepted admitted_agents start × EventAllowed start.body (advanced admitted_agents start))
reduce_workflow_state_iff_example =
    reduce_workflow_state_iff admitted_agents start project_workflow_state-IsWell_example

reduce_workflow_state-others_example : agent_of "second" started ≡ agent_of "second" admitted_agents
unfolding project_workflow_state create_workflow_state find_index modify_first sort_by
reduce_workflow_state-others_example =
    reduce_workflow_state-others admitted_agents start "first" "second"
      (AgentEvent.started "attempt" attempt) started project_workflow_state-IsWell_example.agents
      refl (λ e. cc) refl

project_from-order_example :
    All
      (λ e. (e.run_id ≡ admitted_agents.run_id) × (admitted_agents.sequence < e.sequence))
      (start ∷ failure ∷ [])
    × Ascending (λ e. e.sequence) (start ∷ failure ∷ [])
    × (failed_run.run_id ≡ admitted_agents.run_id)
    × (failed_run.sequence ≡ last_sequence admitted_agents.sequence (start ∷ failure ∷ []))
unfolding project_from project_workflow_state create_workflow_state find_index modify_first sort_by
project_from-order_example =
    project_from-order admitted_agents (start ∷ failure ∷ []) failed_run refl

project_from_terminal_example :
    ¬ IsOk (project_from admitted_agents ((start ∷ failure ∷ []) ++ start ∷ []))
unfolding project_from create_workflow_state find_index modify_first sort_by project_workflow_state
project_from_terminal_example =
    project_from_terminal admitted_agents (start ∷ failure ∷ []) failed_run start [] refl refl

derive_counts-CountsMatch_example : CountsMatch (derive_counts started.agents) started.agents
derive_counts-CountsMatch_example = derive_counts-CountsMatch started.agents

reduce_workflow_state-closes_example :
    Along
      (ClosesAgent "t6" (record {
        agent_status = WorkflowAgentStatus.failed;
        attempt_status = WorkflowAttemptStatus.failed;
        error = some outage;
        reason = none;
      }))
      started.agents
      failed_run.agents
unfolding reduce_workflow_state project_workflow_state modify_first sort_by
reduce_workflow_state-closes_example =
    reduce_workflow_state-closes started failure (RunEvent.failed outage) _ failed_run refl refl
      refl

project_workflow_state-MembersListed_example : MembersListed admitted_agents
unfolding project_workflow_state create_workflow_state find_index modify_first sort_by
project_workflow_state-MembersListed_example =
    project_workflow_state-MembersListed "run" beginning admitted_agents refl
