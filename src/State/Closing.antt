-- ===== src/State/Closing.antt =====
-- `closeNonterminalAgents` of src/workflowState.ts: a run that fails, is cancelled or is
-- interrupted leaves no agent running.
use workflow_mcp.Common.{
  ◌≡◌, refl, ap, ◌⊎◌, inl, inr, subst, arith, String, true, false, Option, none, some, List, [],
  ◌∷◌, map, All, Bool-cases, ok,
}
use workflow_mcp.Events.{WorkflowErrorReference, EventBody, RunEvent, TraceEvent, WorkflowEvent}
use workflow_mcp.State.Snapshot.{
  WorkflowRunStatus, WorkflowAttemptSnapshot, WorkflowAgentSnapshot, WorkflowSnapshot,
  is_terminal_run, is_terminal_agent,
}
use workflow_mcp.State.Derive.{
  CloseStatus, close_attempt, close_agent, close_nonterminal_agents, is_open_attempt, agent_status,
}
use workflow_mcp.State.Handlers.Run.{reduce_run, interruption}
use workflow_mcp.State.Handlers.Trace.{reduce_trace}
use workflow_mcp.State.Frame.{reduce_agent-MembersOnly, reduce_phase-MembersOnly}
use workflow_mcp.State.Reduce.{apply_event}

-- The run ended with no owner that could still advance an agent.
abbrev pub IsAbandoned : WorkflowRunStatus → Type 0
IsAbandoned status =
    (status ≡ WorkflowRunStatus.failed)
    ⊎ (status ≡ WorkflowRunStatus.cancelled)
    ⊎ (status ≡ WorkflowRunStatus.interrupted)

abbrev pub AllSettled : List WorkflowAgentSnapshot → Type 0
AllSettled = All λ a. is_terminal_agent a.status ≡ true

-- No attempt is running or stalled.
abbrev AttemptsClosed : WorkflowAgentSnapshot → Type 0
AttemptsClosed agent = All (λ t. is_open_attempt t.status ≡ false) agent.attempts

close_attempts :
    (status : CloseStatus) (timestamp : String) (error : Option WorkflowErrorReference)
    (attempts : List WorkflowAttemptSnapshot)
    → All
        (λ t. is_open_attempt t.status ≡ false)
        (map (close_attempt status timestamp error) attempts)
unfolding close_attempt
close_attempts status timestamp error [] = tt
close_attempts status timestamp error (t ∷ ts) =
    (ground arith, close_attempts status timestamp error ts)

close_agent_lem :
    (status : CloseStatus) (timestamp : String) (error : Option WorkflowErrorReference)
    (agent : WorkflowAgentSnapshot)
    → (is_terminal_agent agent.status ≡ true → close_agent status timestamp error agent ≡ agent)
      × (is_terminal_agent agent.status ≡ false
          → ((close_agent status timestamp error agent).status ≡ agent_status status)
            × (is_terminal_agent (agent_status status) ≡ true)
            × AttemptsClosed (close_agent status timestamp error agent))
unfolding close_agent is_terminal_agent
close_agent_lem status timestamp error agent = (
  λ over. rw over refl,
  λ live. rw live (refl, closed status, close_attempts status timestamp error agent.attempts),
)
  where
    closed : (c : CloseStatus) → is_terminal_agent (agent_status c) ≡ true
    closed CloseStatus.failed = refl
    closed CloseStatus.cancelled = refl

close_agent-terminal :
    (status : CloseStatus) (timestamp : String) (error : Option WorkflowErrorReference)
    (agent : WorkflowAgentSnapshot)
    → is_terminal_agent (close_agent status timestamp error agent).status ≡ true
close_agent-terminal status timestamp error agent =
    let (over, live) = close_agent_lem status timestamp error agent in
    elim (Bool-cases (is_terminal_agent agent.status)) [
      | inl p ↦ rw (over p) p
      | inr p ↦ rw (live p).0 (live p).1
    ]

pub close_nonterminal_agents-AllSettled :
    (status : CloseStatus) (timestamp : String) (error : Option WorkflowErrorReference)
    (agents : List WorkflowAgentSnapshot)
    → AllSettled (close_nonterminal_agents status timestamp error agents)
unfolding close_nonterminal_agents
close_nonterminal_agents-AllSettled status timestamp error [] = tt
close_nonterminal_agents-AllSettled status timestamp error (a ∷ rest) = (
  close_agent-terminal status timestamp error a,
  close_nonterminal_agents-AllSettled status timestamp error rest,
)

reduce_run-settled :
    (timestamp : String) (event : RunEvent) (s : WorkflowSnapshot)
    → IsAbandoned (reduce_run timestamp event s).status
    → AllSettled (reduce_run timestamp event s).agents
unfolding reduce_run
reduce_run-settled timestamp (RunEvent.failed error) s h =
    close_nonterminal_agents-AllSettled CloseStatus.failed timestamp (some error) s.agents
reduce_run-settled timestamp (RunEvent.cancelled reason) s h =
    close_nonterminal_agents-AllSettled CloseStatus.cancelled timestamp none s.agents
reduce_run-settled timestamp (RunEvent.interrupted reason) s h =
    close_nonterminal_agents-AllSettled CloseStatus.failed timestamp (some (interruption reason))
      s.agents
reduce_run-settled timestamp (RunEvent.completed result with_errors) s h = absurd (ground arith)
reduce_run-settled timestamp _ s h = absurd (ground arith)

not-abandoned :
    (s t : WorkflowSnapshot)
    → is_terminal_run s.status ≡ false
    → t.status ≡ s.status
    → IsAbandoned t.status
    → AllSettled t.agents
unfolding is_terminal_run
not-abandoned s t live e h = absurd (ground arith)

pub apply_event-settled :
    (event : WorkflowEvent) (body : EventBody) (s t : WorkflowSnapshot)
    → is_terminal_run s.status ≡ false
    → apply_event event body s ≡ ok t
    → IsAbandoned t.status
    → AllSettled t.agents
unfolding apply_event reduce_trace
apply_event-settled event (EventBody.run body) s t live e h =
    let k : reduce_run event.timestamp body s ≡ t = ground arith in
    subst (λ u. AllSettled u.agents) k (reduce_run-settled event.timestamp body s (rw k h))
apply_event-settled event (EventBody.phase phase_id body) s t live e h =
    not-abandoned s t live
      (ap (λ (u : WorkflowSnapshot). u.status)
        (reduce_phase-MembersOnly event.timestamp phase_id body s t e))
      h
apply_event-settled event (EventBody.agent agent_id body) s t live e h =
    not-abandoned s t live
      (ap (λ (u : WorkflowSnapshot). u.status)
        (reduce_agent-MembersOnly event.timestamp agent_id body s t e))
      h
apply_event-settled event (EventBody.trace origin body) s t live e h =
    not-abandoned s t live (trace body e) h
  where
    trace :
        (b : TraceEvent)
        → apply_event event (EventBody.trace origin b) s ≡ ok t
        → t.status ≡ s.status
    trace (TraceEvent.log message level) k = ground arith
    trace _ k = ground arith
