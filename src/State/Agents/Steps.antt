-- ===== src/State/Agents/Steps.antt =====
-- What each event of src/workflowState.ts does to the agents of a run.
use workflow_mcp.Common.{
  other_text, ◌≡◌, refl, sym, subst, String, Option, none, some, arith, All-map, any, any-false, ok,
  >>=-eq-ok, Bool-cases, Option-cases, inl, inr, ◌==◌, Along-refl, Along-trans, Along-map, throw_if,
}
use workflow_mcp.Events.{
  AgentAdmitted, AgentOutcome, AgentEvent, RunEvent, PhaseEvent, TraceEvent, EventBody,
  WorkflowEvent,
}
use workflow_mcp.State.Snapshot.{WorkflowSnapshot}
use workflow_mcp.State.Update.{has_agent_id, update_agent, update_attempt}
use workflow_mcp.State.Derive.{close_nonterminal_agents, CloseStatus}
use workflow_mcp.State.Attempts.Changes.{same_fields}
use workflow_mcp.State.Handlers.Run.{reduce_run, interruption}
use workflow_mcp.State.Handlers.Phase.{reduce_phase, discover_phase, change_phase, has_phase_id}
use workflow_mcp.State.Handlers.Trace.{reduce_trace}
use workflow_mcp.State.Handlers.Admission.{new_agent, join_phase, admit_agent}
use workflow_mcp.State.Handlers.Settlement.{
  settle_attempt, apply_agent_outcome, apply_reused_coverage_gap, reuse_agent,
}
use workflow_mcp.State.Handlers.Agent.{reduce_agent}
use workflow_mcp.State.Reduce.{apply_event}
use workflow_mcp.State.Frame.{reuse_agent-cases}
use workflow_mcp.State.Agents.{
  Evolves, Evolves-refl, Evolves-trans, Evolved, update_agent-Evolved, AgentsStep, evolve, admit,
}
use workflow_mcp.State.Agents.Changes.{
  Evolves-fields, with_attempt-Evolves, change_agent-Evolves, close_agent-Evolves,
}

still : (s t : WorkflowSnapshot) → t.agents ≡ s.agents → AgentsStep s.agents t.agents
still s t e = evolve (subst (Evolved s.agents) (sym e) (Along-refl Evolves Evolves-refl s.agents))

pub join_phase-agents :
    (phase_id : Option String) (agent_id : String) (s t : WorkflowSnapshot)
    → join_phase phase_id agent_id s ≡ ok t
    → t.agents ≡ s.agents
unfolding join_phase
join_phase-agents none agent_id s t h = ground arith
join_phase-agents (some phase_id) agent_id s t h =
    let (phases, changed, e) = >>=-eq-ok (change_phase phase_id _ s.phases) _ h in ground arith

admit_agent-AgentsStep :
    (timestamp agent_id : String) (phase_id : Option String) (payload : AgentAdmitted)
    (s t : WorkflowSnapshot)
    → admit_agent timestamp agent_id phase_id payload s ≡ ok t
    → AgentsStep s.agents t.agents
unfolding admit_agent
admit_agent-AgentsStep timestamp agent_id phase_id payload s t h =
    elim (Bool-cases (any (has_agent_id agent_id) s.agents)) [
      | inl repeated ↦ cc (rw repeated at h)
      | inr fresh ↦ elim (Bool-cases (any (λ a. a.call_index == payload.call_index) s.agents)) [
        | inl repeated ↦ cc (rw (fresh, repeated) at h)
        | inr other ↦
            admit (new_agent timestamp agent_id phase_id payload)
              (All-map (λ a n. other_text a.id agent_id n) s.agents (any-false _ s.agents fresh))
              (All-map (λ a n. ground arith) s.agents (any-false _ s.agents other)) refl
              (join_phase-agents phase_id agent_id _ t (rw (fresh, other) at h))
      ]
    ]

pub update_attempt-Evolved :
    (agent_id : String) (attempt_id : Option String) (outcome : AgentOutcome) (timestamp : String)
    (s t : WorkflowSnapshot)
    → settle_attempt agent_id attempt_id outcome timestamp s ≡ ok t
    → Evolved s.agents t.agents
unfolding settle_attempt update_attempt
update_attempt-Evolved agent_id none outcome timestamp s t h =
    let e : s.agents ≡ t.agents = ground arith in
    subst (Evolved s.agents) e (Along-refl Evolves Evolves-refl s.agents)
update_attempt-Evolved agent_id (some attempt_id) outcome timestamp s t h =
    update_agent-Evolved agent_id _ s t
      (with_attempt-Evolves attempt_id _
        (λ x y e. same_fields x y (ground arith) (ground arith) (ground arith)))
      h

pub apply_agent_outcome-Evolved :
    (agent_id : String) (attempt_id : Option String) (outcome : AgentOutcome) (timestamp : String)
    (s t : WorkflowSnapshot)
    → apply_agent_outcome agent_id attempt_id outcome timestamp s ≡ ok t
    → Evolved s.agents t.agents
unfolding apply_agent_outcome
apply_agent_outcome-Evolved agent_id attempt_id outcome timestamp s t h =
    let (next, done, h') = >>=-eq-ok (update_agent agent_id _ s) _ h in
    Along-trans Evolves Evolves-trans s.agents next.agents t.agents
      (update_agent-Evolved agent_id _ s next
        (λ x y e. Evolves-fields x y (ground arith) (ground arith) (ground arith) (ground arith))
        done)
      (update_attempt-Evolved agent_id attempt_id outcome timestamp next t h')

fill_gap-Evolved :
    (agent_id : String) (outcome : AgentOutcome) (timestamp : String) (s t : WorkflowSnapshot)
    → apply_reused_coverage_gap agent_id outcome timestamp s ≡ ok t
    → Evolved s.agents t.agents
unfolding apply_reused_coverage_gap
fill_gap-Evolved agent_id outcome timestamp s t h = elim (Option-cases outcome.coverage_gap) [
  | inl missing ↦ cc (rw (missing, apply_reused_coverage_gap) at h)
  | inr (gap, present) ↦
      update_agent-Evolved agent_id _ s t
        (λ x y e. Evolves-fields x y (ground arith) (ground arith) (ground arith) (ground arith))
        (rw (present, apply_reused_coverage_gap) at h)
]

pub reuse_agent-Evolved :
    (timestamp agent_id : String) (attempt_id : Option String) (outcome : AgentOutcome)
    (s t : WorkflowSnapshot)
    → reuse_agent timestamp agent_id attempt_id outcome s ≡ ok t
    → Evolved s.agents t.agents
reuse_agent-Evolved timestamp agent_id attempt_id outcome s t h =
    elim (reuse_agent-cases timestamp agent_id attempt_id outcome s t h) [
      | inl e ↦ fill_gap-Evolved agent_id outcome timestamp s t e
      | inr e ↦ apply_agent_outcome-Evolved agent_id none outcome timestamp s t e
    ]

pub reduce_agent-AgentsStep :
    (timestamp agent_id : String) (event : AgentEvent) (s t : WorkflowSnapshot)
    → reduce_agent timestamp agent_id event s ≡ ok t
    → AgentsStep s.agents t.agents
unfolding reduce_agent
reduce_agent-AgentsStep timestamp agent_id (AgentEvent.admitted phase_id payload) s t h =
    admit_agent-AgentsStep timestamp agent_id phase_id payload s t h
reduce_agent-AgentsStep timestamp agent_id (AgentEvent.reused attempt_id outcome) s t h =
    evolve (reuse_agent-Evolved timestamp agent_id attempt_id outcome s t h)
reduce_agent-AgentsStep timestamp agent_id (AgentEvent.completed attempt_id outcome) s t h =
    evolve (apply_agent_outcome-Evolved agent_id attempt_id outcome timestamp s t h)
reduce_agent-AgentsStep timestamp agent_id event s t h =
    evolve (update_agent-Evolved agent_id _ s t (change_agent-Evolves timestamp event) h)

pub reduce_run-Evolved :
    (timestamp : String) (event : RunEvent) (s : WorkflowSnapshot)
    → Evolved s.agents (reduce_run timestamp event s).agents
unfolding reduce_run close_nonterminal_agents
reduce_run-Evolved timestamp (RunEvent.failed error) s =
    Along-map Evolves _ (close_agent-Evolves CloseStatus.failed timestamp (some error)) s.agents
reduce_run-Evolved timestamp (RunEvent.cancelled reason) s =
    Along-map Evolves _ (close_agent-Evolves CloseStatus.cancelled timestamp none) s.agents
reduce_run-Evolved timestamp (RunEvent.interrupted reason) s =
    Along-map Evolves _
      (close_agent-Evolves CloseStatus.failed timestamp (some (interruption reason))) s.agents
reduce_run-Evolved timestamp _ s = Along-refl Evolves Evolves-refl s.agents

pub reduce_phase-agents :
    (timestamp phase_id : String) (event : PhaseEvent) (s t : WorkflowSnapshot)
    → reduce_phase timestamp phase_id event s ≡ ok t
    → t.agents ≡ s.agents
unfolding reduce_phase discover_phase
reduce_phase-agents timestamp phase_id (PhaseEvent.discovered payload) s t h =
    let (u, guard, e) = >>=-eq-ok (throw_if (any (has_phase_id phase_id) s.phases) _) _ h in
    ground arith
reduce_phase-agents timestamp phase_id (PhaseEvent.entered title) s t h =
    let (phases, changed, e) = >>=-eq-ok (change_phase phase_id _ s.phases) _ h in ground arith
reduce_phase-agents timestamp phase_id (PhaseEvent.completed title) s t h =
    let (phases, changed, e) = >>=-eq-ok (change_phase phase_id _ s.phases) _ h in ground arith
reduce_phase-agents timestamp phase_id (PhaseEvent.failed title error) s t h =
    let (phases, changed, e) = >>=-eq-ok (change_phase phase_id _ s.phases) _ h in ground arith

pub apply_event-AgentsStep :
    (event : WorkflowEvent) (body : EventBody) (s t : WorkflowSnapshot)
    → apply_event event body s ≡ ok t
    → AgentsStep s.agents t.agents
unfolding apply_event reduce_trace
apply_event-AgentsStep event (EventBody.run body) s t h =
    let e : (reduce_run event.timestamp body s).agents ≡ t.agents = ground arith in
    subst (AgentsStep s.agents) e (evolve (reduce_run-Evolved event.timestamp body s))
apply_event-AgentsStep event (EventBody.phase phase_id body) s t h =
    still s t (reduce_phase-agents event.timestamp phase_id body s t h)
apply_event-AgentsStep event (EventBody.agent agent_id body) s t h =
    reduce_agent-AgentsStep event.timestamp agent_id body s t h
apply_event-AgentsStep event (EventBody.trace origin body) s t h = trace body h
  where
    trace :
        (b : TraceEvent)
        → apply_event event (EventBody.trace origin b) s ≡ ok t
        → AgentsStep s.agents t.agents
    trace (TraceEvent.log message level) e = still s t (ground arith)
    trace (TraceEvent.warning message code details) e = still s t (ground arith)
    trace (TraceEvent.artifact_created created) e = still s t (ground arith)
