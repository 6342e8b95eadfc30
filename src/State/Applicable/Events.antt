-- ===== src/State/Applicable/Events.antt =====
-- The reducer of src/workflowState.ts accepts exactly the allowed events.
use mathlib.Core.Logic.Iff
use workflow_mcp.Common.{
  sym, subst, ◌≢◌, ◌↔◌, String, Option, none, some, List, any, Pairwise, IsOk, IsOk-value, IsOk-map,
  IsOk-throw_if, any-key_iff, modify_first-IsOk_of_Any, ◌==◌,
}
use workflow_mcp.Events.{AgentAdmitted, AgentEvent, PhaseEvent, EventBody, WorkflowEvent}
use workflow_mcp.State.Snapshot.{WorkflowAgentSnapshot, WorkflowSnapshot}
use workflow_mcp.State.Update.{repeated_phase, has_agent_id}
use workflow_mcp.State.Derive.{finalize_derived_state}
use workflow_mcp.State.Handlers.Phase.{reduce_phase, discover_phase, change_phase, has_phase_id}
use workflow_mcp.State.Handlers.Admission.{admit_agent, join_phase}
use workflow_mcp.State.Handlers.Agent.{change_agent, reduce_agent}
use workflow_mcp.State.Agents.{AgentsWell}
use workflow_mcp.State.Invariant.{IsWell}
use workflow_mcp.State.Reduce.{apply_event, reduce_workflow_state}
use workflow_mcp.State.Guards.{
  Accepted, advanced, reduce_workflow_state-Reduced, guard_event_of_Accepted,
}
use workflow_mcp.State.Applicable.{AgentAllows, NamesPhase, PhaseAllows, EventAllowed}
use workflow_mcp.State.Applicable.Laws.{any-number_iff, change_agent_iff, update_agent_iff}
use workflow_mcp.State.Applicable.Outcomes.{apply_agent_outcome_iff, reuse_agent_iff}

join_phase_iff :
    (phase_id : Option String) (id : String) (s : WorkflowSnapshot)
    → Pairwise (λ p q. p.id ≢ q.id) s.phases
    → IsOk (join_phase phase_id id s) ↔ NamesPhase phase_id s
unfolding join_phase change_phase
join_phase_iff none id s w = Iff.rfl
join_phase_iff (some phase_id) id s w =
    Iff.trans (IsOk-map _ _) (modify_first-IsOk_of_Any (λ p. p.id) _ _ phase_id _ s.phases w)

names_phase :
    (phase_id : Option String) (s : WorkflowSnapshot) (agents : List WorkflowAgentSnapshot)
    → NamesPhase phase_id (record s { agents = agents }) ↔ NamesPhase phase_id s
names_phase none s agents = Iff.rfl
names_phase (some phase_id) s agents = Iff.rfl

admit_agent_iff :
    (timestamp id : String) (phase_id : Option String) (payload : AgentAdmitted)
    (s : WorkflowSnapshot)
    → Pairwise (λ p q. p.id ≢ q.id) s.phases
    → IsOk (admit_agent timestamp id phase_id payload s)
      ↔ EventAllowed (EventBody.agent id (AgentEvent.admitted phase_id payload)) s
unfolding admit_agent
admit_agent_iff timestamp id phase_id payload s w =
    let fresh = IsOk-throw_if (any (has_agent_id id) s.agents) _ _ in
    let other = IsOk-throw_if (any (λ a. a.call_index == payload.call_index) s.agents) _ _ in
    let fresh' = any-key_iff (λ a. a.id) id s.agents in
    let other' = any-number_iff (λ a. a.call_index) payload.call_index s.agents in
    let joined = join_phase_iff phase_id id _ w in
    (
      (λ h. (
        fresh'.0 (fresh.0 h).0,
        other'.0 (other.0 (fresh.0 h).1).0,
        (names_phase phase_id s _).0 (joined.0 (other.0 (fresh.0 h).1).1),
      )),
      (λ h.
          fresh.1
            (fresh'.1 h.0, other.1 (other'.1 h.1, joined.1 ((names_phase phase_id s _).1 h.2)))),
    )

reduce_agent_iff :
    (timestamp id : String) (event : AgentEvent) (s : WorkflowSnapshot)
    → AgentsWell s.agents
    → Pairwise (λ p q. p.id ≢ q.id) s.phases
    → IsOk (reduce_agent timestamp id event s) ↔ EventAllowed (EventBody.agent id event) s
unfolding reduce_agent
reduce_agent_iff timestamp id (AgentEvent.admitted phase_id payload) s w v =
    admit_agent_iff timestamp id phase_id payload s v
reduce_agent_iff timestamp id (AgentEvent.reused attempt_id outcome) s w v =
    reuse_agent_iff timestamp id attempt_id outcome s w
reduce_agent_iff timestamp id (AgentEvent.completed attempt_id outcome) s w v =
    apply_agent_outcome_iff id attempt_id outcome timestamp s w
reduce_agent_iff timestamp id event s w v =
    update_agent_iff id (AgentAllows event) (change_agent timestamp event) s w
      (change_agent_iff timestamp event)

reduce_phase_iff :
    (timestamp id : String) (event : PhaseEvent) (s : WorkflowSnapshot)
    → Pairwise (λ p q. p.id ≢ q.id) s.phases
    → IsOk (reduce_phase timestamp id event s) ↔ PhaseAllows id event s
unfolding reduce_phase discover_phase change_phase
reduce_phase_iff timestamp id (PhaseEvent.discovered payload) s w =
    let fresh = IsOk-throw_if (any (has_phase_id id) s.phases) (repeated_phase id) _ in
    let fresh' = any-key_iff (λ p. p.id) id s.phases in
    ((λ h. fresh'.0 (fresh.0 h).0), (λ h. fresh.1 (fresh'.1 h, tt)))
reduce_phase_iff timestamp id _ s w =
    Iff.trans (IsOk-map _ _) (modify_first-IsOk_of_Any (λ p. p.id) _ _ id _ s.phases w)

apply_event_iff :
    (event : WorkflowEvent) (body : EventBody) (s : WorkflowSnapshot)
    → IsWell s
    → IsOk (apply_event event body (advanced s event)) ↔ EventAllowed body (advanced s event)
unfolding apply_event
apply_event_iff event (EventBody.run body) s w = ((λ h. h), (λ h. h))
apply_event_iff event (EventBody.phase id body) s w =
    reduce_phase_iff event.timestamp id body (advanced s event) w.phases.ids
apply_event_iff event (EventBody.agent id body) s w =
    reduce_agent_iff event.timestamp id body (advanced s event) w.agents w.phases.ids
apply_event_iff event (EventBody.trace origin body) s w = ((λ h. h), (λ h. h))

-- In a well-formed snapshot an event is accepted exactly if it is of the run, has a higher sequence
-- number than the snapshot, finds the run not terminal, and is one that the agents and phases of the
-- snapshot allow (`EventAllowed`): what an agent or phase event creates is new, and what it refers to
-- exists; nothing more is asked of an event of the run or of a trace.
pub reduce_workflow_state_iff :
    (s : WorkflowSnapshot) (event : WorkflowEvent)
    → IsWell s
    → IsOk (reduce_workflow_state s event)
      ↔ (Accepted s event × EventAllowed event.body (advanced s event))
unfolding reduce_workflow_state
reduce_workflow_state_iff s event w = (forward, backward)
  where
    applies :
        IsOk (apply_event event event.body (advanced s event))
        ↔ EventAllowed event.body (advanced s event)
    applies = apply_event_iff event event.body s w

    forward :
        IsOk (reduce_workflow_state s event)
        → Accepted s event × EventAllowed event.body (advanced s event)
    forward h =
        let (t, e) = IsOk-value _ h in
        let r = reduce_workflow_state-Reduced s event t e in
        (r.accepted, applies.0 (subst IsOk (sym r.applied) tt))

    backward :
        Accepted s event × EventAllowed event.body (advanced s event)
        → IsOk (reduce_workflow_state s event)
    backward h =
        rw (guard_event_of_Accepted s event h.0, reduce_workflow_state)
          ((IsOk-map (apply_event event event.body (advanced s event)) finalize_derived_state).1
            (applies.1 h.1))
