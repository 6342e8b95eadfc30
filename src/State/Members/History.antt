-- ===== src/State/Members/History.antt =====
-- src/workflowState.ts: the lists of members in every projected snapshot.
use workflow_mcp.Common.{
  ◌≡◌, refl, sym, subst, ◌≢◌, String, List, [], ◌∷◌, arith, Pairwise, Along, Along-refl, ok,
  >>=-eq-ok,
}
use workflow_mcp.Events.{TraceEvent, EventBody, WorkflowEvent}
use workflow_mcp.State.Snapshot.{Stamp, WorkflowSnapshot, create_workflow_state}
use workflow_mcp.State.Derive.{finalize_derived_state}
use workflow_mcp.State.Handlers.Run.{reduce_run}
use workflow_mcp.State.Handlers.Trace.{stamp, reduce_trace}
use workflow_mcp.State.Reduce.{
  apply_event, reduce_workflow_state, project_from, project_workflow_state,
}
use workflow_mcp.State.Guards.{advanced, reduce_workflow_state-Reduced}
use workflow_mcp.State.Agents.{AgentsWell}
use workflow_mcp.State.Agents.Steps.{reduce_run-Evolved}
use workflow_mcp.State.Phases.{SamePhase, SamePhase-refl, derive_phases-SamePhase}
use workflow_mcp.State.Phases.Steps.{reduce_run-phases, reduce_trace-phases}
use workflow_mcp.State.Invariant.{
  IsWell, reduce_workflow_state-IsWell, create_workflow_state-IsWell,
}
use workflow_mcp.State.Members.Projection.{
  MembersListed, same_phases, same_agents, reduce_phase-MembersListed, reduce_agent-MembersListed,
}

reduce_trace-agents :
    (stamp : Stamp) (event : TraceEvent) (s : WorkflowSnapshot)
    → (reduce_trace stamp event s).agents ≡ s.agents
unfolding reduce_trace
reduce_trace-agents stamp (TraceEvent.log message level) s = refl
reduce_trace-agents stamp _ s = refl

apply_event-MembersListed :
    (event : WorkflowEvent) (body : EventBody) (s t : WorkflowSnapshot)
    → AgentsWell s.agents
    → Pairwise (λ p q. p.id ≢ q.id) s.phases
    → apply_event event body s ≡ ok t
    → MembersListed s
    → MembersListed t
unfolding apply_event
apply_event-MembersListed event (EventBody.run body) s t w d h l =
    let e : reduce_run event.timestamp body s ≡ t = ground arith in
    subst MembersListed e (
      same_phases s (reduce_run event.timestamp body s) (reduce_run-Evolved event.timestamp body s)
        (reduce_run-phases event.timestamp body s) l)
apply_event-MembersListed event (EventBody.phase phase_id body) s t w d h l =
    reduce_phase-MembersListed event.timestamp phase_id body s t h l
apply_event-MembersListed event (EventBody.agent agent_id body) s t w d h l =
    reduce_agent-MembersListed event.timestamp agent_id body s t w d h l
apply_event-MembersListed event (EventBody.trace origin body) s t w d h l =
    let e : reduce_trace (stamp event origin) body s ≡ t = ground arith in
    subst MembersListed e (
      same_agents s (reduce_trace (stamp event origin) body s)
        (reduce_trace-agents (stamp event origin) body s)
        (subst (Along SamePhase s.phases) (sym (reduce_trace-phases (stamp event origin) body s))
          (Along-refl SamePhase SamePhase-refl s.phases))
        l)

project_from-MembersListed :
    (s : WorkflowSnapshot) (events : List WorkflowEvent) (t : WorkflowSnapshot)
    → IsWell s
    → MembersListed s
    → project_from s events ≡ ok t
    → MembersListed t
unfolding project_from finalize_derived_state
project_from-MembersListed s [] t w l h =
    let same : s ≡ t = ground arith in subst MembersListed same l
project_from-MembersListed s (event ∷ events) t w l h =
    let (next, reduced, h') = >>=-eq-ok (reduce_workflow_state s event) _ h in
    let r = reduce_workflow_state-Reduced s event next reduced in
    let raw =
      apply_event-MembersListed event event.body (advanced s event) r.next w.agents w.phases.ids
        r.applied l in
    let derived =
      same_agents r.next (finalize_derived_state r.next) refl
        (derive_phases-SamePhase r.next.phases r.next.agents r.next.status) raw in
    project_from-MembersListed next events t (reduce_workflow_state-IsWell s event next w reduced)
      (subst MembersListed (sym r.derived) derived) h'

-- In every snapshot that a stream of events projects to from a new run, each phase lists exactly the
-- identities of the agents that were admitted to it, in the order of the agents, and the phase that
-- an agent was admitted to, if any, was discovered.
pub project_workflow_state-MembersListed :
    (run_id : String) (events : List WorkflowEvent) (t : WorkflowSnapshot)
    → project_workflow_state run_id events ≡ ok t
    → MembersListed t
unfolding project_workflow_state create_workflow_state
project_workflow_state-MembersListed run_id events t h =
    project_from-MembersListed (create_workflow_state run_id) events t
      (create_workflow_state-IsWell run_id) (record { lists = tt; known = tt }) h
