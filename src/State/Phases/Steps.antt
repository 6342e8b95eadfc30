-- ===== src/State/Phases/Steps.antt =====
-- What each event of src/workflowState.ts does to the phases of a run.
use workflow_mcp.Common.{
  other_text, ◌≡◌, ap, refl, sym, ◌∙◌, subst, String, Option, none, some, List, [], ◌∷◌, ◌++◌,
  arith, All-map, any, any-false, ok, ◌>>=◌, >>=-eq-ok, Bool-cases, inl, inr, ◌==◌, Along,
  Along-refl, throw_if, Any-sort_by, Any-append_right, modify_first-Modifies, modify_first,
}
use workflow_mcp.Events.{
  AgentAdmitted, PhaseDiscovered, AgentEvent, RunEvent, PhaseEvent, TraceEvent, EventBody,
  WorkflowEvent,
}
use workflow_mcp.State.Snapshot.{Stamp, WorkflowPhaseSnapshot, WorkflowSnapshot}
use workflow_mcp.State.Update.{has_agent_id}
use workflow_mcp.State.Handlers.Run.{reduce_run}
use workflow_mcp.State.Handlers.Phase.{
  reduce_phase, discover_phase, change_phase, has_phase_id, new_phase,
}
use workflow_mcp.State.Handlers.Trace.{stamp, reduce_trace}
use workflow_mcp.State.Handlers.Admission.{new_agent, join_phase, admit_agent}
use workflow_mcp.State.Handlers.Agent.{change_agent, reduce_agent}
use workflow_mcp.State.Reduce.{apply_event}
use workflow_mcp.State.Frame.{
  AgentsOnly, update_agent-AgentsOnly, apply_agent_outcome-AgentsOnly, reuse_agent-AgentsOnly,
}
use workflow_mcp.State.Phases.{
  Knows, SamePhase, SamePhase-refl, PhasesStep, keep, discover, join, change_phase-SamePhase,
}

still : (s t : WorkflowSnapshot) → t.phases ≡ s.phases → PhasesStep t.agents s.phases t.phases
still s t e =
    keep (subst (Along SamePhase s.phases) (sym e) (Along-refl SamePhase SamePhase-refl s.phases))

quiet : (s t : WorkflowSnapshot) → AgentsOnly s t → PhasesStep t.agents s.phases t.phases
quiet s t e = still s t (ap (λ (u : WorkflowSnapshot). u.phases) e)

join_phase-PhasesStep :
    (phase_id : Option String) (agent_id : String) (s t : WorkflowSnapshot)
    → Knows s.agents agent_id
    → join_phase phase_id agent_id s ≡ ok t
    → PhasesStep t.agents s.phases t.phases
unfolding join_phase change_phase
join_phase-PhasesStep none agent_id s t known h = still s t (ground arith)
join_phase-PhasesStep (some phase_id) agent_id s t known h =
    let (phases, changed, e) = >>=-eq-ok (modify_first _ _ _ _ s.phases) _ h in
    let (i, x, y, at, found, hit, joined, e') =
      modify_first-Modifies _ _ _ _ s.phases phases changed in
    let agents : s.agents ≡ t.agents = ground arith in
    subst (λ xs. PhasesStep xs s.phases t.phases) agents
      (join agent_id i x known found (ground arith))

admit_agent-PhasesStep :
    (timestamp agent_id : String) (phase_id : Option String) (payload : AgentAdmitted)
    (s t : WorkflowSnapshot)
    → admit_agent timestamp agent_id phase_id payload s ≡ ok t
    → PhasesStep t.agents s.phases t.phases
unfolding admit_agent
admit_agent-PhasesStep timestamp agent_id phase_id payload s t h =
    let (u, fresh, h') = >>=-eq-ok (throw_if (any (has_agent_id agent_id) s.agents) _) _ h in
    let (v, other, e) =
      >>=-eq-ok (throw_if (any (λ a. a.call_index == payload.call_index) s.agents) _) _ h' in
    join_phase-PhasesStep phase_id agent_id _ t
      (Any-sort_by _ (λ a. a.id ≡ agent_id) (s.agents ++ _ ∷ [])
        (Any-append_right _ s.agents (new_agent timestamp agent_id phase_id payload ∷ [])
          (inl refl)))
      e

reduce_agent-PhasesStep :
    (timestamp agent_id : String) (event : AgentEvent) (s t : WorkflowSnapshot)
    → reduce_agent timestamp agent_id event s ≡ ok t
    → PhasesStep t.agents s.phases t.phases
unfolding reduce_agent
reduce_agent-PhasesStep timestamp agent_id (AgentEvent.admitted phase_id payload) s t h =
    admit_agent-PhasesStep timestamp agent_id phase_id payload s t h
reduce_agent-PhasesStep timestamp agent_id (AgentEvent.reused attempt_id outcome) s t h =
    quiet s t (reuse_agent-AgentsOnly timestamp agent_id attempt_id outcome s t h)
reduce_agent-PhasesStep timestamp agent_id (AgentEvent.completed attempt_id outcome) s t h =
    quiet s t (apply_agent_outcome-AgentsOnly agent_id attempt_id outcome timestamp s t h)
reduce_agent-PhasesStep timestamp agent_id event s t h =
    quiet s t (update_agent-AgentsOnly agent_id (change_agent timestamp event) s t h)

discover_phase-PhasesStep :
    (timestamp phase_id : String) (payload : PhaseDiscovered) (s t : WorkflowSnapshot)
    → discover_phase timestamp phase_id payload s ≡ ok t
    → PhasesStep t.agents s.phases t.phases
unfolding discover_phase
discover_phase-PhasesStep timestamp phase_id payload s t h =
    elim (Bool-cases (any (has_phase_id phase_id) s.phases)) [
      | inl repeated ↦ cc (rw repeated at h)
      | inr fresh ↦
          let h' = rw fresh at h in
          discover (new_phase timestamp phase_id payload)
            (All-map (λ p n. other_text p.id phase_id n) s.phases (any-false _ s.phases fresh)) refl
            (ground arith)
    ]

change_phase-PhasesStep :
    (phase_id : String) (change : WorkflowPhaseSnapshot → WorkflowPhaseSnapshot)
    (current : List WorkflowPhaseSnapshot → WorkflowSnapshot) (s t : WorkflowSnapshot)
    → ((p : WorkflowPhaseSnapshot) → SamePhase p (change p))
    → ((ps : List WorkflowPhaseSnapshot) → (current ps).phases ≡ ps)
    → (change_phase phase_id (λ p. ok (change p)) s.phases >>= λ phases. ok (current phases)) ≡ ok t
    → PhasesStep t.agents s.phases t.phases
change_phase-PhasesStep phase_id change current s t same put h =
    let (phases, changed, e) = >>=-eq-ok (change_phase phase_id _ s.phases) _ h in
    let e' : phases ≡ t.phases = sym (put phases) ∙ ground arith in
    keep (
      subst (Along SamePhase s.phases) e'
        (change_phase-SamePhase phase_id change s.phases phases same changed))

reduce_phase-PhasesStep :
    (timestamp phase_id : String) (event : PhaseEvent) (s t : WorkflowSnapshot)
    → reduce_phase timestamp phase_id event s ≡ ok t
    → PhasesStep t.agents s.phases t.phases
unfolding reduce_phase
reduce_phase-PhasesStep timestamp phase_id (PhaseEvent.discovered payload) s t h =
    discover_phase-PhasesStep timestamp phase_id payload s t h
reduce_phase-PhasesStep timestamp phase_id (PhaseEvent.entered title) s t h =
    change_phase-PhasesStep phase_id _ _ s t (λ p. record { id = refl; agent_ids = refl })
      (λ ps. refl) h
reduce_phase-PhasesStep timestamp phase_id (PhaseEvent.completed title) s t h =
    change_phase-PhasesStep phase_id _ _ s t (λ p. record { id = refl; agent_ids = refl })
      (λ ps. refl) h
reduce_phase-PhasesStep timestamp phase_id (PhaseEvent.failed title error) s t h =
    change_phase-PhasesStep phase_id _ _ s t (λ p. record { id = refl; agent_ids = refl })
      (λ ps. refl) h

pub reduce_run-phases :
    (timestamp : String) (event : RunEvent) (s : WorkflowSnapshot)
    → (reduce_run timestamp event s).phases ≡ s.phases
unfolding reduce_run
reduce_run-phases timestamp (RunEvent.failed error) s = refl
reduce_run-phases timestamp _ s = refl

pub reduce_trace-phases :
    (stamp : Stamp) (event : TraceEvent) (s : WorkflowSnapshot)
    → (reduce_trace stamp event s).phases ≡ s.phases
unfolding reduce_trace
reduce_trace-phases stamp (TraceEvent.log message level) s = refl
reduce_trace-phases stamp _ s = refl

pub apply_event-PhasesStep :
    (event : WorkflowEvent) (body : EventBody) (s t : WorkflowSnapshot)
    → apply_event event body s ≡ ok t
    → PhasesStep t.agents s.phases t.phases
unfolding apply_event
apply_event-PhasesStep event (EventBody.run body) s t h =
    still s t (ground (arith, reduce_run-phases event.timestamp body s))
apply_event-PhasesStep event (EventBody.phase phase_id body) s t h =
    reduce_phase-PhasesStep event.timestamp phase_id body s t h
apply_event-PhasesStep event (EventBody.agent agent_id body) s t h =
    reduce_agent-PhasesStep event.timestamp agent_id body s t h
apply_event-PhasesStep event (EventBody.trace origin body) s t h =
    still s t (ground (arith, reduce_trace-phases (stamp event origin) body s))
