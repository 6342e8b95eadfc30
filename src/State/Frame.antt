-- ===== src/State/Frame.antt =====
-- What an event about phases, agents or the trace leaves alone, in src/workflowState.ts.
use workflow_mcp.Common.{
  ◌≡◌, ◌∙◌, ap, ◌⊎◌, String, Option, none, some, arith, any, Result, ok, >>=-eq-ok, Option-cases,
  inl, inr, ◌==◌, throw_if, modify_first,
}
use workflow_mcp.Events.{AgentAdmitted, AgentOutcome, AgentEvent, PhaseEvent}
use workflow_mcp.State.Snapshot.{WorkflowAgentSnapshot, WorkflowSnapshot}
use workflow_mcp.State.Update.{ReduceError, has_agent_id, update_agent, update_attempt}
use workflow_mcp.State.Handlers.Phase.{reduce_phase, discover_phase, change_phase, has_phase_id}
use workflow_mcp.State.Handlers.Admission.{join_phase, admit_agent}
use workflow_mcp.State.Handlers.Settlement.{
  settle_attempt, apply_agent_outcome, apply_reused_coverage_gap, reuse_agent,
}
use workflow_mcp.State.Handlers.Agent.{change_agent, reduce_agent}

-- Only the agents changed; only the agents and the phases did.
abbrev pub AgentsOnly : WorkflowSnapshot → WorkflowSnapshot → Type 0
AgentsOnly s t = t ≡ record s { agents = t.agents }

abbrev pub MembersOnly : WorkflowSnapshot → WorkflowSnapshot → Type 0
MembersOnly s t =
    t ≡ record s { agents = t.agents; phases = t.phases; current_phase_id = t.current_phase_id }

pub update_agent-AgentsOnly :
    (agent_id : String) (update : WorkflowAgentSnapshot → Result ReduceError WorkflowAgentSnapshot)
    (s t : WorkflowSnapshot)
    → update_agent agent_id update s ≡ ok t
    → AgentsOnly s t
unfolding update_agent
update_agent-AgentsOnly agent_id update s t h =
    let (agents, changed, e) = >>=-eq-ok (modify_first _ _ _ update s.agents) _ h in ground arith

settle_attempt-AgentsOnly :
    (agent_id : String) (attempt_id : Option String) (outcome : AgentOutcome) (timestamp : String)
    (s t : WorkflowSnapshot)
    → settle_attempt agent_id attempt_id outcome timestamp s ≡ ok t
    → AgentsOnly s t
unfolding settle_attempt update_attempt
settle_attempt-AgentsOnly agent_id none outcome timestamp s t h = ground arith
settle_attempt-AgentsOnly agent_id (some attempt_id) outcome timestamp s t h =
    update_agent-AgentsOnly agent_id _ s t h

AgentsOnly-trans : (s t u : WorkflowSnapshot) → AgentsOnly s t → AgentsOnly t u → AgentsOnly s u
AgentsOnly-trans s t u e f = f ∙ ap (λ (v : WorkflowSnapshot). record v { agents = u.agents }) e

pub apply_agent_outcome-AgentsOnly :
    (agent_id : String) (attempt_id : Option String) (outcome : AgentOutcome) (timestamp : String)
    (s t : WorkflowSnapshot)
    → apply_agent_outcome agent_id attempt_id outcome timestamp s ≡ ok t
    → AgentsOnly s t
unfolding apply_agent_outcome
apply_agent_outcome-AgentsOnly agent_id attempt_id outcome timestamp s t h =
    let (next, done, h') = >>=-eq-ok (update_agent agent_id _ s) _ h in
    AgentsOnly-trans s next t (update_agent-AgentsOnly agent_id _ s next done)
      (settle_attempt-AgentsOnly agent_id attempt_id outcome timestamp next t h')

fill_gap-AgentsOnly :
    (agent_id : String) (outcome : AgentOutcome) (timestamp : String) (s t : WorkflowSnapshot)
    → apply_reused_coverage_gap agent_id outcome timestamp s ≡ ok t
    → AgentsOnly s t
unfolding apply_reused_coverage_gap
fill_gap-AgentsOnly agent_id outcome timestamp s t h = elim (Option-cases outcome.coverage_gap) [
  | inl missing ↦ cc (rw (missing, apply_reused_coverage_gap) at h)
  | inr (gap, present) ↦
      update_agent-AgentsOnly agent_id _ s t (rw (present, apply_reused_coverage_gap) at h)
]

-- A reuse is one of the two updates that its guards let through.
pub reuse_agent-cases :
    (timestamp agent_id : String) (attempt_id : Option String) (outcome : AgentOutcome)
    (s t : WorkflowSnapshot)
    → reuse_agent timestamp agent_id attempt_id outcome s ≡ ok t
    → (apply_reused_coverage_gap agent_id outcome timestamp s ≡ ok t)
      ⊎ (apply_agent_outcome agent_id none outcome timestamp s ≡ ok t)
unfolding reuse_agent
reuse_agent-cases timestamp agent_id attempt_id outcome s t h = ground arith

pub reuse_agent-AgentsOnly :
    (timestamp agent_id : String) (attempt_id : Option String) (outcome : AgentOutcome)
    (s t : WorkflowSnapshot)
    → reuse_agent timestamp agent_id attempt_id outcome s ≡ ok t
    → AgentsOnly s t
reuse_agent-AgentsOnly timestamp agent_id attempt_id outcome s t h =
    elim (reuse_agent-cases timestamp agent_id attempt_id outcome s t h) [
      | inl e ↦ fill_gap-AgentsOnly agent_id outcome timestamp s t e
      | inr e ↦ apply_agent_outcome-AgentsOnly agent_id none outcome timestamp s t e
    ]

join_phase-MembersOnly :
    (phase_id : Option String) (agent_id : String) (s t : WorkflowSnapshot)
    → join_phase phase_id agent_id s ≡ ok t
    → MembersOnly s t
unfolding join_phase
join_phase-MembersOnly none agent_id s t h = ground arith
join_phase-MembersOnly (some phase_id) agent_id s t h =
    let (phases, changed, e) = >>=-eq-ok (change_phase phase_id _ s.phases) _ h in ground arith

admit_agent-MembersOnly :
    (timestamp agent_id : String) (phase_id : Option String) (payload : AgentAdmitted)
    (s t : WorkflowSnapshot)
    → admit_agent timestamp agent_id phase_id payload s ≡ ok t
    → MembersOnly s t
unfolding admit_agent
admit_agent-MembersOnly timestamp agent_id phase_id payload s t h =
    let (u, fresh, h') = >>=-eq-ok (throw_if (any (has_agent_id agent_id) s.agents) _) _ h in
    let (v, other, e) =
      >>=-eq-ok (throw_if (any (λ a. a.call_index == payload.call_index) s.agents) _) _ h' in
    let joined = join_phase-MembersOnly phase_id agent_id _ t e in joined

AgentsOnly-MembersOnly : (s t : WorkflowSnapshot) → AgentsOnly s t → MembersOnly s t
AgentsOnly-MembersOnly s t e = ground arith

pub reduce_agent-MembersOnly :
    (timestamp agent_id : String) (event : AgentEvent) (s t : WorkflowSnapshot)
    → reduce_agent timestamp agent_id event s ≡ ok t
    → MembersOnly s t
unfolding reduce_agent
reduce_agent-MembersOnly timestamp agent_id (AgentEvent.admitted phase_id payload) s t h =
    admit_agent-MembersOnly timestamp agent_id phase_id payload s t h
reduce_agent-MembersOnly timestamp agent_id (AgentEvent.reused attempt_id outcome) s t h =
    AgentsOnly-MembersOnly s t (reuse_agent-AgentsOnly timestamp agent_id attempt_id outcome s t h)
reduce_agent-MembersOnly timestamp agent_id (AgentEvent.completed attempt_id outcome) s t h =
    AgentsOnly-MembersOnly s t
      (apply_agent_outcome-AgentsOnly agent_id attempt_id outcome timestamp s t h)
reduce_agent-MembersOnly timestamp agent_id event s t h =
    AgentsOnly-MembersOnly s t
      (update_agent-AgentsOnly agent_id (change_agent timestamp event) s t h)

pub reduce_phase-MembersOnly :
    (timestamp phase_id : String) (event : PhaseEvent) (s t : WorkflowSnapshot)
    → reduce_phase timestamp phase_id event s ≡ ok t
    → MembersOnly s t
unfolding reduce_phase discover_phase
reduce_phase-MembersOnly timestamp phase_id (PhaseEvent.discovered payload) s t h =
    let (u, guard, e) = >>=-eq-ok (throw_if (any (has_phase_id phase_id) s.phases) _) _ h in
    ground arith
reduce_phase-MembersOnly timestamp phase_id (PhaseEvent.entered title) s t h =
    let (phases, changed, e) = >>=-eq-ok (change_phase phase_id _ s.phases) _ h in ground arith
reduce_phase-MembersOnly timestamp phase_id (PhaseEvent.completed title) s t h =
    let (phases, changed, e) = >>=-eq-ok (change_phase phase_id _ s.phases) _ h in ground arith
reduce_phase-MembersOnly timestamp phase_id (PhaseEvent.failed title error) s t h =
    let (phases, changed, e) = >>=-eq-ok (change_phase phase_id _ s.phases) _ h in ground arith
