-- ===== src/State/Members/Projection.antt =====
-- src/workflowState.ts: what the events about phases and agents do to the lists of members.
use workflow_mcp.Common.{
  ◌≡◌, refl, sym, ◌∙◌, ap, subst, ◌≢◌, String, Option, none, some, List, [], ◌∷◌, ◌++◌, arith, All,
  All-map, Pairwise, any, any-false, other_text, eq_iff, Along, Along-refl, throw_if, throw_if-ok,
  ok, ◌>>=◌, >>=-eq-ok, modify_first-Modifies, ◌==◌, set,
}
use workflow_mcp.Events.{AgentAdmitted, AgentEvent, PhaseEvent}
use workflow_mcp.State.Snapshot.{WorkflowPhaseSnapshot, WorkflowSnapshot}
use workflow_mcp.State.Update.{has_agent_id}
use workflow_mcp.State.Handlers.Phase.{
  reduce_phase, discover_phase, change_phase, has_phase_id, new_phase,
}
use workflow_mcp.State.Handlers.Admission.{
  new_agent, sort_agents, add_member, join_phase, admit_agent,
}
use workflow_mcp.State.Handlers.Agent.{change_agent, reduce_agent}
use workflow_mcp.State.Frame.{
  AgentsOnly, update_agent-AgentsOnly, apply_agent_outcome-AgentsOnly, reuse_agent-AgentsOnly,
}
use workflow_mcp.State.Agents.{Evolves, Evolves-refl, Evolved, AgentsWell, update_agent-Evolved}
use workflow_mcp.State.Agents.Changes.{change_agent-Evolves}
use workflow_mcp.State.Agents.Steps.{
  reduce_phase-agents, reuse_agent-Evolved, apply_agent_outcome-Evolved,
}
use workflow_mcp.State.Phases.{SamePhase, SamePhase-refl, change_phase-SamePhase}
use workflow_mcp.State.Members.Steps.{Listed, evolve-Listed, discover-Listed}
use workflow_mcp.State.Members.Listed.{admit_alone-Listed, admit_to-Listed}

abbrev pub MembersListed : WorkflowSnapshot → Type 0
MembersListed s = Listed s.agents s.phases

pub same_phases :
    (s t : WorkflowSnapshot)
    → Evolved s.agents t.agents
    → t.phases ≡ s.phases
    → MembersListed s
    → MembersListed t
same_phases s t e p =
    evolve-Listed s.agents t.agents s.phases t.phases e
      (subst (Along SamePhase s.phases) (sym p) (Along-refl SamePhase SamePhase-refl s.phases))

pub same_agents :
    (s t : WorkflowSnapshot)
    → t.agents ≡ s.agents
    → Along SamePhase s.phases t.phases
    → MembersListed s
    → MembersListed t
same_agents s t a =
    evolve-Listed s.agents t.agents s.phases t.phases
      (subst (Evolved s.agents) (sym a) (Along-refl Evolves Evolves-refl s.agents))

kept : (s t : WorkflowSnapshot) → AgentsOnly s t → t.phases ≡ s.phases
kept s t e = ap (λ (u : WorkflowSnapshot). u.phases) e

change_phase-MembersListed :
    (phase_id : String) (change : WorkflowPhaseSnapshot → WorkflowPhaseSnapshot)
    (current : List WorkflowPhaseSnapshot → WorkflowSnapshot) (s t : WorkflowSnapshot)
    → ((p : WorkflowPhaseSnapshot) → SamePhase p (change p))
    → ((ps : List WorkflowPhaseSnapshot) → (current ps).phases ≡ ps)
    → (change_phase phase_id (λ p. ok (change p)) s.phases >>= λ phases. ok (current phases)) ≡ ok t
    → t.agents ≡ s.agents
    → MembersListed s
    → MembersListed t
change_phase-MembersListed phase_id change current s t same put h a =
    let (phases, changed, e) = >>=-eq-ok (change_phase phase_id _ s.phases) _ h in
    let e' : phases ≡ t.phases = sym (put phases) ∙ ground arith in
    same_agents s t a (
      subst (Along SamePhase s.phases) e'
        (change_phase-SamePhase phase_id change s.phases phases same changed))

pub reduce_phase-MembersListed :
    (timestamp phase_id : String) (event : PhaseEvent) (s t : WorkflowSnapshot)
    → reduce_phase timestamp phase_id event s ≡ ok t
    → MembersListed s
    → MembersListed t
unfolding reduce_phase discover_phase
reduce_phase-MembersListed timestamp phase_id (PhaseEvent.discovered payload) s t h l =
    let (u, guard, e) = >>=-eq-ok (throw_if (any (has_phase_id phase_id) s.phases) _) _ h in
    let phase = new_phase timestamp phase_id payload in
    let fresh =
      All-map (λ p n. other_text p.id phase_id n) s.phases
        (any-false _ s.phases (throw_if-ok _ _ u guard)) in
    let agents : s.agents ≡ t.agents = ground arith in
    let phases : s.phases ++ phase ∷ [] ≡ t.phases = ground arith in
    subst (λ xs. Listed xs t.phases) agents
      (subst (Listed s.agents) phases (discover-Listed s.agents s.phases phase fresh refl l))
reduce_phase-MembersListed timestamp phase_id (PhaseEvent.entered title) s t h l =
    change_phase-MembersListed phase_id _ _ s t (λ p. record { id = refl; agent_ids = refl })
      (λ ps. refl) h (reduce_phase-agents timestamp phase_id (PhaseEvent.entered title) s t h) l
reduce_phase-MembersListed timestamp phase_id (PhaseEvent.completed title) s t h l =
    change_phase-MembersListed phase_id _ _ s t (λ p. record { id = refl; agent_ids = refl })
      (λ ps. refl) h (reduce_phase-agents timestamp phase_id (PhaseEvent.completed title) s t h) l
reduce_phase-MembersListed timestamp phase_id (PhaseEvent.failed title error) s t h l =
    change_phase-MembersListed phase_id _ _ s t (λ p. record { id = refl; agent_ids = refl })
      (λ ps. refl) h (reduce_phase-agents timestamp phase_id (PhaseEvent.failed title error) s t h)
      l

admit_agent-MembersListed :
    (timestamp agent_id : String) (phase_id : Option String) (payload : AgentAdmitted)
    (s t : WorkflowSnapshot)
    → AgentsWell s.agents
    → Pairwise (λ p q. p.id ≢ q.id) s.phases
    → admit_agent timestamp agent_id phase_id payload s ≡ ok t
    → MembersListed s
    → MembersListed t
unfolding admit_agent join_phase change_phase
admit_agent-MembersListed timestamp agent_id phase_id payload s t w d h l =
    let (u, guard, h') = >>=-eq-ok (throw_if (any (has_agent_id agent_id) s.agents) _) _ h in
    let (v, other, e) =
      >>=-eq-ok (throw_if (any (λ a. a.call_index == payload.call_index) s.agents) _) _ h' in
    joined phase_id
      (All-map (λ a n. other_text a.id agent_id n) s.agents
        (any-false _ s.agents (throw_if-ok _ _ u guard)))
      e
  where
    admitted : Option String → WorkflowSnapshot
    admitted id = record s {
      agents = sort_agents (s.agents ++ new_agent timestamp agent_id id payload ∷ []);
    }

    joined :
        (id : Option String)
        → All (λ a. a.id ≢ agent_id) s.agents
        → join_phase id agent_id (admitted id) ≡ ok t
        → MembersListed t
    joined none fresh k =
        let agents : (admitted none).agents ≡ t.agents = ground arith in
        let phases : s.phases ≡ t.phases = ground arith in
        subst (λ xs. Listed xs t.phases) agents
          (subst (Listed (admitted none).agents) phases (
            admit_alone-Listed s.agents (new_agent timestamp agent_id none payload) s.phases w refl
              l))
    joined (some id) fresh k =
        let (phases, changed, e) = >>=-eq-ok (change_phase id _ s.phases) _ k in
        let (i, p, q, at, found, hit, added, e') =
          modify_first-Modifies _ _ _ _ s.phases phases changed in
        let agent = new_agent timestamp agent_id (some id) payload in
        let agents : (admitted (some id)).agents ≡ t.agents = ground arith in
        let replaced : set s.phases i (add_member (admitted (some id)).agents agent_id p)
            ≡ t.phases =
          ground arith in
        subst (λ xs. Listed xs t.phases) agents
          (subst (Listed (admitted (some id)).agents) replaced (
            admit_to-Listed s.agents agent s.phases i p w d fresh found
              (ap some (sym ((eq_iff p.id id).0 hit))) l))

pub reduce_agent-MembersListed :
    (timestamp agent_id : String) (event : AgentEvent) (s t : WorkflowSnapshot)
    → AgentsWell s.agents
    → Pairwise (λ p q. p.id ≢ q.id) s.phases
    → reduce_agent timestamp agent_id event s ≡ ok t
    → MembersListed s
    → MembersListed t
unfolding reduce_agent
reduce_agent-MembersListed timestamp agent_id (AgentEvent.admitted phase_id payload) s t w d h =
    admit_agent-MembersListed timestamp agent_id phase_id payload s t w d h
reduce_agent-MembersListed timestamp agent_id (AgentEvent.reused attempt_id outcome) s t w d h =
    same_phases s t (reuse_agent-Evolved timestamp agent_id attempt_id outcome s t h)
      (kept s t (reuse_agent-AgentsOnly timestamp agent_id attempt_id outcome s t h))
reduce_agent-MembersListed timestamp agent_id (AgentEvent.completed attempt_id outcome) s t w d h =
    same_phases s t (apply_agent_outcome-Evolved agent_id attempt_id outcome timestamp s t h)
      (kept s t (apply_agent_outcome-AgentsOnly agent_id attempt_id outcome timestamp s t h))
reduce_agent-MembersListed timestamp agent_id event s t w d h =
    same_phases s t (update_agent-Evolved agent_id _ s t (change_agent-Evolves timestamp event) h)
      (kept s t (update_agent-AgentsOnly agent_id (change_agent timestamp event) s t h))
