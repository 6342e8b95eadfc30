-- ===== src/State/Invariant.antt =====
-- What holds of every snapshot that src/workflowState.ts projects.
use workflow_mcp.Common.{
  ◌≡◌, refl, sym, ◌∙◌, ap, subst, arith, String, List, [], ◌∷◌, ok, >>=-eq-ok,
}
use workflow_mcp.Events.{WorkflowEvent}
use workflow_mcp.State.Snapshot.{
  WorkflowRunStatus, WorkflowAgentSnapshot, WorkflowPhaseSnapshot, WorkflowSnapshot,
  create_workflow_state,
}
use workflow_mcp.State.Derive.{derive_counts, derive_phase, derive_phases, finalize_derived_state}
use workflow_mcp.State.Reduce.{
  apply_event, reduce_workflow_state, project_from, project_workflow_state,
}
use workflow_mcp.State.Guards.{
  Accepted, advanced, reduce_workflow_state-Reduced, reduce_workflow_state-position,
}
use workflow_mcp.State.Agents.{AgentsWell, AgentsStep-AgentsWell}
use workflow_mcp.State.Agents.Steps.{apply_event-AgentsStep}
use workflow_mcp.State.Phases.{
  PhasesWell, keep, PhasesStep-PhasesWell, AgentsStep-members, derive_phases-SamePhase,
}
use workflow_mcp.State.Phases.Steps.{apply_event-PhasesStep}
use workflow_mcp.State.Traces.{TracesWell, apply_event-TracesWell}
use workflow_mcp.State.Counts.{CountsMatch, derive_counts-CountsMatch}
use workflow_mcp.State.Closing.{IsAbandoned, AllSettled, apply_event-settled}

pub record IsWell (s : WorkflowSnapshot) : Type 0 where
  pub agents : AgentsWell s.agents
  pub phases : PhasesWell s.agents s.phases
  pub counts : CountsMatch s.counts s.agents
  pub derived : s.phases ≡ derive_phases s.phases s.agents s.status
  pub traces : TracesWell s.sequence s
  pub settled : IsAbandoned s.status → AllSettled s.agents

pub create_workflow_state-IsWell : (run_id : String) → IsWell (create_workflow_state run_id)
unfolding create_workflow_state derive_phases derive_counts
create_workflow_state-IsWell run_id = record {
  agents = record { ids = tt; order = tt; attempts = tt };
  phases = record { ids = tt; members = tt };
  counts = derive_counts-CountsMatch [];
  derived = refl;
  traces = record {
    logs = record { order = tt; bound = tt };
    warnings = record { order = tt; bound = tt };
    artifacts = record { order = tt; bound = tt };
  };
  settled = λ h. tt;
}

-- Deriving the phases again changes nothing.
derive_phases-derive_phases :
    (phases : List WorkflowPhaseSnapshot) (agents : List WorkflowAgentSnapshot)
    (status : WorkflowRunStatus)
    → derive_phases phases agents status
      ≡ derive_phases (derive_phases phases agents status) agents status
unfolding derive_phases
derive_phases-derive_phases [] agents status = refl
derive_phases-derive_phases (p ∷ ps) agents status =
    ap (◌∷◌ (derive_phase agents status p)) (derive_phases-derive_phases ps agents status)

-- What the switch has to establish, before the derived state is computed.
record IsRaw (s : WorkflowSnapshot) : Type 0 where
  agents : AgentsWell s.agents
  phases : PhasesWell s.agents s.phases
  traces : TracesWell s.sequence s
  settled : IsAbandoned s.status → AllSettled s.agents

finalize_derived_state-IsWell : (s : WorkflowSnapshot) → IsRaw s → IsWell (finalize_derived_state s)
unfolding finalize_derived_state
finalize_derived_state-IsWell s r = record {
  agents = r.agents;
  phases =
      PhasesStep-PhasesWell s.agents s.phases _
        (keep (derive_phases-SamePhase s.phases s.agents s.status)) r.phases;
  counts = derive_counts-CountsMatch s.agents;
  derived = derive_phases-derive_phases s.phases s.agents s.status;
  traces = record {
    logs = r.traces.logs;
    warnings = r.traces.warnings;
    artifacts = r.traces.artifacts;
  };
  settled = r.settled;
}

apply_event-IsRaw :
    (s : WorkflowSnapshot) (event : WorkflowEvent) (n : WorkflowSnapshot)
    → Accepted s event
    → n.sequence ≡ event.sequence
    → apply_event event event.body (advanced s event) ≡ ok n
    → IsWell s
    → IsRaw n
apply_event-IsRaw s event n a at h w =
    let step = apply_event-AgentsStep event event.body (advanced s event) n h in
    record {
      agents = AgentsStep-AgentsWell s.agents n.agents step w.agents;
      phases =
          PhasesStep-PhasesWell n.agents s.phases n.phases
            (apply_event-PhasesStep event event.body (advanced s event) n h)
            (record {
              ids = w.phases.ids;
              members = AgentsStep-members s.agents n.agents s.phases step w.phases.members;
            });
      traces =
          subst (λ m. TracesWell m n) (sym at)
            (apply_event-TracesWell event event.body s.sequence (advanced s event) n a.later h
              (record {
                logs = w.traces.logs;
                warnings = w.traces.warnings;
                artifacts = w.traces.artifacts;
              }));
      settled = apply_event-settled event event.body (advanced s event) n a.live h;
    }

-- An event that the reducer accepts in a well-formed snapshot leaves a well-formed snapshot.
pub reduce_workflow_state-IsWell :
    (s : WorkflowSnapshot) (event : WorkflowEvent) (t : WorkflowSnapshot)
    → IsWell s
    → reduce_workflow_state s event ≡ ok t
    → IsWell t
unfolding finalize_derived_state
reduce_workflow_state-IsWell s event t w h =
    let r = reduce_workflow_state-Reduced s event t h in
    let at : r.next.sequence ≡ event.sequence =
      sym (ap (λ (u : WorkflowSnapshot). u.sequence) r.derived)
      ∙ (reduce_workflow_state-position s event t h).1 in
    subst IsWell (sym r.derived) (
      finalize_derived_state-IsWell r.next
        (apply_event-IsRaw s event r.next r.accepted at r.applied w))

pub project_from-IsWell :
    (s : WorkflowSnapshot) (events : List WorkflowEvent) (t : WorkflowSnapshot)
    → IsWell s
    → project_from s events ≡ ok t
    → IsWell t
unfolding project_from
project_from-IsWell s [] t w h = subst IsWell (ground arith) w
project_from-IsWell s (event ∷ events) t w h =
    let (next, reduced, h') = >>=-eq-ok (reduce_workflow_state s event) _ h in
    project_from-IsWell next events t (reduce_workflow_state-IsWell s event next w reduced) h'

-- Every snapshot that a stream of events projects to from a new run is well formed (`IsWell`): the
-- identities of the agents are distinct and their call indices ascend, the attempts of each agent have
-- distinct identities and ascending numbers and their activities are distinct, phases are distinct and
-- list only agents that exist, the counters are the counts of the agents, the `complete` flags are
-- those that the derivation gives, logs, warnings and artifacts ascend by sequence number up to the
-- last event, and in a failed, cancelled or interrupted run every agent is terminal.
pub project_workflow_state-IsWell :
    (run_id : String) (events : List WorkflowEvent) (t : WorkflowSnapshot)
    → project_workflow_state run_id events ≡ ok t
    → IsWell t
unfolding project_workflow_state
project_workflow_state-IsWell run_id events t h =
    project_from-IsWell (create_workflow_state run_id) events t
      (create_workflow_state-IsWell run_id) h
