-- ===== src/State/Handlers/Phase.antt =====
-- src/workflowState.ts: the cases of `reduceWorkflowState` for phases.
use workflow_mcp.Common.{
  String, Bool, true, false, none, some, List, [], ◌∷◌, ◌++◌, any, str_eq, Result, ok, ◌>>=◌, ◌>>◌,
  throw_if, modify_first,
}
use workflow_mcp.Events.{WorkflowErrorReference, PhaseDiscovered, PhaseEvent}
use workflow_mcp.State.Snapshot.{WorkflowPhaseStatus, WorkflowPhaseSnapshot, WorkflowSnapshot}
use workflow_mcp.State.Update.{ReduceError, unknown_phase, phase_disappeared, repeated_phase}

abbrev pub has_phase_id : String → WorkflowPhaseSnapshot → Bool
has_phase_id id phase = str_eq phase.id id

-- Find a phase and replace it in a copy of the phases.
unfoldable pub change_phase :
    String
    → (WorkflowPhaseSnapshot → Result ReduceError WorkflowPhaseSnapshot)
    → List WorkflowPhaseSnapshot
    → Result ReduceError (List WorkflowPhaseSnapshot)
change_phase phase_id =
    modify_first (unknown_phase phase_id) (phase_disappeared phase_id) (has_phase_id phase_id)

abbrev pub new_phase : String → String → PhaseDiscovered → WorkflowPhaseSnapshot
new_phase timestamp phase_id payload = record {
  id = phase_id;
  title = payload.title;
  detail = payload.detail;
  model = payload.model;
  source = payload.source;
  discovered_at = timestamp;
  entered_at = none;
  completed_at = none;
  status = WorkflowPhaseStatus.pending;
  error = none;
  agent_ids = [];
  complete = false;
}

unfoldable pub discover_phase :
    String → String → PhaseDiscovered → WorkflowSnapshot → Result ReduceError WorkflowSnapshot
discover_phase timestamp phase_id payload s = do
  throw_if (any (has_phase_id phase_id) s.phases) (repeated_phase phase_id)
  ok (record s { phases = s.phases ++ new_phase timestamp phase_id payload ∷ [] })

abbrev pub enter_phase : String → WorkflowPhaseSnapshot → WorkflowPhaseSnapshot
enter_phase timestamp phase = record phase {
  entered_at = some timestamp;
  status = WorkflowPhaseStatus.running;
}

abbrev pub complete_phase : String → WorkflowPhaseSnapshot → WorkflowPhaseSnapshot
complete_phase timestamp phase = record phase {
  status = WorkflowPhaseStatus.completed;
  complete = true;
  completed_at = some timestamp;
}

abbrev pub fail_phase :
    String → WorkflowErrorReference → WorkflowPhaseSnapshot → WorkflowPhaseSnapshot
fail_phase timestamp error phase = record phase {
  status = WorkflowPhaseStatus.failed;
  complete = false;
  completed_at = some timestamp;
  error = some error;
}

unfoldable pub reduce_phase :
    String → String → PhaseEvent → WorkflowSnapshot → Result ReduceError WorkflowSnapshot
unfolding discover_phase change_phase
reduce_phase timestamp phase_id (PhaseEvent.discovered payload) s =
    discover_phase timestamp phase_id payload s
reduce_phase timestamp phase_id (PhaseEvent.entered title) s = do
  phases ← change_phase phase_id (λ phase. ok (enter_phase timestamp phase)) s.phases
  ok (record s { phases = phases; current_phase_id = some phase_id })
reduce_phase timestamp phase_id (PhaseEvent.completed title) s = do
  phases ← change_phase phase_id (λ phase. ok (complete_phase timestamp phase)) s.phases
  ok (record s { phases = phases })
reduce_phase timestamp phase_id (PhaseEvent.failed title error) s = do
  phases ← change_phase phase_id (λ phase. ok (fail_phase timestamp error phase)) s.phases
  ok (record s { phases = phases })
