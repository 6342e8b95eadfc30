-- ===== src/State/Reduce.antt =====
-- src/workflowState.ts: `reduceWorkflowState` and `projectWorkflowState`.
use workflow_mcp.Common.{String, not, List, [], ◌∷◌, str_eq, leb, Result, ok, ◌>>=◌, ◌>>◌, throw_if}
use workflow_mcp.Events.{EventBody, WorkflowEvent}
use workflow_mcp.State.Snapshot.{WorkflowSnapshot, is_terminal_run, create_workflow_state}
use workflow_mcp.State.Update.{ReduceError, wrong_run, stale_sequence, terminal_state}
use workflow_mcp.State.Derive.{finalize_derived_state}
use workflow_mcp.State.Handlers.Run.{reduce_run}
use workflow_mcp.State.Handlers.Phase.{reduce_phase}
use workflow_mcp.State.Handlers.Agent.{reduce_agent}
use workflow_mcp.State.Handlers.Trace.{stamp, reduce_trace}

-- The checks that stand before the switch.
unfoldable pub guard_event : WorkflowSnapshot → WorkflowEvent → Result ReduceError (Unit {0})
unfolding is_terminal_run
guard_event state event = do
  throw_if (not (str_eq event.run_id state.run_id)) (wrong_run event.run_id state.run_id)
  throw_if (leb event.sequence state.sequence) (stale_sequence event.sequence state.sequence)
  throw_if (is_terminal_run state.status) (terminal_state state.status)

-- The switch over `event.type`.
unfoldable pub apply_event :
    WorkflowEvent → EventBody → WorkflowSnapshot → Result ReduceError WorkflowSnapshot
unfolding reduce_run reduce_phase reduce_agent reduce_trace
apply_event event (EventBody.run body) s = ok (reduce_run event.timestamp body s)
apply_event event (EventBody.phase phase_id body) s = reduce_phase event.timestamp phase_id body s
apply_event event (EventBody.agent agent_id body) s = reduce_agent event.timestamp agent_id body s
apply_event event (EventBody.trace origin body) s = ok (reduce_trace (stamp event origin) body s)

unfoldable pub reduce_workflow_state :
    WorkflowSnapshot → WorkflowEvent → Result ReduceError WorkflowSnapshot
unfolding guard_event apply_event finalize_derived_state
reduce_workflow_state state event = do
  guard_event state event
  next ← apply_event event event.body (record state { sequence = event.sequence })
  ok (finalize_derived_state next)

unfoldable pub project_from :
    WorkflowSnapshot → List WorkflowEvent → Result ReduceError WorkflowSnapshot
unfolding reduce_workflow_state
project_from state [] = ok state
project_from state (event ∷ events) =
    reduce_workflow_state state event >>= λ next. project_from next events

unfoldable pub project_workflow_state :
    String → List WorkflowEvent → Result ReduceError WorkflowSnapshot
unfolding project_from create_workflow_state
project_workflow_state run_id = project_from (create_workflow_state run_id)
