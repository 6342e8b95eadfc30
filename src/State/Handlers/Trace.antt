-- ===== src/State/Handlers/Trace.antt =====
-- src/workflowState.ts: the cases of `reduceWorkflowState` for logs, warnings and artifacts.
use workflow_mcp.Common.{[], ◌∷◌, ◌++◌, get_or_else}
use workflow_mcp.Events.{LogLevel, EventOrigin, TraceEvent, WorkflowEvent}
use workflow_mcp.State.Snapshot.{Stamp, WorkflowSnapshot}

abbrev pub stamp : WorkflowEvent → EventOrigin → Stamp
stamp event origin = record {
  event_id = event.event_id;
  sequence = event.sequence;
  timestamp = event.timestamp;
  origin = origin;
}

unfoldable pub reduce_trace : Stamp → TraceEvent → WorkflowSnapshot → WorkflowSnapshot
reduce_trace stamp (TraceEvent.log message level) s = record s {
  logs =
      s.logs
      ++ record { stamp = stamp; level = get_or_else level LogLevel.info; message = message } ∷ [];
}
reduce_trace stamp (TraceEvent.warning message code details) s = record s {
  warnings =
      s.warnings
      ++ record { stamp = stamp; message = message; code = code; details = details } ∷ [];
}
reduce_trace stamp (TraceEvent.artifact_created created) s = record s {
  artifacts = s.artifacts ++ record { stamp = stamp; created = created } ∷ [];
}
