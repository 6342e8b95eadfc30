-- ===== src/State/Handlers/Attempt.antt =====
-- src/workflowState.ts: the cases of `reduceWorkflowState` for one attempt of an agent.
use workflow_mcp.Common.{
  ◌+◌, String, Bool, Option, none, some, [], ◌∷◌, ◌++◌, any, str_eq, or_keep, Result, ok, ◌>>=◌,
  ◌>>◌, throw_if, modify_first,
}
use workflow_mcp.Events.{
  WorkflowErrorReference, WorkflowActivityDetails, ActivityPatch, AttemptEvent,
}
use workflow_mcp.State.Snapshot.{
  WorkflowAttemptStatus, WorkflowActivityStatus, WorkflowActivitySnapshot, AttemptRecovery,
  WorkflowAttemptSnapshot,
}
use workflow_mcp.State.Update.{
  ReduceError, unknown_activity, activity_disappeared, repeated_activity,
}

abbrev pub has_activity_id : String → WorkflowActivitySnapshot → Bool
has_activity_id id activity = str_eq activity.details.activity_id id

abbrev pub new_activity : String → WorkflowActivityDetails → WorkflowActivitySnapshot
new_activity timestamp activity = record {
  details = activity;
  status = WorkflowActivityStatus.running;
  started_at = timestamp;
  updated_at = timestamp;
  completed_at = none;
  error = none;
  update_count = 0;
}

unfoldable pub start_activity :
    String
    → WorkflowActivityDetails
    → WorkflowAttemptSnapshot
    → Result ReduceError WorkflowAttemptSnapshot
start_activity timestamp activity attempt = do
  throw_if (any (has_activity_id activity.activity_id) attempt.activities)
      (repeated_activity activity.activity_id)
  ok (record attempt {
    last_progress_at = some timestamp;
    activities = attempt.activities ++ new_activity timestamp activity ∷ [];
  })

-- The fields that both `agent.activity.updated` and `agent.activity.completed` may give anew.
abbrev patch_details : ActivityPatch → WorkflowActivityDetails → WorkflowActivityDetails
patch_details patch d = record d {
  title = or_keep patch.title d.title;
  content = or_keep patch.content d.content;
  details = or_keep patch.details d.details;
}

unfoldable pub update_activity :
    String → ActivityPatch → WorkflowActivitySnapshot → WorkflowActivitySnapshot
update_activity timestamp patch current = record current {
  details = patch_details patch current.details;
  updated_at = timestamp;
  update_count = current.update_count + 1;
}

abbrev completion_status : Option WorkflowErrorReference → WorkflowActivityStatus
completion_status none = WorkflowActivityStatus.completed
completion_status (some error) = WorkflowActivityStatus.failed

unfoldable pub complete_activity :
    String → ActivityPatch → WorkflowActivitySnapshot → WorkflowActivitySnapshot
complete_activity timestamp patch current = record current {
  details = patch_details patch current.details;
  updated_at = timestamp;
  status = completion_status patch.error;
  completed_at = some timestamp;
  error = or_keep patch.error current.error;
}

unfoldable pub change_activity :
    String
    → String
    → (WorkflowActivitySnapshot → WorkflowActivitySnapshot)
    → WorkflowAttemptSnapshot
    → Result ReduceError WorkflowAttemptSnapshot
change_activity timestamp activity_id change attempt = do
  activities ←
      modify_first (unknown_activity activity_id) (activity_disappeared activity_id)
        (has_activity_id activity_id) (λ activity. ok (change activity)) attempt.activities
  ok (record attempt { last_progress_at = some timestamp; activities = activities })

abbrev complete_recovery : String → Option AttemptRecovery → Option AttemptRecovery
complete_recovery timestamp none = none
complete_recovery timestamp (some recovery) =
    some (record recovery { completed_at = some timestamp })

unfoldable pub reduce_attempt :
    String → AttemptEvent → WorkflowAttemptSnapshot → Result ReduceError WorkflowAttemptSnapshot
unfolding start_activity update_activity complete_activity change_activity
reduce_attempt timestamp (AttemptEvent.session_started session) attempt =
    ok (record attempt { last_progress_at = some timestamp; provider_session = some session })
reduce_attempt timestamp (AttemptEvent.activity_started activity) attempt =
    start_activity timestamp activity attempt
reduce_attempt timestamp (AttemptEvent.activity_updated patch) attempt =
    change_activity timestamp patch.activity_id (update_activity timestamp patch) attempt
reduce_attempt timestamp (AttemptEvent.activity_completed patch) attempt =
    change_activity timestamp patch.activity_id (complete_activity timestamp patch) attempt
reduce_attempt timestamp (AttemptEvent.stalled stall) attempt = ok (record attempt {
  status = WorkflowAttemptStatus.stalled;
  last_progress_at = some stall.last_progress_at;
  stall = some stall;
})
reduce_attempt timestamp (AttemptEvent.termination_confirmed reason boundary) attempt =
    ok (record attempt {
      termination =
          some (record { reason = reason; boundary = boundary; confirmed_at = timestamp });
    })
reduce_attempt timestamp (AttemptEvent.recovery_started previous_attempt_id context) attempt =
    ok (record attempt {
      recovery = some (record {
        previous_attempt_id = previous_attempt_id;
        previous_attempt_number = context.previous_attempt_number;
        reason = context.reason;
        note = context.note;
        started_at = timestamp;
        completed_at = none;
      });
    })
reduce_attempt timestamp (AttemptEvent.recovery_completed previous_attempt_id) attempt =
    ok (record attempt { recovery = complete_recovery timestamp attempt.recovery })
