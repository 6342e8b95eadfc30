-- ===== src/State/Attempts/Changes.antt =====
-- Each change that src/workflowState.ts makes to an attempt keeps its identity, its number and the
-- distinctness of its activities.
use workflow_mcp.Common.{
  other_text, ◌≡◌, refl, sym, ◌∙◌, subst, ◌≢◌, String, Option, arith, Pairwise-set,
  Pairwise-append_one, any-false, All-map, ok, >>=-eq-ok, modify_first-Modifies, Bool-cases, any,
  inl, inr, modify_first,
}
use workflow_mcp.Events.{WorkflowErrorReference, WorkflowActivityDetails, AttemptEvent}
use workflow_mcp.State.Snapshot.{WorkflowActivitySnapshot, WorkflowAttemptSnapshot}
use workflow_mcp.State.Derive.{CloseStatus, close_attempt}
use workflow_mcp.State.Handlers.Attempt.{
  reduce_attempt, start_activity, change_activity, update_activity, complete_activity,
  has_activity_id, new_activity,
}
use workflow_mcp.State.Attempts.{DistinctActivities, SameAttempt}

pub same_fields :
    (x y : WorkflowAttemptSnapshot)
    → y.id ≡ x.id
    → y.number ≡ x.number
    → y.activities ≡ x.activities
    → SameAttempt x y
same_fields x y e f g = record { id = e; number = f; activities = λ w. rw g w }

start_activity-SameAttempt :
    (timestamp : String) (activity : WorkflowActivityDetails) (x y : WorkflowAttemptSnapshot)
    → start_activity timestamp activity x ≡ ok y
    → SameAttempt x y
unfolding start_activity
start_activity-SameAttempt timestamp activity x y h =
    elim (Bool-cases (any (has_activity_id activity.activity_id) x.activities)) [
      | inl repeated ↦ cc (rw repeated at h)
      | inr fresh ↦
          let h' = rw fresh at h in
          let new =
            All-map (λ a n. other_text a.details.activity_id activity.activity_id n) x.activities
              (any-false _ x.activities fresh) in
          record {
            id = ground arith;
            number = ground arith;
            activities = λ w. subst DistinctActivities (ground arith) (
                Pairwise-append_one (λ a b. a.details.activity_id ≢ b.details.activity_id)
                  x.activities (new_activity timestamp activity) w new);
          }
    ]

change_activity-SameAttempt :
    (timestamp activity_id : String) (change : WorkflowActivitySnapshot → WorkflowActivitySnapshot)
    → ((a : WorkflowActivitySnapshot) → (change a).details.activity_id ≡ a.details.activity_id)
    → (x y : WorkflowAttemptSnapshot) → change_activity timestamp activity_id change x ≡ ok y
    → SameAttempt x y
unfolding change_activity
change_activity-SameAttempt timestamp activity_id change same x y h =
    let (activities, modified, e) = >>=-eq-ok (modify_first _ _ _ _ x.activities) _ h in
    let (i, a, b, at, found, hit, changed, e') = modify_first-Modifies _ _ _ _ _ _ modified in
    let kept : b.details.activity_id ≡ a.details.activity_id = rw (← same a) (ground arith) in
    record {
      id = ground arith;
      number = ground arith;
      activities = λ w. subst DistinctActivities (sym e' ∙ ground arith) (
          Pairwise-set (λ p q. p.details.activity_id ≢ q.details.activity_id) x.activities i a b
            found (λ z n p. n (sym kept ∙ p)) (λ z n p. n (p ∙ kept)) w);
    }

pub reduce_attempt-SameAttempt :
    (timestamp : String) (event : AttemptEvent) (x y : WorkflowAttemptSnapshot)
    → reduce_attempt timestamp event x ≡ ok y
    → SameAttempt x y
unfolding reduce_attempt
reduce_attempt-SameAttempt timestamp (AttemptEvent.activity_started activity) x y h =
    start_activity-SameAttempt timestamp activity x y h
reduce_attempt-SameAttempt timestamp (AttemptEvent.activity_updated patch) x y h =
    change_activity-SameAttempt timestamp patch.activity_id (update_activity timestamp patch)
      (λ a. refl) x y h
reduce_attempt-SameAttempt timestamp (AttemptEvent.activity_completed patch) x y h =
    change_activity-SameAttempt timestamp patch.activity_id (complete_activity timestamp patch)
      (λ a. refl) x y h
reduce_attempt-SameAttempt timestamp _ x y h =
    same_fields x y (ground arith) (ground arith) (ground arith)

pub close_attempt-SameAttempt :
    (status : CloseStatus) (timestamp : String) (error : Option WorkflowErrorReference)
    (x : WorkflowAttemptSnapshot)
    → SameAttempt x (close_attempt status timestamp error x)
unfolding close_attempt
close_attempt-SameAttempt status timestamp error x =
    same_fields x _ (ground arith) (ground arith) (ground arith)
