-- ===== src/State/Applicable/Laws.antt =====
-- The handlers of src/workflowState.ts succeed exactly where their events are allowed.
use mathlib.Core.Logic.Iff
use workflow_mcp.Common.{
  ◌≡◌, refl, ◌≢◌, ◌↔◌, ℕ, String, false, Option, none, some, List, [], ◌∷◌, arith, any, any-false,
  All, Any, All-map, Result, IsOk, IsOk-map, IsOk-throw_if, any-key_iff, modify_first-IsOk,
  modify_first-IsOk_of_Any, ◌==◌,
}
use workflow_mcp.Events.{AttemptEvent, AgentEvent, AgentAttemptStarted}
use workflow_mcp.State.Snapshot.{WorkflowAttemptSnapshot, WorkflowAgentSnapshot, WorkflowSnapshot}
use workflow_mcp.State.Update.{
  ReduceError, change_attempt, with_attempt, update_agent, has_attempt_id,
}
use workflow_mcp.State.Handlers.Attempt.{
  reduce_attempt, start_activity, change_activity, has_activity_id,
}
use workflow_mcp.State.Handlers.Agent.{
  start_attempt, change_named, fail_agent, require_recovery, cancel_agent, change_agent,
}
use workflow_mcp.State.Agents.{AgentsWell}
use workflow_mcp.State.Attempts.{ActivitiesWell, AttemptsWell}
use workflow_mcp.State.Applicable.{AttemptAllows, NamesAttempt, AgentAllows}

pub any-number_iff {ℓ} :
    {A : Type ℓ} (key : A → ℕ) (n : ℕ) (xs : List A)
    → (any (λ x. key x == n) xs ≡ false) ↔ All (λ x. key x ≢ n) xs
any-number_iff {A} key n xs =
    ((λ h. All-map (λ x e. ground arith) xs (any-false _ xs h)), none_of xs)
  where
    none_of : (ys : List A) → All (λ x. key x ≢ n) ys → any (λ x. key x == n) ys ≡ false
    none_of [] h = refl
    none_of (y ∷ ys) h = ground (arith, h.0, none_of ys h.1)

reduce_attempt_iff :
    (timestamp : String) (event : AttemptEvent) (x : WorkflowAttemptSnapshot)
    → ActivitiesWell x
    → IsOk (reduce_attempt timestamp event x) ↔ AttemptAllows event x
unfolding reduce_attempt start_activity change_activity
reduce_attempt_iff timestamp (AttemptEvent.activity_started activity) x w =
    let guard = IsOk-throw_if (any (has_activity_id activity.activity_id) x.activities) _ _ in
    let fresh = any-key_iff (λ a. a.details.activity_id) activity.activity_id x.activities in
    ((λ h. fresh.0 (guard.0 h).0), (λ h. guard.1 (fresh.1 h, tt)))
reduce_attempt_iff timestamp (AttemptEvent.activity_updated patch) x w =
    Iff.trans (IsOk-map _ _)
      (modify_first-IsOk_of_Any (λ a. a.details.activity_id) _ _ patch.activity_id _ x.activities w)
reduce_attempt_iff timestamp (AttemptEvent.activity_completed patch) x w =
    Iff.trans (IsOk-map _ _)
      (modify_first-IsOk_of_Any (λ a. a.details.activity_id) _ _ patch.activity_id _ x.activities w)
reduce_attempt_iff timestamp _ x w = Iff.rfl

with_attempt_iff :
    (timestamp attempt_id : String) (event : AttemptEvent) (x : WorkflowAgentSnapshot)
    → AttemptsWell x.attempts
    → IsOk (with_attempt attempt_id (reduce_attempt timestamp event) x)
      ↔ Any (λ t. (t.id ≡ attempt_id) × AttemptAllows event t) x.attempts
unfolding with_attempt change_attempt
with_attempt_iff timestamp attempt_id event x w = Iff.trans (IsOk-map _ _) (
    modify_first-IsOk (λ t. t.id) _ _ attempt_id (AttemptAllows event)
      (reduce_attempt timestamp event) x.attempts w.ids (each x.attempts w.activities))
  where
    each :
        (ts : List WorkflowAttemptSnapshot)
        → All ActivitiesWell ts
        → All (λ t. IsOk (reduce_attempt timestamp event t) ↔ AttemptAllows event t) ts
    each [] h = tt
    each (t ∷ ts) h = (reduce_attempt_iff timestamp event t h.0, each ts h.1)

change_named_iff :
    (attempt_id : Option String) (change : WorkflowAttemptSnapshot → WorkflowAttemptSnapshot)
    (x : WorkflowAgentSnapshot)
    → AttemptsWell x.attempts
    → IsOk (change_named attempt_id change x.attempts) ↔ NamesAttempt attempt_id x
unfolding change_named change_attempt
change_named_iff none change x w = Iff.rfl
change_named_iff (some attempt_id) change x w =
    modify_first-IsOk_of_Any (λ t. t.id) _ _ attempt_id change x.attempts w.ids

start_attempt_iff :
    (timestamp attempt_id : String) (payload : AgentAttemptStarted) (x : WorkflowAgentSnapshot)
    → IsOk (start_attempt timestamp attempt_id payload x) ↔ (
        All (λ t. t.id ≢ attempt_id) x.attempts
        × All (λ t. t.number ≢ payload.attempt_number) x.attempts)
unfolding start_attempt
start_attempt_iff timestamp attempt_id payload x =
    let guard = IsOk-throw_if (any (has_attempt_id attempt_id) x.attempts) _ _ in
    let guard' = IsOk-throw_if (any (λ t. t.number == payload.attempt_number) x.attempts) _ _ in
    let fresh = any-key_iff (λ t. t.id) attempt_id x.attempts in
    let other = any-number_iff (λ t. t.number) payload.attempt_number x.attempts in
    (
      (λ h. (fresh.0 (guard.0 h).0, other.0 (guard'.0 (guard.0 h).1).0)),
      (λ h. guard.1 (fresh.1 h.0, guard'.1 (other.1 h.1, tt))),
    )

pub change_agent_iff :
    (timestamp : String) (event : AgentEvent) (x : WorkflowAgentSnapshot)
    → AttemptsWell x.attempts
    → IsOk (change_agent timestamp event x) ↔ AgentAllows event x
unfolding change_agent fail_agent cancel_agent require_recovery change_named
change_agent_iff timestamp (AgentEvent.started attempt_id payload) x w =
    start_attempt_iff timestamp attempt_id payload x
change_agent_iff timestamp (AgentEvent.failed attempt_id error retrying) x w =
    Iff.trans (IsOk-map _ _) (change_named_iff attempt_id _ x w)
change_agent_iff timestamp (AgentEvent.cancelled attempt_id reason) x w =
    Iff.trans (IsOk-map _ _) (change_named_iff attempt_id _ x w)
change_agent_iff timestamp (AgentEvent.recovery_required attempt_id error safety) x w =
    Iff.trans (IsOk-map _ _) (change_named_iff (some attempt_id) _ x w)
change_agent_iff timestamp (AgentEvent.attempt attempt_id event) x w =
    with_attempt_iff timestamp attempt_id event x w
change_agent_iff timestamp _ x w = Iff.rfl

-- `updateAgent` succeeds exactly where an agent of the identity allows the change.
pub update_agent_iff :
    (id : String) (P : WorkflowAgentSnapshot → Type 0)
    (update : WorkflowAgentSnapshot → Result ReduceError WorkflowAgentSnapshot)
    (s : WorkflowSnapshot)
    → AgentsWell s.agents
    → ((x : WorkflowAgentSnapshot) → AttemptsWell x.attempts → IsOk (update x) ↔ P x)
    → IsOk (update_agent id update s) ↔ Any (λ a. (a.id ≡ id) × P a) s.agents
unfolding update_agent
update_agent_iff id P update s w each =
    Iff.trans (IsOk-map _ _)
      (modify_first-IsOk (λ a. a.id) _ _ id P update s.agents w.ids (all s.agents w.attempts))
  where
    all :
        (xs : List WorkflowAgentSnapshot)
        → All (λ a. AttemptsWell a.attempts) xs
        → All (λ a. IsOk (update a) ↔ P a) xs
    all [] h = tt
    all (x ∷ xs) h = (each x h.0, all xs h.1)
