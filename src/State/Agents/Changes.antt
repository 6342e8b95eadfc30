-- ===== src/State/Agents/Changes.antt =====
-- Each change that src/workflowState.ts makes to one agent keeps its identity, its place in the
-- run and the order of its attempts.
use workflow_mcp.Common.{
  other_text, ◌≡◌, refl, ◌∙◌, subst, String, Bool, Option, none, some, List, arith, All-map, any,
  any-false, Result, ok, >>=-eq-ok, Bool-cases, inl, inr, ◌==◌,
}
use workflow_mcp.Events.{WorkflowErrorReference, AgentAttemptStarted, AgentEvent}
use workflow_mcp.State.Snapshot.{WorkflowAttemptSnapshot, WorkflowAgentSnapshot, is_terminal_agent}
use workflow_mcp.State.Update.{ReduceError, change_attempt, with_attempt, has_attempt_id}
use workflow_mcp.State.Derive.{CloseStatus, close_agent}
use workflow_mcp.State.Attempts.{
  AttemptsWell, SameAttempt, change_attempt-AttemptsWell, map-AttemptsWell,
  add_attempt-AttemptsWell,
}
use workflow_mcp.State.Attempts.Changes.{
  same_fields, reduce_attempt-SameAttempt, close_attempt-SameAttempt,
}
use workflow_mcp.State.Handlers.Attempt.{reduce_attempt}
use workflow_mcp.State.Handlers.Agent.{
  new_attempt, start_attempt, change_named, fail_agent, require_recovery, cancel_agent,
  change_agent, cancel_attempt,
}
use workflow_mcp.State.Agents.{Evolves, Evolves-refl}

-- A change that leaves the attempts alone.
pub Evolves-fields :
    (x y : WorkflowAgentSnapshot)
    → y.id ≡ x.id
    → y.call_index ≡ x.call_index
    → y.phase_id ≡ x.phase_id
    → y.attempts ≡ x.attempts
    → Evolves x y
Evolves-fields x y e f g a = record { id = e; call_index = f; phase_id = g; attempts = λ w. rw a w }

pub with_attempt-Evolves :
    (attempt_id : String)
    (update : WorkflowAttemptSnapshot → Result ReduceError WorkflowAttemptSnapshot)
    → ((x y : WorkflowAttemptSnapshot) → update x ≡ ok y → SameAttempt x y)
    → (x y : WorkflowAgentSnapshot) → with_attempt attempt_id update x ≡ ok y
    → Evolves x y
unfolding with_attempt
with_attempt-Evolves attempt_id update same x y h =
    let (attempts, changed, e) = >>=-eq-ok (change_attempt attempt_id update x.attempts) _ h in
    record {
      id = ground arith;
      call_index = ground arith;
      phase_id = ground arith;
      attempts = λ w.
          subst AttemptsWell (ground arith)
            (change_attempt-AttemptsWell attempt_id update x.attempts attempts same changed w);
    }

change_named-AttemptsWell :
    (attempt_id : Option String) (change : WorkflowAttemptSnapshot → WorkflowAttemptSnapshot)
    (xs ys : List WorkflowAttemptSnapshot)
    → ((x : WorkflowAttemptSnapshot) → SameAttempt x (change x))
    → change_named attempt_id change xs ≡ ok ys
    → AttemptsWell xs
    → AttemptsWell ys
unfolding change_named
change_named-AttemptsWell none change xs ys same h w = subst AttemptsWell (ground arith) w
change_named-AttemptsWell (some attempt_id) change xs ys same h w =
    change_attempt-AttemptsWell attempt_id (λ a. ok (change a)) xs ys
      (λ x y e. subst (SameAttempt x) (ground arith) (same x)) h w

start_attempt-Evolves :
    (timestamp attempt_id : String) (payload : AgentAttemptStarted) (x y : WorkflowAgentSnapshot)
    → start_attempt timestamp attempt_id payload x ≡ ok y
    → Evolves x y
unfolding start_attempt
start_attempt-Evolves timestamp attempt_id payload x y h =
    elim (Bool-cases (any (has_attempt_id attempt_id) x.attempts)) [
      | inl repeated ↦ cc (rw repeated at h)
      | inr fresh ↦ elim (Bool-cases (any (λ a. a.number == payload.attempt_number) x.attempts)) [
        | inl repeated ↦ cc (rw (fresh, repeated) at h)
        | inr other ↦
            let h' = rw (fresh, other) at h in
            record {
              id = ground arith;
              call_index = ground arith;
              phase_id = ground arith;
              attempts = λ w. subst AttemptsWell (ground arith) (
                  add_attempt-AttemptsWell x.attempts (new_attempt timestamp attempt_id payload)
                    (All-map (λ a n. other_text a.id attempt_id n) x.attempts
                      (any-false _ x.attempts fresh))
                    (All-map (λ a n. ground arith) x.attempts (any-false _ x.attempts other)) tt w);
            }
      ]
    ]

named-Evolves :
    (attempt_id : Option String) (change : WorkflowAttemptSnapshot → WorkflowAttemptSnapshot)
    (x y : WorkflowAgentSnapshot)
    → ((a : WorkflowAttemptSnapshot) → SameAttempt a (change a))
    → y.id ≡ x.id
    → y.call_index ≡ x.call_index
    → y.phase_id ≡ x.phase_id
    → change_named attempt_id change x.attempts ≡ ok y.attempts
    → Evolves x y
named-Evolves attempt_id change x y same e f g h = record {
  id = e;
  call_index = f;
  phase_id = g;
  attempts = change_named-AttemptsWell attempt_id change x.attempts y.attempts same h;
}

fail_agent-Evolves :
    (timestamp : String) (attempt_id : Option String) (error : WorkflowErrorReference)
    (retrying : Option Bool) (x y : WorkflowAgentSnapshot)
    → fail_agent timestamp attempt_id error retrying x ≡ ok y
    → Evolves x y
unfolding fail_agent
fail_agent-Evolves timestamp attempt_id error retrying x y h =
    let (attempts, changed, e) = >>=-eq-ok (change_named attempt_id _ x.attempts) _ h in
    named-Evolves attempt_id _ x y (λ a. same_fields a _ refl refl refl) (ground arith)
      (ground arith) (ground arith) (changed ∙ ground arith)

cancel_agent-Evolves :
    (timestamp : String) (attempt_id reason : Option String) (x y : WorkflowAgentSnapshot)
    → cancel_agent timestamp attempt_id reason x ≡ ok y
    → Evolves x y
unfolding cancel_agent
cancel_agent-Evolves timestamp attempt_id reason x y h =
    let (attempts, changed, e) = >>=-eq-ok (change_named attempt_id _ x.attempts) _ h in
    named-Evolves attempt_id (cancel_attempt timestamp) x y
      (λ a. same_fields a _ (ground arith) (ground arith) (ground arith)) (ground arith)
      (ground arith) (ground arith) (changed ∙ ground arith)

require_recovery-Evolves :
    (timestamp attempt_id : String) (error : WorkflowErrorReference) (x y : WorkflowAgentSnapshot)
    → require_recovery timestamp attempt_id error x ≡ ok y
    → Evolves x y
unfolding require_recovery change_named
require_recovery-Evolves timestamp attempt_id error x y h =
    let (attempts, changed, e) = >>=-eq-ok (change_attempt attempt_id _ x.attempts) _ h in
    named-Evolves (some attempt_id) _ x y (λ a. same_fields a _ refl refl refl) (ground arith)
      (ground arith) (ground arith) (changed ∙ ground arith)

pub change_agent-Evolves :
    (timestamp : String) (event : AgentEvent) (x y : WorkflowAgentSnapshot)
    → change_agent timestamp event x ≡ ok y
    → Evolves x y
unfolding change_agent
change_agent-Evolves timestamp (AgentEvent.started attempt_id payload) x y h =
    start_attempt-Evolves timestamp attempt_id payload x y h
change_agent-Evolves timestamp (AgentEvent.failed attempt_id error retrying) x y h =
    fail_agent-Evolves timestamp attempt_id error retrying x y h
change_agent-Evolves timestamp (AgentEvent.recovery_required attempt_id error safety) x y h =
    require_recovery-Evolves timestamp attempt_id error x y h
change_agent-Evolves timestamp (AgentEvent.cancelled attempt_id reason) x y h =
    cancel_agent-Evolves timestamp attempt_id reason x y h
change_agent-Evolves timestamp (AgentEvent.attempt attempt_id event) x y h =
    with_attempt-Evolves attempt_id (reduce_attempt timestamp event)
      (reduce_attempt-SameAttempt timestamp event) x y h
change_agent-Evolves timestamp _ x y h =
    Evolves-fields x y (ground arith) (ground arith) (ground arith) (ground arith)

pub close_agent-Evolves :
    (status : CloseStatus) (timestamp : String) (error : Option WorkflowErrorReference)
    (x : WorkflowAgentSnapshot)
    → Evolves x (close_agent status timestamp error x)
unfolding close_agent
close_agent-Evolves status timestamp error x = elim (Bool-cases (is_terminal_agent x.status)) [
  | inl over ↦ rw over (Evolves-refl x)
  | inr open_ ↦ rw open_ (record {
    id = refl;
    call_index = refl;
    phase_id = refl;
    attempts = map-AttemptsWell _ (close_attempt-SameAttempt status timestamp error) x.attempts;
  })
]
