-- ===== src/State/Ending.antt =====
-- `run.failed`, `run.cancelled` and `run.interrupted` in src/workflowState.ts: what the end of a run does
-- to each agent and each attempt.
use workflow_mcp.Common.{
  ◌≡◌, refl, sym, ap, ◌∙◌, ◌⊎◌, inl, inr, subst, String, true, false, Option, none, some, or_keep,
  List, Along, Along-map, Bool-cases, ok,
}
use mathlib.Core.Option.{some-injective, none-ne-some}
use workflow_mcp.Events.{WorkflowErrorReference, EventBody, RunEvent, WorkflowEvent}
use workflow_mcp.State.Snapshot.{
  WorkflowAttemptStatus, WorkflowAgentStatus, WorkflowAttemptSnapshot, WorkflowAgentSnapshot,
  WorkflowSnapshot, is_terminal_agent,
}
use workflow_mcp.State.Derive.{
  CloseStatus, close_attempt, close_agent, close_nonterminal_agents, is_open_attempt,
  finalize_derived_state,
}
use workflow_mcp.State.Handlers.Run.{reduce_run, interruption}
use workflow_mcp.State.Reduce.{apply_event, reduce_workflow_state}
use workflow_mcp.State.Guards.{advanced, reduce_workflow_state-Reduced}

-- What the end of a run does to the agents and attempts that are still open: the statuses they get, and
-- the error and the reason that they record, if any.
pub record RunEnd : Type 0 where
  pub agent_status : WorkflowAgentStatus
  pub attempt_status : WorkflowAttemptStatus
  pub error : Option WorkflowErrorReference
  pub reason : Option String

abbrev pub end_of : RunEvent → Option RunEnd
end_of (RunEvent.failed error) = some (record {
  agent_status = WorkflowAgentStatus.failed;
  attempt_status = WorkflowAttemptStatus.failed;
  error = some error;
  reason = none;
})
end_of (RunEvent.interrupted reason) = some (record {
  agent_status = WorkflowAgentStatus.failed;
  attempt_status = WorkflowAttemptStatus.failed;
  error = some (interruption reason);
  reason = none;
})
end_of (RunEvent.cancelled reason) = some (record {
  agent_status = WorkflowAgentStatus.cancelled;
  attempt_status = WorkflowAttemptStatus.cancelled;
  error = none;
  reason = some "Run became terminal";
})
end_of _ = none

-- An attempt that had ended is as it was; an open one has the status, the time and the error of the end,
-- and nothing else of it changed.
abbrev pub ClosesAttempt :
    String → RunEnd → WorkflowAttemptSnapshot → WorkflowAttemptSnapshot → Type 0
ClosesAttempt timestamp end t u =
    ((is_open_attempt t.status ≡ false) × (u ≡ t))
    ⊎ ((is_open_attempt t.status ≡ true)
        × (u ≡ record t {
          status = end.attempt_status;
          completed_at = some timestamp;
          error = or_keep end.error t.error;
        }))

-- An agent that was terminal is as it was; any other has the status, the time, the error and the reason
-- of the end, its attempts are closed, and nothing else of it changed.
abbrev pub ClosesAgent : String → RunEnd → WorkflowAgentSnapshot → WorkflowAgentSnapshot → Type 0
ClosesAgent timestamp end a b =
    ((is_terminal_agent a.status ≡ true) × (b ≡ a))
    ⊎ ((is_terminal_agent a.status ≡ false)
        × (is_terminal_agent b.status ≡ true)
        × (b ≡ record a {
          status = end.agent_status;
          completed_at = some timestamp;
          error = or_keep end.error a.error;
          cancelled_reason = or_keep end.reason a.cancelled_reason;
          attempts = b.attempts;
        })
        × Along (ClosesAttempt timestamp end) a.attempts b.attempts)

-- The end that a call of `closeNonterminalAgents` stands for.
abbrev end_from : CloseStatus → Option WorkflowErrorReference → RunEnd
end_from CloseStatus.failed error = record {
  agent_status = WorkflowAgentStatus.failed;
  attempt_status = WorkflowAttemptStatus.failed;
  error = error;
  reason = none;
}
end_from CloseStatus.cancelled error = record {
  agent_status = WorkflowAgentStatus.cancelled;
  attempt_status = WorkflowAttemptStatus.cancelled;
  error = none;
  reason = some "Run became terminal";
}

close_attempt-Closes :
    (status : CloseStatus) (timestamp : String) (error : Option WorkflowErrorReference)
    (t : WorkflowAttemptSnapshot)
    → ClosesAttempt timestamp (end_from status error) t (close_attempt status timestamp error t)
unfolding close_attempt
close_attempt-Closes CloseStatus.failed timestamp error t =
    elim (Bool-cases (is_open_attempt t.status)) [
      | inl live ↦ inr (live, rw live refl)
      | inr over ↦ inl (over, rw over refl)
    ]
close_attempt-Closes CloseStatus.cancelled timestamp error t =
    elim (Bool-cases (is_open_attempt t.status)) [
      | inl live ↦ inr (live, rw live refl)
      | inr over ↦ inl (over, rw over refl)
    ]

close_agent-Closes :
    (status : CloseStatus) (timestamp : String) (error : Option WorkflowErrorReference)
    (a : WorkflowAgentSnapshot)
    → ClosesAgent timestamp (end_from status error) a (close_agent status timestamp error a)
unfolding close_agent is_terminal_agent
close_agent-Closes CloseStatus.failed timestamp error a =
    elim (Bool-cases (is_terminal_agent a.status)) [
      | inl over ↦ inl (over, rw over refl)
      | inr live ↦
          let attempts =
            Along-map (ClosesAttempt timestamp (end_from CloseStatus.failed error))
              (close_attempt CloseStatus.failed timestamp error)
              (close_attempt-Closes CloseStatus.failed timestamp error) a.attempts in
          inr (live, rw live refl, rw live refl, rw live attempts)
    ]
close_agent-Closes CloseStatus.cancelled timestamp error a =
    elim (Bool-cases (is_terminal_agent a.status)) [
      | inl over ↦ inl (over, rw over refl)
      | inr live ↦
          let attempts =
            Along-map (ClosesAttempt timestamp (end_from CloseStatus.cancelled error))
              (close_attempt CloseStatus.cancelled timestamp error)
              (close_attempt-Closes CloseStatus.cancelled timestamp error) a.attempts in
          inr (live, rw live refl, rw live refl, rw live attempts)
    ]

close_nonterminal_agents-Closes :
    (status : CloseStatus) (timestamp : String) (error : Option WorkflowErrorReference)
    (agents : List WorkflowAgentSnapshot)
    → Along
        (ClosesAgent timestamp (end_from status error))
        agents
        (close_nonterminal_agents status timestamp error agents)
unfolding close_nonterminal_agents
close_nonterminal_agents-Closes status timestamp error =
    Along-map (ClosesAgent timestamp (end_from status error)) (close_agent status timestamp error)
      (close_agent-Closes status timestamp error)

-- The handler of an event that ends the run, with the agents closed for the end that it stands for.
reduce_run-Closes :
    (timestamp : String) (event : RunEvent) (end : RunEnd) (s : WorkflowSnapshot)
    → end_of event ≡ some end
    → Along (ClosesAgent timestamp end) s.agents (reduce_run timestamp event s).agents
unfolding reduce_run
reduce_run-Closes timestamp (RunEvent.failed error) end s h =
    let same : end_from CloseStatus.failed (some error) ≡ end = some-injective _ _ h in
    subst
      (λ e.
        Along (ClosesAgent timestamp e) s.agents
          (reduce_run timestamp (RunEvent.failed error) s).agents)
      same (close_nonterminal_agents-Closes CloseStatus.failed timestamp (some error) s.agents)
reduce_run-Closes timestamp (RunEvent.cancelled reason) end s h =
    let same : end_from CloseStatus.cancelled none ≡ end = some-injective _ _ h in
    subst
      (λ e.
        Along (ClosesAgent timestamp e) s.agents
          (reduce_run timestamp (RunEvent.cancelled reason) s).agents)
      same (close_nonterminal_agents-Closes CloseStatus.cancelled timestamp none s.agents)
reduce_run-Closes timestamp (RunEvent.interrupted reason) end s h =
    let same : end_from CloseStatus.failed (some (interruption reason)) ≡ end =
      some-injective _ _ h in
    subst
      (λ e.
        Along (ClosesAgent timestamp e) s.agents
          (reduce_run timestamp (RunEvent.interrupted reason) s).agents)
      same
      (close_nonterminal_agents-Closes CloseStatus.failed timestamp (some (interruption reason))
        s.agents)
reduce_run-Closes timestamp (RunEvent.started workflow) end s h = absurd (none-ne-some end h)
reduce_run-Closes timestamp (RunEvent.completed result with_errors) end s h =
    absurd (none-ne-some end h)
reduce_run-Closes timestamp (RunEvent.cancellation_requested reason) end s h =
    absurd (none-ne-some end h)

-- An accepted event by which the run fails, is cancelled or is interrupted closes exactly what is still
-- open: the agents are those of before, one by one; one that was terminal is as it was; any other is
-- terminal now, with the status, the time, and the error or the reason of the end; of its attempts, one
-- that had ended is as it was, and one that was running or stalled has the status, the time and the error
-- of the end; and nothing else of an agent or an attempt changed.
pub reduce_workflow_state-closes :
    (s : WorkflowSnapshot) (event : WorkflowEvent) (body : RunEvent) (end : RunEnd)
    (t : WorkflowSnapshot)
    → event.body ≡ EventBody.run body
    → end_of body ≡ some end
    → reduce_workflow_state s event ≡ ok t
    → Along (ClosesAgent event.timestamp end) s.agents t.agents
unfolding finalize_derived_state apply_event
reduce_workflow_state-closes s event body end t about ends h =
    let r = reduce_workflow_state-Reduced s event t h in
    let applied : reduce_run event.timestamp body (advanced s event) ≡ r.next =
      cc (subst (λ b. apply_event event b (advanced s event) ≡ ok r.next) about r.applied) in
    subst (Along (ClosesAgent event.timestamp end) s.agents)
      (ap (λ (u : WorkflowSnapshot). u.agents) applied
        ∙ sym (ap (λ (u : WorkflowSnapshot). u.agents) r.derived))
      (reduce_run-Closes event.timestamp body end (advanced s event) ends)
