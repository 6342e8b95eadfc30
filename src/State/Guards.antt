-- ===== src/State/Guards.antt =====
-- The checks before the switch of `reduceWorkflowState` in src/workflowState.ts.
use workflow_mcp.Common.{
  ℕ, ◌≡◌, ap, ◌∙◌, ◌<◌, arith, true, false, List, [], ◌∷◌, ◌++◌, IsOk, IsOk-value, eq_iff, ok,
  >>=-eq-ok, Ascending, All, All-map,
}
use workflow_mcp.Events.{EventBody, RunEvent, TraceEvent, WorkflowEvent}
use workflow_mcp.State.Snapshot.{WorkflowSnapshot, is_terminal_run}
use workflow_mcp.State.Derive.{finalize_derived_state}
use workflow_mcp.State.Handlers.Run.{reduce_run}
use workflow_mcp.State.Handlers.Trace.{reduce_trace}
use workflow_mcp.State.Frame.{reduce_agent-MembersOnly, reduce_phase-MembersOnly}
use workflow_mcp.State.Reduce.{guard_event, apply_event, reduce_workflow_state, project_from}

-- What an event that the reducer accepts has passed.
pub record Accepted (s : WorkflowSnapshot) (event : WorkflowEvent) : Type 0 where
  pub run : event.run_id ≡ s.run_id
  pub later : s.sequence < event.sequence
  pub live : is_terminal_run s.status ≡ false

pub guard_event-Accepted :
    (s : WorkflowSnapshot) (event : WorkflowEvent) → guard_event s event ≡ ok tt → Accepted s event
unfolding guard_event
guard_event-Accepted s event h = record {
  run = ground (arith, eq_iff event.run_id s.run_id);
  later = ground arith;
  live = ground arith;
}

pub guard_event_of_Accepted :
    (s : WorkflowSnapshot) (event : WorkflowEvent) → Accepted s event → guard_event s event ≡ ok tt
unfolding guard_event
guard_event_of_Accepted s event a =
    ground (arith, eq_iff event.run_id s.run_id, a.run, a.later, a.live)

-- The state that the switch starts from.
abbrev pub advanced : WorkflowSnapshot → WorkflowEvent → WorkflowSnapshot
advanced s event = record s { sequence = event.sequence }

pub record Reduced (s : WorkflowSnapshot) (event : WorkflowEvent) (t : WorkflowSnapshot)
    : Type 0 where
  pub accepted : Accepted s event
  pub next : WorkflowSnapshot
  pub applied : apply_event event event.body (advanced s event) ≡ ok next
  pub derived : t ≡ finalize_derived_state next

pub reduce_workflow_state-Reduced :
    (s : WorkflowSnapshot) (event : WorkflowEvent) (t : WorkflowSnapshot)
    → reduce_workflow_state s event ≡ ok t
    → Reduced s event t
unfolding reduce_workflow_state
reduce_workflow_state-Reduced s event t h =
    let (u, passed, h') = >>=-eq-ok (guard_event s event) _ h in
    let (next, applied, e) = >>=-eq-ok (apply_event event event.body (advanced s event)) _ h' in
    record {
      accepted = guard_event-Accepted s event passed;
      next = next;
      applied = applied;
      derived = ground arith;
    }

-- The switch leaves the run's identity and the sequence number alone.
apply_event-position :
    (event : WorkflowEvent) (body : EventBody) (s t : WorkflowSnapshot)
    → apply_event event body s ≡ ok t
    → (t.run_id ≡ s.run_id) × (t.sequence ≡ s.sequence)
unfolding apply_event reduce_run reduce_trace
apply_event-position event (EventBody.run body) s t h = run body h
  where
    run :
        (b : RunEvent)
        → apply_event event (EventBody.run b) s ≡ ok t
        → (t.run_id ≡ s.run_id) × (t.sequence ≡ s.sequence)
    run (RunEvent.started workflow) e = (ground arith, ground arith)
    run _ e = (ground arith, ground arith)
apply_event-position event (EventBody.phase phase_id body) s t h =
    let e = reduce_phase-MembersOnly event.timestamp phase_id body s t h in
    (ap (λ (u : WorkflowSnapshot). u.run_id) e, ap (λ (u : WorkflowSnapshot). u.sequence) e)
apply_event-position event (EventBody.agent agent_id body) s t h =
    let e = reduce_agent-MembersOnly event.timestamp agent_id body s t h in
    (ap (λ (u : WorkflowSnapshot). u.run_id) e, ap (λ (u : WorkflowSnapshot). u.sequence) e)
apply_event-position event (EventBody.trace origin body) s t h = trace body h
  where
    trace :
        (b : TraceEvent)
        → apply_event event (EventBody.trace origin b) s ≡ ok t
        → (t.run_id ≡ s.run_id) × (t.sequence ≡ s.sequence)
    trace (TraceEvent.log message level) e = (ground arith, ground arith)
    trace _ e = (ground arith, ground arith)

pub reduce_workflow_state-position :
    (s : WorkflowSnapshot) (event : WorkflowEvent) (t : WorkflowSnapshot)
    → reduce_workflow_state s event ≡ ok t
    → (t.run_id ≡ s.run_id) × (t.sequence ≡ event.sequence)
unfolding finalize_derived_state
reduce_workflow_state-position s event t h =
    let r = reduce_workflow_state-Reduced s event t h in
    let (run_id, sequence) =
      apply_event-position event event.body (advanced s event) r.next r.applied in
    (
      ap (λ (u : WorkflowSnapshot). u.run_id) r.derived ∙ run_id,
      ap (λ (u : WorkflowSnapshot). u.sequence) r.derived ∙ sequence,
    )

-- The last sequence number of a stream that starts behind a snapshot.
abbrev pub last_sequence : ℕ → List WorkflowEvent → ℕ
last_sequence n [] = n
last_sequence n (event ∷ events) = last_sequence event.sequence events

-- When a stream of events projects onto a snapshot, every event is of the snapshot's run and comes
-- later than the snapshot, the sequence numbers ascend strictly, and the result is of the same run and
-- has the sequence number of the last event, or that of the snapshot for an empty stream.
pub project_from-order :
    (s : WorkflowSnapshot) (events : List WorkflowEvent) (t : WorkflowSnapshot)
    → project_from s events ≡ ok t
    → All (λ event. (event.run_id ≡ s.run_id) × (s.sequence < event.sequence)) events
      × Ascending (λ event. event.sequence) events
      × (t.run_id ≡ s.run_id)
      × (t.sequence ≡ last_sequence s.sequence events)
unfolding project_from
project_from-order s [] t h = (tt, tt, ground arith, ground arith)
project_from-order s (event ∷ events) t h =
    let (next, reduced, h') = >>=-eq-ok (reduce_workflow_state s event) _ h in
    let accepted = (reduce_workflow_state-Reduced s event next reduced).accepted in
    let (run_id, sequence) = reduce_workflow_state-position s event next reduced in
    let (behind, order, run_id', sequence') = project_from-order next events t h' in
    (
      (
        (accepted.run, accepted.later),
        All-map
            (λ (e : WorkflowEvent) (p : (e.run_id ≡ next.run_id) × (next.sequence < e.sequence)).
              (p.0 ∙ run_id, omega (arith, sequence, accepted.later, p.1)))
            events behind,
      ),
      (
        All-map
            (λ (e : WorkflowEvent) (p : (e.run_id ≡ next.run_id) × (next.sequence < e.sequence)).
              omega (arith, sequence, p.1))
            events behind,
        order,
      ),
      run_id' ∙ run_id,
      sequence' ∙ ap (λ n. last_sequence n events) sequence,
    )

terminal-refuses :
    (s : WorkflowSnapshot) (event : WorkflowEvent)
    → is_terminal_run s.status ≡ true
    → ¬ IsOk (reduce_workflow_state s event)
terminal-refuses s event over h =
    let (t, reduced) = IsOk-value (reduce_workflow_state s event) h in
    cc (over, (reduce_workflow_state-Reduced s event t reduced).accepted.live)

-- Where a part of a stream has brought a run to a terminal status, the stream is refused whatever
-- event comes next and whatever follows.
pub project_from_terminal :
    (s : WorkflowSnapshot) (before : List WorkflowEvent) (t : WorkflowSnapshot)
    (event : WorkflowEvent) (behind : List WorkflowEvent)
    → project_from s before ≡ ok t
    → is_terminal_run t.status ≡ true
    → ¬ IsOk (project_from s (before ++ event ∷ behind))
unfolding project_from
project_from_terminal s [] t event behind h over k =
    let same : s ≡ t = ground arith in
    let (next, e) = IsOk-value _ k in
    let (u, reduced, h') = >>=-eq-ok (reduce_workflow_state s event) _ e in
    terminal-refuses s event (rw same over) (rw reduced tt)
project_from_terminal s (first ∷ before) t event behind h over k =
    let (next, reduced, h') = >>=-eq-ok (reduce_workflow_state s first) _ h in
    project_from_terminal next before t event behind h' over (rw reduced at k)
