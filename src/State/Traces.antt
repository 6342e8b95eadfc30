-- ===== src/State/Traces.antt =====
-- The logs, warnings and artifacts of a run in src/workflowState.ts, in the order of their events.
use workflow_mcp.Common.{
  ℕ, ◌≡◌, refl, ap, subst, ◌<◌, ◌≤◌, arith, List, [], ◌∷◌, ◌++◌, All, All-map, All-append,
  Pairwise-append_one, Ascending, ok,
}
use workflow_mcp.Events.{EventOrigin, EventBody, RunEvent, TraceEvent, WorkflowEvent}
use workflow_mcp.State.Snapshot.{
  Stamp, WorkflowLogSnapshot, WorkflowWarningSnapshot, WorkflowArtifactSnapshot, WorkflowSnapshot,
}
use workflow_mcp.State.Handlers.Run.{reduce_run}
use workflow_mcp.State.Handlers.Trace.{stamp, reduce_trace}
use workflow_mcp.State.Frame.{reduce_agent-MembersOnly, reduce_phase-MembersOnly}
use workflow_mcp.State.Reduce.{apply_event}

-- The sequence numbers of the entries ascend and do not pass `n`.
module _ {A : Type 0} (entry : A → Stamp) where
  pub record Ordered (n : ℕ) (entries : List A) : Type 0 where
    pub order : Ascending (λ a. (entry a).sequence) entries
    pub bound : All (λ a. (entry a).sequence ≤ n) entries

  pub Ordered-later : (m n : ℕ) (xs : List A) → m ≤ n → Ordered m xs → Ordered n xs
  Ordered-later m n xs h o = record {
    order = o.order;
    bound = All-map (λ a b. omega arith) xs o.bound;
  }

  pub Ordered-append :
      (m n : ℕ) (xs : List A) (x : A)
      → m < n
      → (entry x).sequence ≡ n
      → Ordered m xs
      → Ordered n (xs ++ x ∷ [])
  Ordered-append m n xs x h e o = record {
    order =
        Pairwise-append_one (λ a b. (entry a).sequence < (entry b).sequence) xs x o.order
          (All-map (λ a b. omega arith) xs o.bound);
    bound =
        All-append (λ a. (entry a).sequence ≤ n) xs (x ∷ [])
          (All-map (λ a b. omega arith) xs o.bound) (omega arith, tt);
  }

abbrev pub log_stamp : WorkflowLogSnapshot → Stamp
log_stamp log = log.stamp

abbrev pub warning_stamp : WorkflowWarningSnapshot → Stamp
warning_stamp warning = warning.stamp

abbrev pub artifact_stamp : WorkflowArtifactSnapshot → Stamp
artifact_stamp artifact = artifact.stamp

pub record TracesWell (n : ℕ) (s : WorkflowSnapshot) : Type 0 where
  pub logs : Ordered log_stamp n s.logs
  pub warnings : Ordered warning_stamp n s.warnings
  pub artifacts : Ordered artifact_stamp n s.artifacts

-- Nothing was traced.
pub still_TracesWell :
    (m n : ℕ) (s t : WorkflowSnapshot)
    → m ≤ n
    → t.logs ≡ s.logs
    → t.warnings ≡ s.warnings
    → t.artifacts ≡ s.artifacts
    → TracesWell m s
    → TracesWell n t
still_TracesWell m n s t h e f g w = record {
  logs = rw e (Ordered-later log_stamp m n s.logs h w.logs);
  warnings = rw f (Ordered-later warning_stamp m n s.warnings h w.warnings);
  artifacts = rw g (Ordered-later artifact_stamp m n s.artifacts h w.artifacts);
}

reduce_trace-TracesWell :
    (event : WorkflowEvent) (origin : EventOrigin) (body : TraceEvent) (m : ℕ)
    (s : WorkflowSnapshot)
    → m < event.sequence
    → TracesWell m s
    → TracesWell event.sequence (reduce_trace (stamp event origin) body s)
unfolding reduce_trace
reduce_trace-TracesWell event origin (TraceEvent.log message level) m s h w = record {
  logs = Ordered-append log_stamp m event.sequence s.logs _ h refl w.logs;
  warnings = Ordered-later warning_stamp m event.sequence s.warnings (omega arith) w.warnings;
  artifacts = Ordered-later artifact_stamp m event.sequence s.artifacts (omega arith) w.artifacts;
}
reduce_trace-TracesWell event origin (TraceEvent.warning message code details) m s h w = record {
  logs = Ordered-later log_stamp m event.sequence s.logs (omega arith) w.logs;
  warnings = Ordered-append warning_stamp m event.sequence s.warnings _ h refl w.warnings;
  artifacts = Ordered-later artifact_stamp m event.sequence s.artifacts (omega arith) w.artifacts;
}
reduce_trace-TracesWell event origin (TraceEvent.artifact_created created) m s h w = record {
  logs = Ordered-later log_stamp m event.sequence s.logs (omega arith) w.logs;
  warnings = Ordered-later warning_stamp m event.sequence s.warnings (omega arith) w.warnings;
  artifacts = Ordered-append artifact_stamp m event.sequence s.artifacts _ h refl w.artifacts;
}

pub apply_event-TracesWell :
    (event : WorkflowEvent) (body : EventBody) (m : ℕ) (s t : WorkflowSnapshot)
    → m < event.sequence
    → apply_event event body s ≡ ok t
    → TracesWell m s
    → TracesWell event.sequence t
unfolding apply_event reduce_run
apply_event-TracesWell event (EventBody.run body) m s t h e w = run body e
  where
    run :
        (b : RunEvent) → apply_event event (EventBody.run b) s ≡ ok t → TracesWell event.sequence t
    run (RunEvent.started workflow) k =
        still_TracesWell m event.sequence s t (omega arith) (ground arith) (ground arith)
          (ground arith) w
    run _ k =
        still_TracesWell m event.sequence s t (omega arith) (ground arith) (ground arith)
          (ground arith) w
apply_event-TracesWell event (EventBody.phase phase_id body) m s t h e w =
    let k = reduce_phase-MembersOnly event.timestamp phase_id body s t e in
    still_TracesWell m event.sequence s t (omega arith) (ap (λ (u : WorkflowSnapshot). u.logs) k)
      (ap (λ (u : WorkflowSnapshot). u.warnings) k) (ap (λ (u : WorkflowSnapshot). u.artifacts) k) w
apply_event-TracesWell event (EventBody.agent agent_id body) m s t h e w =
    let k = reduce_agent-MembersOnly event.timestamp agent_id body s t e in
    still_TracesWell m event.sequence s t (omega arith) (ap (λ (u : WorkflowSnapshot). u.logs) k)
      (ap (λ (u : WorkflowSnapshot). u.warnings) k) (ap (λ (u : WorkflowSnapshot). u.artifacts) k) w
apply_event-TracesWell event (EventBody.trace origin body) m s t h e w =
    subst (TracesWell event.sequence) (ground arith)
      (reduce_trace-TracesWell event origin body m s h w)
