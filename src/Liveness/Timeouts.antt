-- ===== src/Liveness/Timeouts.antt =====
-- src/executionReliability.ts: an attempt times out once, for a reason that its clock bears out.
use workflow_mcp.Common.{
  ℕ, ◌+◌, ◌≤◌, ◌≡◌, ◌≢◌, ◌↔◌, ◌⊎◌, refl, ap, ◌∙◌, inl, inr, Bool, true, false, none, some, List, [],
  ◌∷◌, arith, leb, min, Bool-cases, if◌then◌else◌,
}
use workflow_mcp.Liveness.{
  LivenessPolicy, AgentProviderActivity, LivenessPhase, AttemptTimeoutKind, AgentAttemptTimeout,
  Monitor, phase, limit, deadline, new_monitor, progress, snapshot, stop, expire, MonitorCall,
  monitor_call, monitor_calls,
}
use workflow_mcp.Liveness.Activities.{phase-active_operation}
use workflow_mcp.Liveness.Deadlines.{Watches, monitor_calls-new_monitor}

-- The timeout of a monitor that was running until then.
pub record TimesOut (m t : Monitor) : Type 0 where
  pub stopped : t.stopped ≡ true
  pub timeout : AgentAttemptTimeout
  pub settled : t.timeout ≡ some timeout
  pub deadline_at : timeout.deadline_at ≡ (snapshot m).deadline_at
  pub last_progress_at : timeout.last_progress_at ≡ (snapshot m).last_progress_at
  pub absolute :
      (timeout.kind ≡ AttemptTimeoutKind.absolute)
      ↔ (m.started_at + m.policy.attempt_timeout_ms ≤ m.last_progress_at + limit (phase m) m.policy)
  pub inactive :
      timeout.kind ≢ AttemptTimeoutKind.absolute
      → timeout.kind ≡ AttemptTimeoutKind.inactive (phase m)
  pub activity :
      phase m ≡ LivenessPhase.active_operation
      → (a : AgentProviderActivity) × (timeout.uncertain_in_flight_activity ≡ some a)

kind-absolute :
    (limit_at last : ℕ) (p : LivenessPhase)
    → ((if leb limit_at (min last limit_at)
          then AttemptTimeoutKind.absolute
          else AttemptTimeoutKind.inactive p)
        ≡ AttemptTimeoutKind.absolute)
      ↔ (limit_at ≤ last)
kind-absolute limit_at last p = elim (Bool-cases (leb limit_at (min last limit_at))) [
  | inl q ↦ rw q ((λ e. ground arith), (λ r. refl))
  | inr q ↦ rw q ((λ e. cc), (λ r. absurd (ground (arith, q))))
]

kind-inactive :
    (b : Bool) (p q : LivenessPhase)
    → p ≡ q
    → (if b then AttemptTimeoutKind.absolute else AttemptTimeoutKind.inactive p)
      ≢ AttemptTimeoutKind.absolute
    → (if b then AttemptTimeoutKind.absolute else AttemptTimeoutKind.inactive p)
      ≡ AttemptTimeoutKind.inactive q
kind-inactive true p q e n = absurd (n refl)
kind-inactive false p q e n = ap AttemptTimeoutKind.inactive e

fire : (m : Monitor) → Watches m → m.stopped ≡ false → TimesOut m (expire m)
unfolding expire snapshot deadline
fire m w live =
    let a = w.armed live in
    rw (live, a.armed)
      (record {
        stopped = refl;
        timeout = _;
        settled = refl;
        deadline_at = a.deadline_of;
        last_progress_at = refl;
        absolute = rw a.deadline_of (
            kind-absolute (m.started_at + m.policy.attempt_timeout_ms)
              (m.last_progress_at + limit (phase m) m.policy) a.timer.phase);
        inactive = kind-inactive _ a.timer.phase (phase m) a.phase_of;
        activity = phase-active_operation m w.keyed;
      })

-- When the timer of a running monitor fires that calls on a new one have led to (`TimesOut`), the
-- monitor stops, and its timeout has the deadline and the last progress of a snapshot. Its kind is
-- absolute exactly if the attempt's own limit is reached no later than that of the phase, and is
-- the phase otherwise. An activity in flight is named if the phase is an active operation.
pub expire-TimesOut :
    (policy : LivenessPolicy) (watches_soft_stall : Bool) (now clock : ℕ) (calls : List MonitorCall)
    → (monitor_calls (new_monitor policy watches_soft_stall now clock) calls).stopped ≡ false
    → TimesOut
        (monitor_calls (new_monitor policy watches_soft_stall now clock) calls)
        (expire (monitor_calls (new_monitor policy watches_soft_stall now clock) calls))
expire-TimesOut policy watches_soft_stall now clock calls =
    fire (monitor_calls (new_monitor policy watches_soft_stall now clock) calls)
      (monitor_calls-new_monitor policy watches_soft_stall now clock calls)

-- Later than `m`, with the same timeout.
record Settled (m n : Monitor) : Type 0 where
  stopped : n.stopped ≡ true
  timeout : n.timeout ≡ m.timeout

unless_stopped : (m n : Monitor) → m.stopped ≡ true → Settled m (if m.stopped then m else n)
unless_stopped m n h = chosen m.stopped h
  where
    chosen : (b : Bool) → b ≡ true → Settled m (if b then m else n)
    chosen true e = record { stopped = h; timeout = refl }
    chosen false e = cc

stopped-call :
    (m : Monitor) (call : MonitorCall) → m.stopped ≡ true → Settled m (monitor_call m call)
unfolding monitor_call progress stop expire
stopped-call m (MonitorCall.progresses event now clock) h = unless_stopped m _ h
stopped-call m MonitorCall.stops h = record { stopped = refl; timeout = refl }
stopped-call m MonitorCall.expires h = unless_stopped m _ h

stopped-calls :
    (m : Monitor) (calls : List MonitorCall) → m.stopped ≡ true → Settled m (monitor_calls m calls)
unfolding monitor_calls
stopped-calls m [] h = record { stopped = h; timeout = refl }
stopped-calls m (call ∷ calls) h =
    let one = stopped-call m call h in
    let rest = stopped-calls (monitor_call m call) calls one.stopped in
    record { stopped = rest.stopped; timeout = rest.timeout ∙ one.timeout }

-- Once a monitor has been stopped or has timed out, after any calls on a new one, no later calls
-- change its timeout: it is not settled twice, and never after a stop.
pub monitor_calls-timeout :
    (policy : LivenessPolicy) (watches_soft_stall : Bool) (now clock : ℕ)
    (calls later : List MonitorCall)
    → ((monitor_calls (new_monitor policy watches_soft_stall now clock) calls).stopped ≡ true)
      ⊎ ((monitor_calls (new_monitor policy watches_soft_stall now clock) calls).timeout ≢ none)
    → (monitor_calls
        (monitor_calls (new_monitor policy watches_soft_stall now clock) calls)
        later).timeout
      ≡ (monitor_calls (new_monitor policy watches_soft_stall now clock) calls).timeout
monitor_calls-timeout policy watches_soft_stall now clock calls later h =
    let m = monitor_calls (new_monitor policy watches_soft_stall now clock) calls in
    let w = monitor_calls-new_monitor policy watches_soft_stall now clock calls in
    (stopped-calls m later (elim h [ inl s ↦ s | inr t ↦ over m w t ])).timeout
  where
    over : (m : Monitor) → Watches m → m.timeout ≢ none → m.stopped ≡ true
    over m w t = elim (Bool-cases m.stopped) [ inl s ↦ s | inr live ↦ absurd (t (w.pending live)) ]
