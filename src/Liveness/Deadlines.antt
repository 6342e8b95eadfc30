-- ===== src/Liveness/Deadlines.antt =====
-- src/executionReliability.ts: the deadline of an attempt, and what a timeout of it says.
use workflow_mcp.Common.{
  ℕ, ◌+◌, ◌-◌, ◌≤◌, ◌≡◌, refl, ◌∙◌, Bool, true, false, Option, none, some, List, [], ◌∷◌, arith,
  max, if◌then◌else◌,
}
use workflow_mcp.Liveness.{
  LivenessPolicy, AgentProviderEvent, Timer, Monitor, track, phase, deadline, arm, unarmed,
  new_monitor, progress, stop, time_out, expire, MonitorCall, monitor_call, monitor_calls,
}
use workflow_mcp.Liveness.Activities.{IsKeyed, track-IsKeyed}

-- The timer of a running monitor stands for the present deadline and is not due before it.
pub record Armed (m : Monitor) : Type 0 where
  pub timer : Timer
  pub armed : m.timer ≡ some timer
  pub phase_of : timer.phase ≡ phase m
  pub deadline_of : timer.deadline ≡ deadline (phase m) m
  pub not_early : timer.deadline ≤ timer.due

pub record Watches (m : Monitor) : Type 0 where
  pub keyed : IsKeyed m
  pub armed : m.stopped ≡ false → Armed m
  pub pending : m.stopped ≡ false → m.timeout ≡ none

arm-Watches :
    (clock : ℕ) (m : Monitor)
    → IsKeyed m
    → m.stopped ≡ false
    → m.timeout ≡ none
    → Watches (arm clock m)
unfolding arm phase deadline
arm-Watches clock m k live pending = rw live (record {
  keyed = k;
  armed = λ h. record {
    timer = record {
      due = clock + max 1 (deadline (phase m) m - clock);
      deadline = deadline (phase m) m;
      phase = phase m;
    };
    armed = refl;
    phase_of = refl;
    deadline_of = refl;
    not_early = omega arith;
  };
  pending = λ h. pending;
})

track-stopped : (event : AgentProviderEvent) (m : Monitor) → (track event m).stopped ≡ m.stopped
unfolding track
track-stopped (AgentProviderEvent.activity_started activity) m = refl
track-stopped (AgentProviderEvent.activity_updated id change) m = refl
track-stopped (AgentProviderEvent.activity_completed activity) m = refl
track-stopped _ m = refl

track-timeout : (event : AgentProviderEvent) (m : Monitor) → (track event m).timeout ≡ m.timeout
unfolding track
track-timeout (AgentProviderEvent.activity_started activity) m = refl
track-timeout (AgentProviderEvent.activity_updated id change) m = refl
track-timeout (AgentProviderEvent.activity_completed activity) m = refl
track-timeout _ m = refl

-- An operation does nothing on a stopped monitor, or it is `run` on a running one.
if-stopped :
    (m n : Monitor)
    → Watches m
    → (m.stopped ≡ false → Watches n)
    → Watches (if m.stopped then m else n)
if-stopped m n w f = chosen m.stopped refl
  where
    chosen : (b : Bool) → m.stopped ≡ b → Watches (if b then m else n)
    chosen true p = w
    chosen false p = f p

monitor_call-Watches :
    (m : Monitor) (call : MonitorCall) → Watches m → Watches (monitor_call m call)
unfolding monitor_call progress stop expire
monitor_call-Watches m (MonitorCall.progresses event now clock) w =
    let started = record m { saw_progress = true; last_progress_at = now } in
    if-stopped m (arm clock (track event started)) w (λ live.
      arm-Watches clock (track event started) (track-IsKeyed event started w.keyed)
        (track-stopped event started ∙ live) (track-timeout event started ∙ w.pending live))
monitor_call-Watches m MonitorCall.stops w = record {
  keyed = w.keyed;
  armed = λ h. cc;
  pending = λ h. cc;
}
monitor_call-Watches m MonitorCall.expires w =
    if-stopped m (elim m.timer [ none ↦ m | some t ↦ time_out t m ]) w (λ live. fired m.timer)
  where
    fired : (timer : Option Timer) → Watches (elim timer [ none ↦ m | some t ↦ time_out t m ])
    fired none = w
    fired (some t) = record { keyed = w.keyed; armed = λ h. cc; pending = λ h. cc }

monitor_calls-Watches :
    (m : Monitor) (calls : List MonitorCall) → Watches m → Watches (monitor_calls m calls)
unfolding monitor_calls
monitor_calls-Watches m [] w = w
monitor_calls-Watches m (call ∷ calls) w =
    monitor_calls-Watches (monitor_call m call) calls (monitor_call-Watches m call w)

-- After any calls on a new monitor (`Watches`): the map of activities has a value for each open
-- activity, in the same order, and for no other; and a monitor that is not stopped has no timeout yet
-- and has its timer set for the deadline of its present phase, due no earlier.
pub monitor_calls-new_monitor :
    (policy : LivenessPolicy) (watches_soft_stall : Bool) (now clock : ℕ) (calls : List MonitorCall)
    → Watches (monitor_calls (new_monitor policy watches_soft_stall now clock) calls)
unfolding new_monitor
monitor_calls-new_monitor policy watches_soft_stall now clock calls =
    monitor_calls-Watches (new_monitor policy watches_soft_stall now clock) calls
      (arm-Watches clock (unarmed policy watches_soft_stall now) refl refl refl)
