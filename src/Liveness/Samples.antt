-- ===== src/Liveness/Samples.antt =====
-- An attempt whose command hangs, in the model of `AttemptLivenessMonitor` of
-- src/executionReliability.ts.
use workflow_mcp.Common.{◌≡◌, refl, true, none, some, List, [], ◌∷◌, inl}
use workflow_mcp.Events.{AgentActivityKind}
use workflow_mcp.Liveness.{
  LivenessPolicy, AgentProviderActivity, AgentProviderEvent, LivenessPhase, AttemptTimeoutKind,
  Monitor, new_monitor, snapshot, expire, MonitorCall, monitor_call, monitor_calls,
}
use workflow_mcp.Liveness.Deadlines.{Watches, monitor_calls-new_monitor}
use workflow_mcp.Liveness.Timeouts.{TimesOut, expire-TimesOut, monitor_calls-timeout}

abbrev policy : LivenessPolicy
policy = record {
  startup_timeout_ms = 90;
  soft_stall_timeout_ms = 60;
  idle_timeout_ms = 360;
  active_operation_timeout_ms = 1200;
  attempt_timeout_ms = 2700;
}

abbrev command : AgentProviderActivity
command = record {
  id = "command";
  kind = AgentActivityKind.command;
  title = some "npm test";
  content = none;
}

abbrev hanging : List MonitorCall
hanging =
    MonitorCall.progresses (AgentProviderEvent.warning "slow start" none) 1050 1050
    ∷ MonitorCall.progresses (AgentProviderEvent.activity_started command) 1100 1100
    ∷ []

abbrev monitor : Monitor
monitor = monitor_calls (new_monitor policy true 1000 1000) hanging

command_has_time : (snapshot monitor).deadline_at ≡ 2300
unfolding snapshot monitor_calls new_monitor
command_has_time = refl

command_is_named :
    (expire monitor).timeout
    ≡ some (record {
      kind = AttemptTimeoutKind.inactive LivenessPhase.active_operation;
      last_progress_at = 1100;
      deadline_at = 2300;
      uncertain_in_flight_activity = some command;
    })
unfolding expire monitor_calls new_monitor
command_is_named = refl

monitor_calls-new_monitor_example : Watches monitor
monitor_calls-new_monitor_example = monitor_calls-new_monitor policy true 1000 1000 hanging

expire-TimesOut_example : TimesOut monitor (expire monitor)
unfolding monitor_calls new_monitor
expire-TimesOut_example = expire-TimesOut policy true 1000 1000 hanging refl

monitor_calls-timeout_example :
    (monitor_calls (monitor_call monitor MonitorCall.expires) hanging).timeout
    ≡ (monitor_call monitor MonitorCall.expires).timeout
unfolding monitor_calls new_monitor
monitor_calls-timeout_example =
    monitor_calls-timeout policy true 1000 1000
      (MonitorCall.progresses (AgentProviderEvent.warning "slow start" none) 1050 1050
        ∷ MonitorCall.progresses (AgentProviderEvent.activity_started command) 1100 1100
        ∷ MonitorCall.expires
        ∷ [])
      hanging (inl refl)
