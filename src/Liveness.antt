-- ===== src/Liveness.antt =====
-- src/executionReliability.ts: `AttemptLivenessMonitor`. Times are milliseconds of the clock. `arm`
-- reads the clock once more, so an operation that arms the timers has a second time. A timer that
-- is set is a value; `expire` is the callback of the hard timer.
pub mod Activities
pub mod Deadlines
pub mod Timeouts
mod Samples
use workflow_mcp.Common.{
  ℕ, ◌+◌, ◌-◌, ◌<◌, String, Bool, true, false, not, ◌&&◌, Option, none, some, List, [], ◌∷◌, ◌++◌,
  length, filter, any, find, str_eq, ltb, leb, min, max, or_keep, if◌then◌else◌,
}
use workflow_mcp.Value.{Value}
use workflow_mcp.Events.{ProviderSessionReference, AgentActivityKind}

-- The fields of `WorkflowReliabilityPolicy` that the monitor reads.
pub record LivenessPolicy : Type 0 where
  pub startup_timeout_ms : ℕ
  pub soft_stall_timeout_ms : ℕ
  pub idle_timeout_ms : ℕ
  pub active_operation_timeout_ms : ℕ
  pub attempt_timeout_ms : ℕ

pub record AgentProviderActivity : Type 0 where
  pub id : String
  pub kind : AgentActivityKind
  pub title : Option String
  pub content : Option Value

-- `Partial<Omit<AgentProviderActivity, 'id'>>`.
pub record ActivityChange : Type 0 where
  pub kind : Option AgentActivityKind
  pub title : Option String
  pub content : Option Value

pub data AgentProviderEvent : Type 0 where
  session_started : ProviderSessionReference → Option Value → AgentProviderEvent
  activity_started : AgentProviderActivity → AgentProviderEvent
  activity_updated : String → ActivityChange → AgentProviderEvent
  activity_completed : AgentProviderActivity → AgentProviderEvent
  warning : String → Option String → AgentProviderEvent

pub data LivenessPhase : Type 0 where
  startup idle active_operation : LivenessPhase

pub data AttemptTimeoutKind : Type 0 where
  absolute : AttemptTimeoutKind
  inactive : LivenessPhase → AttemptTimeoutKind

pub record AgentAttemptTimeout : Type 0 where
  pub kind : AttemptTimeoutKind
  pub last_progress_at : ℕ
  pub deadline_at : ℕ
  pub uncertain_in_flight_activity : Option AgentProviderActivity

-- A hard timer, with what its callback has captured.
pub record Timer : Type 0 where
  pub due : ℕ
  pub deadline : ℕ
  pub phase : LivenessPhase

pub record Monitor : Type 0 where
  pub policy : LivenessPolicy
  pub started_at : ℕ
  pub watches_soft_stall : Bool
  pub last_progress_at : ℕ
  pub saw_progress : Bool
  pub open_activities : List String
  pub activities : List AgentProviderActivity
  pub timer : Option Timer
  pub soft_timer : Option ℕ
  pub stopped : Bool
  pub timeout : Option AgentAttemptTimeout

abbrev pub has_id : String → AgentProviderActivity → Bool
has_id id activity = str_eq activity.id id

-- `Set.prototype.add`: an element that is there keeps its place.
abbrev pub add_open : String → List String → List String
add_open id ids = if any (λ i. str_eq i id) ids then ids else ids ++ id ∷ []

-- `Map.prototype.set`: a key that is there keeps its place.
unfoldable pub put_activity :
    AgentProviderActivity → List AgentProviderActivity → List AgentProviderActivity
put_activity activity [] = activity ∷ []
put_activity activity (a ∷ rest) =
    if has_id activity.id a then activity ∷ rest else a ∷ put_activity activity rest

abbrev pub patch_activity : ActivityChange → AgentProviderActivity → AgentProviderActivity
patch_activity change activity = record activity {
  kind = elim change.kind [ none ↦ activity.kind | some kind ↦ kind ];
  title = or_keep change.title activity.title;
  content = or_keep change.content activity.content;
}

abbrev pub patch_found :
    ActivityChange
    → Option AgentProviderActivity
    → List AgentProviderActivity
    → List AgentProviderActivity
patch_found change none activities = activities
patch_found change (some current) activities =
    put_activity (patch_activity change current) activities

-- The bookkeeping of `progress` for each type of event.
unfoldable pub track : AgentProviderEvent → Monitor → Monitor
unfolding put_activity
track (activity_started activity) m = record m {
  open_activities = add_open activity.id m.open_activities;
  activities = put_activity activity m.activities;
}
track (activity_updated id change) m = record m {
  activities = patch_found change (find (has_id id) m.activities) m.activities;
}
track (activity_completed activity) m = record m {
  open_activities = filter (λ i. not (str_eq i activity.id)) m.open_activities;
  activities = filter (λ a. not (has_id activity.id a)) m.activities;
}
track _ m = m

unfoldable pub phase : Monitor → LivenessPhase
phase m =
    if not m.saw_progress
    then LivenessPhase.startup
    else if ltb 0 (length m.open_activities)
    then LivenessPhase.active_operation
    else LivenessPhase.idle

abbrev pub limit : LivenessPhase → LivenessPolicy → ℕ
limit startup policy = policy.startup_timeout_ms
limit active_operation policy = policy.active_operation_timeout_ms
limit idle policy = policy.idle_timeout_ms

unfoldable pub deadline : LivenessPhase → Monitor → ℕ
deadline p m =
    min (m.last_progress_at + limit p m.policy) (m.started_at + m.policy.attempt_timeout_ms)

abbrev soft_deadline : Monitor → ℕ → ℕ
soft_deadline m hard = min (m.last_progress_at + m.policy.soft_stall_timeout_ms) (hard - 1)

-- A deadline of 0 has no soft deadline before it: `0 - 1` is in the past as well.
unfoldable pub arm : ℕ → Monitor → Monitor
unfolding phase deadline
arm clock m =
    let p = phase m in
    let hard = deadline p m in
    let soft = soft_deadline m hard in
    if m.stopped then m else record m {
      soft_timer = if m.watches_soft_stall && ltb clock soft then some soft else none;
      timer = some (record { due = clock + max 1 (hard - clock); deadline = hard; phase = p });
    }

-- The fields that the constructor sets before it arms the timers.
abbrev pub unarmed : LivenessPolicy → Bool → ℕ → Monitor
unarmed policy watches_soft_stall now = record {
  policy = policy;
  started_at = now;
  watches_soft_stall = watches_soft_stall;
  last_progress_at = now;
  saw_progress = false;
  open_activities = [];
  activities = [];
  timer = none;
  soft_timer = none;
  stopped = false;
  timeout = none;
}

unfoldable pub new_monitor : LivenessPolicy → Bool → ℕ → ℕ → Monitor
unfolding arm
new_monitor policy watches_soft_stall now clock = arm clock (unarmed policy watches_soft_stall now)

unfoldable pub progress : AgentProviderEvent → ℕ → ℕ → Monitor → Monitor
unfolding track arm
progress event now clock m =
    if m.stopped
    then m
    else arm clock (track event (record m { saw_progress = true; last_progress_at = now }))

-- `[...this.#openActivities].at(-1)`.
abbrev pub latest : List String → Option String
latest [] = none
latest (id ∷ []) = some id
latest (id ∷ next ∷ ids) = latest (next ∷ ids)

abbrev pub activity_at : Option String → List AgentProviderActivity → Option AgentProviderActivity
activity_at none activities = none
activity_at (some id) activities = find (has_id id) activities

unfoldable pub uncertain_activity : Monitor → Option AgentProviderActivity
uncertain_activity m = activity_at (latest m.open_activities) m.activities

pub record AttemptLivenessSnapshot : Type 0 where
  pub started_at : ℕ
  pub last_progress_at : ℕ
  pub deadline_at : ℕ
  pub phase : LivenessPhase
  pub open_activities : ℕ
  pub uncertain_in_flight_activity : Option AgentProviderActivity

unfoldable pub snapshot : Monitor → AttemptLivenessSnapshot
unfolding phase deadline uncertain_activity
snapshot m = record {
  started_at = m.started_at;
  last_progress_at = m.last_progress_at;
  deadline_at = deadline (phase m) m;
  phase = phase m;
  open_activities = length m.open_activities;
  uncertain_in_flight_activity = uncertain_activity m;
}

unfoldable pub stop : Monitor → Monitor
stop m = record m { stopped = true; timer = none; soft_timer = none }

abbrev pub time_out : Timer → Monitor → Monitor
time_out t m = record m {
  stopped = true;
  timeout = some (record {
    kind =
        if leb (m.started_at + m.policy.attempt_timeout_ms) t.deadline
        then AttemptTimeoutKind.absolute
        else AttemptTimeoutKind.inactive t.phase;
    last_progress_at = m.last_progress_at;
    deadline_at = t.deadline;
    uncertain_in_flight_activity = uncertain_activity m;
  });
}

-- The callback of the hard timer, where one is set.
unfoldable pub expire : Monitor → Monitor
unfolding uncertain_activity
expire m = if m.stopped then m else elim m.timer [ none ↦ m | some t ↦ time_out t m ]

pub data MonitorCall : Type 0 where
  progresses : AgentProviderEvent → ℕ → ℕ → MonitorCall
  stops : MonitorCall
  expires : MonitorCall

unfoldable pub monitor_call : Monitor → MonitorCall → Monitor
unfolding progress stop expire
monitor_call m (progresses event now clock) = progress event now clock m
monitor_call m stops = stop m
monitor_call m expires = expire m

unfoldable pub monitor_calls : Monitor → List MonitorCall → Monitor
unfolding monitor_call
monitor_calls m [] = m
monitor_calls m (call ∷ calls) = monitor_calls (monitor_call m call) calls
