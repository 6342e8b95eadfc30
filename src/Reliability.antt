-- ===== src/Reliability.antt =====
-- src/executionReliability.ts: `WorkflowReliabilityPolicy`, its default and
-- `normalizeReliabilityPolicy`. The fields that are checked in a loop are a function of their names. The
-- jitter ratio is an exact fraction where it is finite, with a fifth for 0.2.
pub mod Normalization
mod Samples
use workflow_mcp.Common.{
  ℕ, suc, ◌*◌, String, Bool, true, false, not, ◌&&◌, ◌||◌, List, [], ◌∷◌, Option, none, some, ltb,
  leb, str_eq, if◌then◌else◌, Result, ok, err, ◌>>=◌, ◌>>◌, throw_if,
}
use workflow_mcp.Value.{natural}
use workflow_mcp.Js.{JsValue, number, text, finite}

pub data AutomaticRetryMode : Type 0 where
  never safe : AutomaticRetryMode

pub data PolicyName : Type 0 where
  max_attempts max_retry_attempts_per_run : PolicyName
  startup_timeout_ms soft_stall_timeout_ms idle_timeout_ms : PolicyName
  active_operation_timeout_ms attempt_timeout_ms : PolicyName
  retry_backoff_base_ms retry_backoff_max_ms : PolicyName
  hard_termination_grace_ms preparation_timeout_ms cleanup_timeout_ms : PolicyName
  event_sink_timeout_ms : PolicyName
  worker_startup_timeout_ms worker_heartbeat_timeout_ms worker_idle_timeout_ms : PolicyName
  circuit_breaker_threshold circuit_breaker_window_ms circuit_breaker_cooldown_ms : PolicyName
  preparation_concurrency cleanup_concurrency underutilization_warning_ms : PolicyName

-- A value for the jitter: `fraction n d` is n / (d + 1); the others are the numbers below zero, and what
-- is no finite number.
pub data Ratio : Type 0 where
  fraction : ℕ → ℕ → Ratio
  below_zero not_finite : Ratio

pub record WorkflowReliabilityPolicy : Type 0 where
  pub value : PolicyName → ℕ
  pub retry_jitter_ratio : Ratio
  pub automatic_retry : AutomaticRetryMode

-- The fields that a partial policy has; one may be there and undefined.
pub record PolicyOverrides : Type 0 where
  pub values : PolicyName → Option JsValue
  pub retry_jitter_ratio : Option Ratio
  pub automatic_retry : Option JsValue

pub data PolicyError : Type 0 where
  not_positive : PolicyName → PolicyError
  bad_jitter : PolicyError
  unsupported_mode : JsValue → PolicyError
  backoff_order : PolicyError

unfoldable pub default_value : PolicyName → ℕ
default_value max_attempts = 3
default_value max_retry_attempts_per_run = 100
default_value startup_timeout_ms = 90000
default_value soft_stall_timeout_ms = 60000
default_value idle_timeout_ms = 6 * 60000
default_value active_operation_timeout_ms = 20 * 60000
default_value attempt_timeout_ms = 45 * 60000
default_value retry_backoff_base_ms = 2000
default_value retry_backoff_max_ms = 30000
default_value hard_termination_grace_ms = 5000
default_value preparation_timeout_ms = 2 * 60000
default_value cleanup_timeout_ms = 30000
default_value event_sink_timeout_ms = 30000
default_value worker_startup_timeout_ms = 30000
default_value worker_heartbeat_timeout_ms = 30000
default_value worker_idle_timeout_ms = 2 * 60000
default_value circuit_breaker_threshold = 5
default_value circuit_breaker_window_ms = 2 * 60000
default_value circuit_breaker_cooldown_ms = 30000
default_value preparation_concurrency = 2
default_value cleanup_concurrency = 2
default_value underutilization_warning_ms = 30000

abbrev pub policy_names : List PolicyName
policy_names =
    max_attempts ∷ max_retry_attempts_per_run ∷ startup_timeout_ms ∷ soft_stall_timeout_ms
    ∷ idle_timeout_ms ∷ active_operation_timeout_ms ∷ attempt_timeout_ms ∷ retry_backoff_base_ms
    ∷ retry_backoff_max_ms ∷ hard_termination_grace_ms ∷ preparation_timeout_ms ∷ cleanup_timeout_ms
    ∷ event_sink_timeout_ms ∷ worker_startup_timeout_ms ∷ worker_heartbeat_timeout_ms
    ∷ worker_idle_timeout_ms ∷ circuit_breaker_threshold ∷ circuit_breaker_window_ms
    ∷ circuit_breaker_cooldown_ms ∷ preparation_concurrency ∷ cleanup_concurrency
    ∷ underutilization_warning_ms ∷ []

-- Number.MAX_SAFE_INTEGER
abbrev pub max_safe_integer : ℕ
max_safe_integer = 9007199254740991

abbrev pub default_policy : WorkflowReliabilityPolicy
default_policy = record {
  value = default_value;
  retry_jitter_ratio = fraction 1 4;
  automatic_retry = safe;
}

abbrev pub or_default {ℓ} : {A : Type ℓ} → Option A → A → A
or_default none d = d
or_default (some a) d = a

-- `{ ...DEFAULT, ...overrides }[name]`
abbrev pub merged : PolicyOverrides → PolicyName → JsValue
merged overrides name =
    or_default (overrides.values name) (number (finite (natural (default_value name))))

abbrev pub number_of : JsValue → ℕ
number_of (number (finite (natural n))) = n
number_of other = 0

-- A safe integer that is positive; `number_of` is 0 on every other value.
abbrev pub is_positive_safe : JsValue → Bool
is_positive_safe v = ltb 0 (number_of v) && leb (number_of v) max_safe_integer

abbrev pub check_names : PolicyOverrides → List PolicyName → Result PolicyError (Unit {0})
check_names overrides [] = ok tt
check_names overrides (name ∷ names) =
    throw_if (not (is_positive_safe (merged overrides name))) (not_positive name)
    >> check_names overrides names

-- A ratio that is not finite, negative or above one.
abbrev pub is_bad_ratio : Ratio → Bool
is_bad_ratio (fraction n d) = ltb (suc d) n
is_bad_ratio other = true

abbrev pub mode_of : Option JsValue → Result PolicyError AutomaticRetryMode
mode_of none = ok safe
mode_of (some (text mode)) =
    if str_eq mode "never"
    then ok never
    else if str_eq mode "safe"
    then ok safe
    else err (unsupported_mode (text mode))
mode_of (some other) = err (unsupported_mode other)

abbrev pub merged_ratio : PolicyOverrides → Ratio
merged_ratio overrides = or_default overrides.retry_jitter_ratio (fraction 1 4)

abbrev pub merged_value : PolicyOverrides → PolicyName → ℕ
merged_value overrides name = number_of (merged overrides name)

-- The policy of a mode, and the last test.
abbrev pub with_mode :
    PolicyOverrides → AutomaticRetryMode → Result PolicyError WorkflowReliabilityPolicy
with_mode overrides mode =
    throw_if
      (ltb (merged_value overrides retry_backoff_max_ms)
        (merged_value overrides retry_backoff_base_ms))
      backoff_order
    >> ok (record {
      value = merged_value overrides;
      retry_jitter_ratio = merged_ratio overrides;
      automatic_retry = mode;
    })

unfoldable pub normalize_reliability_policy :
    PolicyOverrides → Result PolicyError WorkflowReliabilityPolicy
normalize_reliability_policy overrides =
    check_names overrides policy_names
    >> throw_if (is_bad_ratio (merged_ratio overrides)) bad_jitter
    >> (mode_of overrides.automatic_retry >>= with_mode overrides)
