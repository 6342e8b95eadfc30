-- ===== src/Reliability/Samples.antt =====
-- Policies with few fields given.
use workflow_mcp.Common.{◌≤◌, ℕ, Option, none, some, ◌≡◌, refl, ok, err}
use workflow_mcp.Value.{natural}
use workflow_mcp.Js.{JsValue, number, finite}
use workflow_mcp.Reliability.{
  fraction, safe, retry_backoff_base_ms, PolicyName, retry_backoff_max_ms, PolicyOverrides,
  backoff_order, not_positive, WorkflowReliabilityPolicy, default_policy, default_value,
  merged_value, normalize_reliability_policy,
}
use workflow_mcp.Reliability.Normalization.{
  IsTaken, IsPositiveSafe, IsTakenRatio, IsRatio, IsTakenMode,
  normalize_reliability_policy-IsPolicy,
}

abbrev nothing_given : PolicyOverrides
nothing_given = record { values = λ name. none; retry_jitter_ratio = none; automatic_retry = none }

defaults :
    normalize_reliability_policy nothing_given
    ≡ ok (record default_policy { value = merged_value nothing_given })
unfolding normalize_reliability_policy default_value
defaults = refl

abbrev at_most : ℕ → PolicyName → Option JsValue
at_most n retry_backoff_max_ms = some (number (finite (natural n)))
at_most n other = none

abbrev with_maximum : ℕ → PolicyOverrides
with_maximum n = record nothing_given { values = at_most n }

-- Below the first backoff, and zero.
refuses : normalize_reliability_policy (with_maximum 1000) ≡ err backoff_order
unfolding normalize_reliability_policy default_value
refuses = refl

refuses_zero :
    normalize_reliability_policy (with_maximum 0) ≡ err (not_positive retry_backoff_max_ms)
unfolding normalize_reliability_policy default_value
refuses_zero = refl

abbrev policy : WorkflowReliabilityPolicy
policy = record default_policy { value = merged_value (with_maximum 5000) }

accepts : normalize_reliability_policy (with_maximum 5000) ≡ ok policy
unfolding normalize_reliability_policy default_value
accepts = refl

normalize_reliability_policy-IsPolicy_example :
    IsTaken (at_most 5000 retry_backoff_max_ms) 30000 5000
    × IsPositiveSafe 5000
    × IsTakenRatio none (fraction 1 4)
    × IsRatio (fraction 1 4)
    × IsTakenMode none safe
    × (policy.value retry_backoff_base_ms ≤ 5000)
unfolding default_value
normalize_reliability_policy-IsPolicy_example =
    normalize_reliability_policy-IsPolicy (with_maximum 5000) policy retry_backoff_max_ms accepts
