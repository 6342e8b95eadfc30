-- ===== src/Reliability/Normalization.antt =====
-- What a policy that was normalized satisfies.
use workflow_mcp.Common.{
  ℕ, suc, ◌≤◌, ◌<◌, String, false, not, List, [], ◌∷◌, Option, none, some, ◌≡◌, refl, ◌∙◌, ap,
  subst, arith, inl, inr, ltb, All, ok, ◌>>=◌, ◌>>◌, >>-ok, >>=-eq-ok, throw_if, throw_if-ok,
  str_eq, eq_iff, Bool-cases,
}
use workflow_mcp.Value.{natural}
use workflow_mcp.Js.{JsValue, number, text, finite}
use workflow_mcp.Reliability.{
  PolicyName, PolicyOverrides, WorkflowReliabilityPolicy, Ratio, fraction, policy_names,
  retry_backoff_base_ms, retry_backoff_max_ms, not_positive, bad_jitter, backoff_order,
  max_safe_integer, merged, merged_value, with_mode, merged_ratio, number_of, is_positive_safe,
  check_names, is_bad_ratio, mode_of, normalize_reliability_policy, default_value, or_default,
  AutomaticRetryMode, never, safe,
}

abbrev pub IsPositiveSafe : ℕ → Type 0
IsPositiveSafe n = (0 < n) × (n ≤ max_safe_integer)

abbrev pub IsRatio : Ratio → Type 0
IsRatio (fraction n d) = n ≤ suc d
IsRatio other = ⊥

check_names-IsPositiveSafe :
    (overrides : PolicyOverrides) (names : List PolicyName)
    → check_names overrides names ≡ ok tt
    → All (λ name. IsPositiveSafe (number_of (merged overrides name))) names
check_names-IsPositiveSafe overrides [] h = tt
check_names-IsPositiveSafe overrides (name ∷ names) h =
    let (one, rest) =
      >>-ok (throw_if (not (is_positive_safe (merged overrides name))) (not_positive name))
        (check_names overrides names) h in
    let fine =
      throw_if-ok (not (is_positive_safe (merged overrides name))) (not_positive name) tt one in
    ((ground arith, ground arith), check_names-IsPositiveSafe overrides names rest)

ratio-IsRatio : (r : Ratio) → is_bad_ratio r ≡ false → IsRatio r
ratio-IsRatio (fraction n d) h = ground arith
ratio-IsRatio Ratio.below_zero h = cc
ratio-IsRatio Ratio.not_finite h = cc

-- Every numeric field is among those that the loop checks.
every_name : (P : PolicyName → Type 0) → All P policy_names → (name : PolicyName) → P name
every_name P h PolicyName.max_attempts = h.0
every_name P h PolicyName.max_retry_attempts_per_run = h.1.0
every_name P h PolicyName.startup_timeout_ms = h.1.1.0
every_name P h PolicyName.soft_stall_timeout_ms = h.1.1.1.0
every_name P h PolicyName.idle_timeout_ms = h.1.1.1.1.0
every_name P h PolicyName.active_operation_timeout_ms = h.1.1.1.1.1.0
every_name P h PolicyName.attempt_timeout_ms = h.1.1.1.1.1.1.0
every_name P h PolicyName.retry_backoff_base_ms = h.1.1.1.1.1.1.1.0
every_name P h PolicyName.retry_backoff_max_ms = h.1.1.1.1.1.1.1.1.0
every_name P h PolicyName.hard_termination_grace_ms = h.1.1.1.1.1.1.1.1.1.0
every_name P h PolicyName.preparation_timeout_ms = h.1.1.1.1.1.1.1.1.1.1.0
every_name P h PolicyName.cleanup_timeout_ms = h.1.1.1.1.1.1.1.1.1.1.1.0
every_name P h PolicyName.event_sink_timeout_ms = h.1.1.1.1.1.1.1.1.1.1.1.1.0
every_name P h PolicyName.worker_startup_timeout_ms = h.1.1.1.1.1.1.1.1.1.1.1.1.1.0
every_name P h PolicyName.worker_heartbeat_timeout_ms = h.1.1.1.1.1.1.1.1.1.1.1.1.1.1.0
every_name P h PolicyName.worker_idle_timeout_ms = h.1.1.1.1.1.1.1.1.1.1.1.1.1.1.1.0
every_name P h PolicyName.circuit_breaker_threshold = h.1.1.1.1.1.1.1.1.1.1.1.1.1.1.1.1.0
every_name P h PolicyName.circuit_breaker_window_ms = h.1.1.1.1.1.1.1.1.1.1.1.1.1.1.1.1.1.0
every_name P h PolicyName.circuit_breaker_cooldown_ms = h.1.1.1.1.1.1.1.1.1.1.1.1.1.1.1.1.1.1.0
every_name P h PolicyName.preparation_concurrency = h.1.1.1.1.1.1.1.1.1.1.1.1.1.1.1.1.1.1.1.0
every_name P h PolicyName.cleanup_concurrency = h.1.1.1.1.1.1.1.1.1.1.1.1.1.1.1.1.1.1.1.1.0
every_name P h PolicyName.underutilization_warning_ms =
    h.1.1.1.1.1.1.1.1.1.1.1.1.1.1.1.1.1.1.1.1.1.0

-- A numeric field is the number given, or the default where none is given.
abbrev pub IsTaken : Option JsValue → ℕ → ℕ → Type 0
IsTaken none default n = n ≡ default
IsTaken (some given) default n = given ≡ number (finite (natural n))

number_of-positive : (v : JsValue) → 0 < number_of v → v ≡ number (finite (natural (number_of v)))
number_of-positive (number (finite (natural n))) h = refl
number_of-positive v h = absurd (omega arith)

merged_value-IsTaken :
    (overrides : PolicyOverrides) (name : PolicyName)
    → 0 < merged_value overrides name
    → IsTaken (overrides.values name) (default_value name) (merged_value overrides name)
merged_value-IsTaken overrides name h = taken (overrides.values name) h
  where
    taken :
        (given : Option JsValue)
        → 0 < number_of (or_default given (number (finite (natural (default_value name)))))
        → IsTaken given
            (default_value name)
            (number_of (or_default given (number (finite (natural (default_value name))))))
    taken none positive = refl
    taken (some v) positive = number_of-positive v positive

abbrev pub IsTakenRatio : Option Ratio → Ratio → Type 0
IsTakenRatio none ratio = ratio ≡ fraction 1 4
IsTakenRatio (some given) ratio = ratio ≡ given

merged_ratio-IsTaken :
    (overrides : PolicyOverrides)
    → IsTakenRatio overrides.retry_jitter_ratio (merged_ratio overrides)
merged_ratio-IsTaken overrides = taken overrides.retry_jitter_ratio
  where
    taken : (given : Option Ratio) → IsTakenRatio given (or_default given (fraction 1 4))
    taken none = refl
    taken (some given) = refl

abbrev pub mode_text : AutomaticRetryMode → String
mode_text never = "never"
mode_text safe = "safe"

abbrev pub IsTakenMode : Option JsValue → AutomaticRetryMode → Type 0
IsTakenMode none mode = mode ≡ safe
IsTakenMode (some given) mode = given ≡ text (mode_text mode)

mode_of-IsTaken :
    (given : Option JsValue) (mode : AutomaticRetryMode)
    → mode_of given ≡ ok mode
    → IsTakenMode given mode
mode_of-IsTaken none mode h = cc
mode_of-IsTaken (some (text t)) mode h = elim (Bool-cases (str_eq t "never")) [
  | inl first ↦
      let same : never ≡ mode = cc (rw first at h) in
      ap text ((eq_iff t "never").0 first) ∙ ap (λ m. text (mode_text m)) same
  | inr other ↦ elim (Bool-cases (str_eq t "safe")) [
    | inl second ↦
        let same : safe ≡ mode = cc (rw (other, second) at h) in
        ap text ((eq_iff t "safe").0 second) ∙ ap (λ m. text (mode_text m)) same
    | inr neither ↦ cc (rw (other, neither) at h)
  ]
]
mode_of-IsTaken (some v) mode h = cc

abbrev made_policy : PolicyOverrides → AutomaticRetryMode → WorkflowReliabilityPolicy
made_policy overrides mode = record {
  value = merged_value overrides;
  retry_jitter_ratio = merged_ratio overrides;
  automatic_retry = mode;
}

-- What the last test leaves.
with_mode-ok :
    (overrides : PolicyOverrides) (policy : WorkflowReliabilityPolicy) (mode : AutomaticRetryMode)
    → with_mode overrides mode ≡ ok policy
    → (merged_value overrides retry_backoff_base_ms ≤ merged_value overrides retry_backoff_max_ms)
      × (made_policy overrides mode ≡ policy)
with_mode-ok overrides policy mode h =
    let slow =
      ltb (merged_value overrides retry_backoff_max_ms)
        (merged_value overrides retry_backoff_base_ms) in
    let (ordered, done) = >>-ok (throw_if slow backoff_order) (ok (made_policy overrides mode)) h in
    let order = throw_if-ok slow backoff_order tt ordered in (ground arith, cc)

-- A policy that was normalized has in each numeric field the number given, or the default where none is
-- given, and that is a positive safe integer; it has the jitter and the mode given, or the defaults, the
-- jitter is between zero and one, and the first backoff is at most the largest.
pub normalize_reliability_policy-IsPolicy :
    (overrides : PolicyOverrides) (policy : WorkflowReliabilityPolicy) (name : PolicyName)
    → normalize_reliability_policy overrides ≡ ok policy
    → IsTaken (overrides.values name) (default_value name) (policy.value name)
      × IsPositiveSafe (policy.value name)
      × IsTakenRatio overrides.retry_jitter_ratio policy.retry_jitter_ratio
      × IsRatio policy.retry_jitter_ratio
      × IsTakenMode overrides.automatic_retry policy.automatic_retry
      × (policy.value retry_backoff_base_ms ≤ policy.value retry_backoff_max_ms)
unfolding normalize_reliability_policy
normalize_reliability_policy-IsPolicy overrides policy name h =
    let names = check_names overrides policy_names in
    let jitter = throw_if (is_bad_ratio (merged_ratio overrides)) bad_jitter in
    let rest = mode_of overrides.automatic_retry >>= with_mode overrides in
    let (before, end) = >>-ok (names >> jitter) rest h in
    let (named, ratio) = >>-ok names jitter before in
    let (mode, known, last) =
      >>=-eq-ok (mode_of overrides.automatic_retry) (with_mode overrides) end in
    let (slow, made) = with_mode-ok overrides policy mode last in
    let positive : IsPositiveSafe (merged_value overrides name) =
      every_name (λ n. IsPositiveSafe (merged_value overrides n))
        (check_names-IsPositiveSafe overrides policy_names named) name in
    let value : merged_value overrides ≡ policy.value = ap (λ p. p.value) made in
    let spread : merged_ratio overrides ≡ policy.retry_jitter_ratio =
      ap (λ p. p.retry_jitter_ratio) made in
    let chosen : mode ≡ policy.automatic_retry = ap (λ p. p.automatic_retry) made in
    (
      subst (λ f. IsTaken (overrides.values name) (default_value name) (f name)) value
          (merged_value-IsTaken overrides name positive.0),
      subst (λ f. IsPositiveSafe (f name)) value positive,
      subst (IsTakenRatio overrides.retry_jitter_ratio) spread (merged_ratio-IsTaken overrides),
      subst IsRatio spread (
          ratio-IsRatio (merged_ratio overrides)
            (throw_if-ok (is_bad_ratio (merged_ratio overrides)) bad_jitter tt ratio)),
      subst (IsTakenMode overrides.automatic_retry) chosen
          (mode_of-IsTaken overrides.automatic_retry mode known),
      subst (λ f. f retry_backoff_base_ms ≤ f retry_backoff_max_ms) value slow,
    )
