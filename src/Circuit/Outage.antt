-- ===== src/Circuit/Outage.antt =====
-- src/executionReliability.ts: a closed circuit of `ProviderCircuitBreaker` counts few failures.
use workflow_mcp.Common.{
  ℕ, ◌-◌, ◌≤◌, ◌<◌, ◌≡◌, ◌∙◌, refl, subst, inl, inr, Bool, true, false, ◌||◌, ◌&&◌, not, List, [],
  ◌∷◌, ◌++◌, arith, Bool-cases, Option-cases, if◌then◌else◌, ◌==◌, leb, get_elem?, length, All,
}
use workflow_mcp.Circuit.{
  Circuit, Lease, Outcome, new_circuit, shift_old, prune, snapshot, enter, enter_pruned, probing,
  record_failure, settle_circuit, settle, provider_responsive, Gate, GateCall, after_entry,
  on_lease, gate_call, gate_calls,
}
use workflow_mcp.Circuit.Fence.{new_gate}

-- The breaker admits calls without a probe only while it counts fewer failures than its threshold.
pub record IsCalm (c : Circuit) : Type 0 where
  pub threshold : 0 < c.threshold
  pub cooldown : 0 < c.cooldown_ms
  pub few : c.open_until ≡ 0 → length c.failures < c.threshold

-- The clock of a call that settles a lease is past the epoch.
pub data IsTimed : GateCall → Type 0 where
  enters : (aborted : Bool) (now : ℕ) → IsTimed (GateCall.enters aborted now)
  reads : (now : ℕ) → IsTimed (GateCall.reads now)
  starts : (i : ℕ) → IsTimed (GateCall.starts i)
  responds : (i : ℕ) → IsTimed (GateCall.responds i)
  settles :
      (i : ℕ) (outcome : Outcome) (now : ℕ) → 0 < now → IsTimed (GateCall.settles i outcome now)

length-shift_old :
    (oldest : ℕ) (failures : List ℕ) → length (shift_old oldest failures) ≤ length failures
unfolding shift_old
length-shift_old oldest [] = omega arith
length-shift_old oldest (f ∷ fs) = ground (arith, length-shift_old oldest fs)

prune-IsCalm : (now : ℕ) (c : Circuit) → IsCalm c → IsCalm (prune now c)
unfolding prune
prune-IsCalm now c k = record {
  threshold = k.threshold;
  cooldown = k.cooldown;
  few = λ p. omega (arith, k.few p, length-shift_old (now - c.window_ms) c.failures);
}

settle_circuit-IsCalm :
    (outcome : Outcome) (now : ℕ) (l : Lease) (c : Circuit)
    → 0 < now
    → IsCalm c
    → IsCalm (settle_circuit outcome now l c)
unfolding settle_circuit prune
settle_circuit-IsCalm Outcome.success now l c t k = record {
  threshold = k.threshold;
  cooldown = k.cooldown;
  few = λ p. k.threshold;
}
settle_circuit-IsCalm Outcome.failure now l c t k =
    counted (prune now (record c { failures = c.failures ++ now ∷ [] })) k.threshold k.cooldown
  where
    counted : (d : Circuit) → 0 < d.threshold → 0 < d.cooldown_ms → IsCalm (record_failure l now d)
    counted d h w = elim (Bool-cases (probing l || leb d.threshold (length d.failures))) [
      | inl p ↦
          rw (p, record_failure)
            (record { threshold = h; cooldown = w; few = λ q. absurd (omega (arith, q, t)) })
      | inr p ↦
          rw (p, record_failure) (record { threshold = h; cooldown = w; few = λ q. ground arith })
    ]
settle_circuit-IsCalm Outcome.neutral now l c t k = elim (Bool-cases (probing l)) [
  | inl p ↦ rw p (record {
    threshold = k.threshold;
    cooldown = k.cooldown;
    few = λ q. absurd (omega (arith, q, t));
  })
  | inr p ↦ rw p k
]

settle-IsCalm :
    (outcome : Outcome) (now : ℕ) (l : Lease) (c : Circuit)
    → 0 < now
    → IsCalm c
    → IsCalm (settle outcome now l c).1
unfolding settle
settle-IsCalm outcome now l c t k = chosen l.settled
  where
    chosen :
        (b : Bool)
        → IsCalm
            (if◌then◌else◌ {A = Lease × Circuit} b
              (l, c)
              (record l { settled = true }, settle_circuit outcome now l c)).1
    chosen true = k
    chosen false = settle_circuit-IsCalm outcome now l c t k

provider_responsive-IsCalm :
    (l : Lease) (c : Circuit) → IsCalm c → IsCalm (provider_responsive l c).1
unfolding provider_responsive
provider_responsive-IsCalm l c k =
    elim (Bool-cases (l.settled || not l.start_committed || not l.probe || l.probe_recovered)) [
      | inl p ↦ rw p k
      | inr p ↦
          rw p (record { threshold = k.threshold; cooldown = k.cooldown; few = λ q. k.threshold })
    ]

on_lease-IsCalm :
    (g : Gate) (i : ℕ) (method : Lease → Lease × Circuit)
    → ((l : Lease) → IsCalm (method l).1)
    → IsCalm g.circuit
    → IsCalm (on_lease g i method).circuit
on_lease-IsCalm g i method h k = elim (Option-cases (get_elem? g.leases i)) [
  | inl gone ↦ rw (gone, on_lease) k
  | inr (l, found) ↦ rw (found, on_lease) (h l)
]

enter-IsCalm :
    (aborted : Bool) (now : ℕ) (g : Gate)
    → IsCalm g.circuit
    → IsCalm (after_entry g (enter aborted now g.circuit)).circuit
unfolding enter
enter-IsCalm true now g k = k
enter-IsCalm false now g k = pruned (prune now g.circuit) (prune-IsCalm now g.circuit k)
  where
    pruned : (c : Circuit) → IsCalm c → IsCalm (after_entry g (enter_pruned now c)).circuit
    pruned c h = elim (Bool-cases (c.open_until == 0)) [
      | inl shut ↦ rw (shut, enter_pruned) h
      | inr tripped ↦ elim (Bool-cases (leb c.open_until now && not c.half_open_probe)) [
        | inl due ↦
            rw (tripped, due, enter_pruned)
              (record { threshold = h.threshold; cooldown = h.cooldown; few = h.few })
        | inr wait ↦ rw (tripped, wait, enter_pruned) h
      ]
    ]

gate_call-IsCalm :
    (g : Gate) (call : GateCall)
    → IsTimed call
    → IsCalm g.circuit
    → IsCalm (gate_call g call).circuit
unfolding gate_call snapshot
gate_call-IsCalm g (GateCall.enters aborted now) t k = enter-IsCalm aborted now g k
gate_call-IsCalm g (GateCall.reads now) t k = prune-IsCalm now g.circuit k
gate_call-IsCalm g (GateCall.starts i) t k = on_lease-IsCalm g i _ (λ l. k) k
gate_call-IsCalm g (GateCall.responds i) t k =
    on_lease-IsCalm g i _ (λ l. provider_responsive-IsCalm l g.circuit k) k
gate_call-IsCalm g (GateCall.settles i outcome now) (settles _ _ _ later) k =
    on_lease-IsCalm g i _ (λ l. settle-IsCalm outcome now l g.circuit later k) k

gate_calls-IsCalm :
    (g : Gate) (calls : List GateCall)
    → All IsTimed calls
    → IsCalm g.circuit
    → IsCalm (gate_calls g calls).circuit
unfolding gate_calls
gate_calls-IsCalm g [] t k = k
gate_calls-IsCalm g (call ∷ calls) t k =
    gate_calls-IsCalm (gate_call g call) calls t.1 (gate_call-IsCalm g call t.0 k)

settle-threshold :
    (outcome : Outcome) (now : ℕ) (l : Lease) (c : Circuit)
    → (settle outcome now l c).1.threshold ≡ c.threshold
unfolding settle settle_circuit prune
settle-threshold Outcome.success now l c = ground arith
settle-threshold Outcome.failure now l c = ground arith
settle-threshold Outcome.neutral now l c = ground arith

-- No call changes the threshold.
gate_call-threshold :
    (g : Gate) (call : GateCall) → (gate_call g call).circuit.threshold ≡ g.circuit.threshold
unfolding gate_call enter prune snapshot provider_responsive
gate_call-threshold g (GateCall.enters aborted now) = ground arith
gate_call-threshold g (GateCall.reads now) = refl
gate_call-threshold g (GateCall.starts i) = ground arith
gate_call-threshold g (GateCall.responds i) = ground arith
gate_call-threshold g (GateCall.settles i outcome now) =
    ground (arith, settle-threshold outcome now)

gate_calls-threshold :
    (g : Gate) (calls : List GateCall)
    → (gate_calls g calls).circuit.threshold ≡ g.circuit.threshold
unfolding gate_calls
gate_calls-threshold g [] = refl
gate_calls-threshold g (call ∷ calls) =
    gate_calls-threshold (gate_call g call) calls ∙ gate_call-threshold g call

-- With a positive threshold and cooldown, and a clock past the epoch whenever a lease is settled,
-- any calls on a new circuit breaker leave fewer failures counted than the threshold while the
-- circuit is closed.
pub gate_calls-few :
    (threshold window_ms cooldown_ms : ℕ) (calls : List GateCall)
    → 0 < threshold
    → 0 < cooldown_ms
    → All IsTimed calls
    → (gate_calls (new_gate threshold window_ms cooldown_ms) calls).circuit.open_until ≡ 0
    → length (gate_calls (new_gate threshold window_ms cooldown_ms) calls).circuit.failures
      < threshold
unfolding new_circuit
gate_calls-few threshold window_ms cooldown_ms calls h w t shut =
    let g = new_gate threshold window_ms cooldown_ms in
    let calm = gate_calls-IsCalm g calls t (record { threshold = h; cooldown = w; few = λ q. h }) in
    subst (λ n. length (gate_calls g calls).circuit.failures < n) (gate_calls-threshold g calls)
      (calm.few shut)
