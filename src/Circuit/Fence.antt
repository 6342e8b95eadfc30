-- ===== src/Circuit/Fence.antt =====
-- The generations of `ProviderCircuitBreaker` in src/executionReliability.ts: which leases may start.
use workflow_mcp.Common.{
  ℕ, ◌≡◌, ◌≢◌, ◌↔◌, refl, sym, inl, inr, Bool, true, false, not, ◌&&◌, ◌||◌, some, List, [], ◌∷◌,
  ◌++◌, arith, if◌then◌else◌, Bool-cases, Option-cases, ◌==◌, leb, get_elem?, set, length, All-map,
  All-append, All-get_elem?, Pairwise-append_one, Along-refl, Along-set,
}
use workflow_mcp.Circuit.{
  Circuit, Lease, Outcome, new_circuit, prune, snapshot, lease, enter, enter_pruned, start_allowed,
  probing, settle_circuit, settle, provider_responsive, Gate, GateCall, after_entry, on_lease,
  gate_call, gate_calls,
}
use workflow_mcp.Circuit.Moves.{
  Fits, OneProbe, Fenced, Moves, stays, bumps, SameLease, SameLease-refl, Moves-Fenced,
}

prune-Moves : (now : ℕ) (c : Circuit) → Moves c (prune now c)
unfolding prune
prune-Moves now c = stays refl refl refl

-- The failures that the circuit knows of, with one more.
abbrev failed : ℕ → Circuit → List ℕ
failed now c = (prune now (record c { failures = c.failures ++ now ∷ [] })).failures

-- Settling a lease moves on a generation, unless it leaves the state of the circuit alone.
settle_circuit-Moves :
    (outcome : Outcome) (now : ℕ) (l : Lease) (c : Circuit)
    → (c.half_open_probe ≡ true → c.open_until ≢ 0)
    → Moves c (settle_circuit outcome now l c)
unfolding settle_circuit prune
settle_circuit-Moves Outcome.success now l c f =
    elim (Bool-cases (probing l || not (c.open_until == 0))) [
      | inl changed ↦ bumps (rw changed) refl
      | inr same ↦
          let shut : c.open_until ≡ 0 = ground arith in stays (rw same) (idle shut) (sym shut)
    ]
  where
    idle : c.open_until ≡ 0 → false ≡ c.half_open_probe
    idle shut = elim (Bool-cases c.half_open_probe) [ inl p ↦ absurd (f p shut) | inr p ↦ sym p ]
settle_circuit-Moves Outcome.failure now l c f =
    elim (Bool-cases (probing l || leb c.threshold (length (failed now c)))) [
      | inl p ↦ rw p (bumps refl refl)
      | inr p ↦ rw p (stays refl refl refl)
    ]
settle_circuit-Moves Outcome.neutral now l c f = elim (Bool-cases (probing l)) [
  | inl p ↦ rw p (bumps refl refl)
  | inr p ↦ rw p (stays refl refl refl)
]

settle-Same :
    (outcome : Outcome) (now : ℕ) (l : Lease) (c : Circuit) → SameLease l (settle outcome now l c).0
unfolding settle
settle-Same outcome now l c = record { probe = ground arith; generation = ground arith }

settle-Moves :
    (outcome : Outcome) (now : ℕ) (l : Lease) (c : Circuit)
    → (c.half_open_probe ≡ true → c.open_until ≢ 0)
    → Moves c (settle outcome now l c).1
unfolding settle
settle-Moves outcome now l c f = chosen l.settled
  where
    chosen :
        (b : Bool)
        → Moves c
            (if◌then◌else◌ {A = Lease × Circuit} b
              (l, c)
              (record l { settled = true }, settle_circuit outcome now l c)).1
    chosen true = stays refl refl refl
    chosen false = settle_circuit-Moves outcome now l c f

provider_responsive-Same : (l : Lease) (c : Circuit) → SameLease l (provider_responsive l c).0
unfolding provider_responsive
provider_responsive-Same l c = record { probe = ground arith; generation = ground arith }

provider_responsive-Moves : (l : Lease) (c : Circuit) → Moves c (provider_responsive l c).1
unfolding provider_responsive
provider_responsive-Moves l c =
    elim (Bool-cases (l.settled || not l.start_committed || not l.probe || l.probe_recovered)) [
      | inl p ↦ rw p (stays refl refl refl)
      | inr p ↦ rw p (bumps refl refl)
    ]

start_allowed-Same : (c : Circuit) (l : Lease) → SameLease l (start_allowed c l).1
unfolding start_allowed
start_allowed-Same c l = record { probe = ground arith; generation = ground arith }

on_lease-Fenced :
    (g : Gate) (i : ℕ) (method : Lease → Lease × Circuit)
    → ((l : Lease) → SameLease l (method l).0)
    → ((l : Lease) → Moves g.circuit (method l).1)
    → Fenced g
    → Fenced (on_lease g i method)
on_lease-Fenced g i method same moves f = elim (Option-cases (get_elem? g.leases i)) [
  | inl gone ↦ rw (gone, on_lease) f
  | inr (l, found) ↦
      rw (found, on_lease)
        (Moves-Fenced g (method l).1 (set g.leases i (method l).0) (moves l)
          (Along-set SameLease SameLease-refl g.leases i l (method l).0 found (same l)) f)
]

-- A circuit that admits calls without a probe has no probe out.
admit_ordinary-Fenced :
    (g : Gate) (c : Circuit)
    → c.open_until ≡ 0
    → Fenced (record g { circuit = c })
    → Fenced (record { circuit = c; leases = g.leases ++ lease false c ∷ [] })
unfolding lease
admit_ordinary-Fenced g c shut f = record {
  probe_open = f.probe_open;
  leases =
      All-append (Fits c) g.leases _ f.leases
        (record { bound = omega arith; probe = λ p q. cc; ordinary = λ p q. shut }, tt);
  single =
      Pairwise-append_one (OneProbe c) g.leases _ f.single
        (All-map (λ x b p q p' q'. cc) g.leases f.leases);
}

-- The probe of an open circuit is the only lease of its generation.
admit_probe-Fenced :
    (g : Gate) (c : Circuit)
    → c.open_until ≢ 0
    → c.half_open_probe ≡ false
    → Fenced (record g { circuit = c })
    → Fenced (record {
      circuit = record c { half_open_probe = true };
      leases = g.leases ++ lease true c ∷ [];
    })
unfolding lease
admit_probe-Fenced g c tripped idle f = record {
  probe_open = λ p. tripped;
  leases =
      All-append (Fits (record c { half_open_probe = true })) g.leases _
        (All-map (λ x b. record { bound = b.bound; probe = λ p q. refl; ordinary = b.ordinary })
          g.leases f.leases)
        (record { bound = omega arith; probe = λ p q. refl; ordinary = λ p q. cc }, tt);
  single =
      Pairwise-append_one _ g.leases _ f.single
        (All-map (λ x b p q p' q'. cc (b.probe q p, idle)) g.leases f.leases);
}

enter-Fenced :
    (aborted : Bool) (now : ℕ) (g : Gate)
    → Fenced g
    → Fenced (after_entry g (enter aborted now g.circuit))
unfolding enter
enter-Fenced true now g f = f
enter-Fenced false now g f = pruned (prune now g.circuit) (
    Moves-Fenced g _ g.leases (prune-Moves now g.circuit)
      (Along-refl SameLease SameLease-refl g.leases) f)
  where
    pruned :
        (c : Circuit)
        → Fenced (record g { circuit = c })
        → Fenced (after_entry g (enter_pruned now c))
    pruned c k = elim (Bool-cases (c.open_until == 0)) [
      | inl shut ↦ rw shut (admit_ordinary-Fenced g c (ground arith) k)
      | inr tripped ↦ elim (Bool-cases (leb c.open_until now && not c.half_open_probe)) [
        | inl due ↦ rw (tripped, due) (admit_probe-Fenced g c (ground arith) (ground arith) k)
        | inr wait ↦ rw (tripped, wait) k
      ]
    ]

gate_call-Fenced : (g : Gate) (call : GateCall) → Fenced g → Fenced (gate_call g call)
unfolding gate_call snapshot
gate_call-Fenced g (GateCall.enters aborted now) f = enter-Fenced aborted now g f
gate_call-Fenced g (GateCall.reads now) f =
    Moves-Fenced g _ g.leases (prune-Moves now g.circuit)
      (Along-refl SameLease SameLease-refl g.leases) f
gate_call-Fenced g (GateCall.starts i) f =
    on_lease-Fenced g i _ (start_allowed-Same g.circuit) (λ l. stays refl refl refl) f
gate_call-Fenced g (GateCall.responds i) f =
    on_lease-Fenced g i _ (λ l. provider_responsive-Same l g.circuit)
      (λ l. provider_responsive-Moves l g.circuit) f
gate_call-Fenced g (GateCall.settles i outcome now) f =
    on_lease-Fenced g i _ (λ l. settle-Same outcome now l g.circuit)
      (λ l. settle-Moves outcome now l g.circuit f.probe_open) f

gate_calls-Fenced : (g : Gate) (calls : List GateCall) → Fenced g → Fenced (gate_calls g calls)
unfolding gate_calls
gate_calls-Fenced g [] f = f
gate_calls-Fenced g (call ∷ calls) f =
    gate_calls-Fenced (gate_call g call) calls (gate_call-Fenced g call f)

abbrev pub new_gate : ℕ → ℕ → ℕ → Gate
new_gate threshold window_ms cooldown_ms = record {
  circuit = new_circuit threshold window_ms cooldown_ms;
  leases = [];
}

-- After any calls on a new circuit breaker (`Fenced`): a half-open circuit has a time until which it is
-- open; the generation of a lease is at most that of the circuit; where the two are equal, the lease is
-- a probe only if the circuit is half-open, and is none only if the circuit is closed; and no two probes
-- have the generation of the circuit.
pub gate_calls-new_gate :
    (threshold window_ms cooldown_ms : ℕ) (calls : List GateCall)
    → Fenced (gate_calls (new_gate threshold window_ms cooldown_ms) calls)
unfolding new_circuit
gate_calls-new_gate threshold window_ms cooldown_ms calls =
    gate_calls-Fenced (new_gate threshold window_ms cooldown_ms) calls
      (record { probe_open = λ p. cc; leases = tt; single = tt })

-- After any calls on a new circuit breaker, a lease at any index that is neither settled nor started is
-- allowed to start exactly if its generation is that of the circuit.
pub start_allowed_iff :
    (threshold window_ms cooldown_ms : ℕ) (calls : List GateCall) (i : ℕ) (l : Lease)
    → get_elem? (gate_calls (new_gate threshold window_ms cooldown_ms) calls).leases i ≡ some l
    → l.settled ≡ false
    → l.start_committed ≡ false
    → ((start_allowed (gate_calls (new_gate threshold window_ms cooldown_ms) calls).circuit l).0
        ≡ true)
      ↔ (l.generation
          ≡ (gate_calls (new_gate threshold window_ms cooldown_ms) calls).circuit.generation)
unfolding start_allowed
start_allowed_iff threshold window_ms cooldown_ms calls i l found live fresh =
    let g = gate_calls (new_gate threshold window_ms cooldown_ms) calls in
    let fenced = gate_calls-new_gate threshold window_ms cooldown_ms calls in
    fence g.circuit fenced.probe_open
      (All-get_elem? (Fits g.circuit) g.leases i fenced.leases found)
  where
    fence :
        (c : Circuit)
        → (c.half_open_probe ≡ true → c.open_until ≢ 0)
        → Fits c l
        → ((start_allowed c l).0 ≡ true) ↔ (l.generation ≡ c.generation)
    fence c tripped fits = elim (Bool-cases l.probe) [
      | inl p ↦ (
        λ h. ground (arith, live, fresh, p),
        λ e. ground (arith, live, fresh, p, fits.probe e p, tripped (fits.probe e p)),
      )
      | inr p ↦ (
        λ h. ground (arith, live, fresh, p),
        λ e. ground (arith, live, fresh, p, fits.ordinary e p),
      )
    ]
