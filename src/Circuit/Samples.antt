-- ===== src/Circuit/Samples.antt =====
-- An outage of a provider, in the model of `ProviderCircuitBreaker` of src/executionReliability.ts.
use workflow_mcp.Common.{
  ◌<◌, ◌≡◌, ◌↔◌, ◌&&◌, not, refl, true, false, List, [], ◌∷◌, map, length, arith,
}
use workflow_mcp.Circuit.{
  new_circuit, Lease, CircuitState, Outcome, snapshot, start_allowed, GateCall, gate_calls,
}
use workflow_mcp.Circuit.Moves.{Fenced}
use workflow_mcp.Circuit.Fence.{new_gate, gate_calls-new_gate, start_allowed_iff}
use workflow_mcp.Circuit.Outage.{IsTimed, gate_calls-few}

-- Three calls reserve, two of them fail, and the cooldown passes before a probe is let in.
abbrev outage : List GateCall
outage =
    GateCall.enters false 1000
    ∷ GateCall.enters false 1000
    ∷ GateCall.enters false 1000
    ∷ GateCall.starts 0
    ∷ GateCall.starts 1
    ∷ GateCall.settles 0 Outcome.failure 1100
    ∷ GateCall.settles 1 Outcome.failure 1200
    ∷ GateCall.enters false 1300
    ∷ GateCall.enters false 2300
    ∷ []

-- The probe starts and answers, and the next call is let in without one.
abbrev recovery : List GateCall
recovery =
    GateCall.enters false 1000
    ∷ GateCall.settles 0 Outcome.failure 1100
    ∷ GateCall.enters false 2300
    ∷ GateCall.starts 1
    ∷ GateCall.responds 1
    ∷ GateCall.enters false 2400
    ∷ []

half_open :
    (snapshot 2300 (gate_calls (new_gate 2 60000 1000) outage).circuit).0.state
    ≡ CircuitState.half_open
unfolding gate_calls new_circuit
half_open = refl

recovered :
    map (λ l. l.probe) (gate_calls (new_gate 1 60000 1000) recovery).leases
    ≡ false ∷ true ∷ false ∷ []
unfolding gate_calls new_circuit
recovered = refl

-- A call from before the outage fails while the probe runs, and a second probe starts beside it.
abbrev relapse : List GateCall
relapse =
    GateCall.enters false 1000
    ∷ GateCall.enters false 1000
    ∷ GateCall.starts 0
    ∷ GateCall.starts 1
    ∷ GateCall.settles 0 Outcome.failure 1100
    ∷ GateCall.enters false 2300
    ∷ GateCall.starts 2
    ∷ GateCall.settles 1 Outcome.failure 2400
    ∷ GateCall.enters false 3500
    ∷ GateCall.starts 3
    ∷ []

two_probes :
    map
      (λ l. l.probe && l.start_committed && not l.settled)
      (gate_calls (new_gate 1 60000 1000) relapse).leases
    ≡ false ∷ false ∷ true ∷ true ∷ []
unfolding gate_calls new_circuit
two_probes = refl

-- The third reservation of the outage, which did not start before the circuit opened.
abbrev stale : Lease
stale = record {
  probe = false;
  generation = 0;
  settled = false;
  start_committed = false;
  probe_recovered = false;
}

gate_calls-new_gate_example : Fenced (gate_calls (new_gate 2 60000 1000) outage)
gate_calls-new_gate_example = gate_calls-new_gate 2 60000 1000 outage

start_allowed_iff_example :
    ((start_allowed (gate_calls (new_gate 2 60000 1000) outage).circuit stale).0 ≡ true)
    ↔ (stale.generation ≡ (gate_calls (new_gate 2 60000 1000) outage).circuit.generation)
unfolding gate_calls new_circuit
start_allowed_iff_example = start_allowed_iff 2 60000 1000 outage 2 stale refl refl refl

gate_calls-few_example : length (gate_calls (new_gate 1 60000 1000) recovery).circuit.failures < 1
unfolding gate_calls new_circuit
gate_calls-few_example =
    gate_calls-few 1 60000 1000 recovery (omega arith) (omega arith)
      (
        IsTimed.enters _ _,
        (
          IsTimed.settles _ _ _ (omega arith),
          (IsTimed.enters _ _, (IsTimed.starts _, (IsTimed.responds _, (IsTimed.enters _ _, tt)))),
        ),
      )
      refl
