-- ===== src/Circuit.antt =====
-- src/executionReliability.ts: `ProviderCircuitBreaker`. Times are the milliseconds of `Date.now()`,
-- an argument of each operation that reads the clock. The state that the closures of a lease share
-- is the record `Lease`.
pub mod Moves
pub mod Fence
pub mod Outage
mod Samples
use workflow_mcp.Common.{
  ℕ, ◌+◌, ◌-◌, Bool, true, false, not, ◌&&◌, ◌||◌, Option, none, some, List, [], ◌∷◌, ◌++◌, length,
  get_elem?, set, ltb, leb, ◌==◌, max, if◌then◌else◌,
}

pub record Circuit : Type 0 where
  pub threshold : ℕ
  pub window_ms : ℕ
  pub cooldown_ms : ℕ
  pub failures : List ℕ
  pub open_until : ℕ
  pub half_open_probe : Bool
  pub generation : ℕ

pub record Lease : Type 0 where
  pub probe : Bool
  pub generation : ℕ
  pub settled : Bool
  pub start_committed : Bool
  pub probe_recovered : Bool

pub data CircuitState : Type 0 where
  closed opened half_open : CircuitState

pub record ProviderCircuitSnapshot : Type 0 where
  pub state : CircuitState
  pub recent_failures : ℕ
  pub retry_at : Option ℕ

unfoldable pub new_circuit : ℕ → ℕ → ℕ → Circuit
new_circuit threshold window_ms cooldown_ms = record {
  threshold = threshold;
  window_ms = window_ms;
  cooldown_ms = cooldown_ms;
  failures = [];
  open_until = 0;
  half_open_probe = false;
  generation = 0;
}

-- `while (failures.length > 0 && failures[0] < oldest) failures.shift()`.
unfoldable pub shift_old : ℕ → List ℕ → List ℕ
shift_old oldest [] = []
shift_old oldest (failure ∷ failures) =
    if ltb failure oldest then shift_old oldest failures else failure ∷ failures

-- No failure is older than a negative time, as none is older than 0.
unfoldable pub prune : ℕ → Circuit → Circuit
unfolding shift_old
prune now c = record c { failures = shift_old (now - c.window_ms) c.failures }

unfoldable pub snapshot : ℕ → Circuit → ProviderCircuitSnapshot × Circuit
unfolding prune
snapshot now circuit =
    let c = prune now circuit in
    (
      record {
        state =
            if c.open_until == 0
            then CircuitState.closed
            else if leb c.open_until now && c.half_open_probe
            then CircuitState.half_open
            else CircuitState.opened;
        recent_failures = length c.failures;
        retry_at = if c.open_until == 0 then none else some c.open_until;
      },
      c,
    )

unfoldable pub lease : Bool → Circuit → Lease
lease probe c = record {
  probe = probe;
  generation = c.generation;
  settled = false;
  start_committed = false;
  probe_recovered = false;
}

-- One round of the loop of `enter`: it throws, returns a lease, or waits for some milliseconds.
pub data Entry : Type 0 where
  thrown : Entry
  entered : Lease → Circuit → Entry
  waiting : ℕ → Circuit → Entry

abbrev pub enter_pruned : ℕ → Circuit → Entry
enter_pruned now c =
    if c.open_until == 0
    then Entry.entered (lease false c) c
    else if leb c.open_until now && not c.half_open_probe
    then Entry.entered (lease true c) (record c { half_open_probe = true })
    else Entry.waiting (if c.half_open_probe then 100 else max 1 (c.open_until - now)) c

unfoldable pub enter : Bool → ℕ → Circuit → Entry
unfolding prune lease
enter aborted now c = if aborted then Entry.thrown else enter_pruned now (prune now c)

-- The circuit admits the start of a lease that has not started yet.
abbrev pub admits : Circuit → Lease → Bool
admits c l =
    (l.generation == c.generation)
    && (if l.probe then c.half_open_probe && not (c.open_until == 0) else c.open_until == 0)

unfoldable pub start_allowed : Circuit → Lease → Bool × Lease
start_allowed c l =
    if l.settled
    then (false, l)
    else if l.start_committed
    then (true, l)
    else (admits c l, record l { start_committed = admits c l })

pub data Outcome : Type 0 where
  success failure neutral : Outcome

-- A lease whose probe has not proved the provider responsive.
abbrev pub probing : Lease → Bool
probing l = l.probe && not l.probe_recovered

abbrev pub close_circuit : Bool → Circuit → Circuit
close_circuit changed c = record c {
  failures = [];
  open_until = 0;
  half_open_probe = false;
  generation = if changed then c.generation + 1 else c.generation;
}

abbrev pub open_circuit : ℕ → Circuit → Circuit
open_circuit until c = record c {
  open_until = until;
  half_open_probe = false;
  generation = c.generation + 1;
}

abbrev pub record_failure : Lease → ℕ → Circuit → Circuit
record_failure l now c =
    if probing l || leb c.threshold (length c.failures)
    then open_circuit (now + c.cooldown_ms) c
    else c

unfoldable pub settle_circuit : Outcome → ℕ → Lease → Circuit → Circuit
unfolding prune
settle_circuit Outcome.success now l c = close_circuit (probing l || not (c.open_until == 0)) c
settle_circuit Outcome.failure now l c =
    record_failure l now (prune now (record c { failures = c.failures ++ now ∷ [] }))
settle_circuit Outcome.neutral now l c = if probing l then open_circuit now c else c

unfoldable pub settle : Outcome → ℕ → Lease → Circuit → Lease × Circuit
unfolding settle_circuit
settle outcome now l c =
    if l.settled then (l, c) else (record l { settled = true }, settle_circuit outcome now l c)

unfoldable pub provider_responsive : Lease → Circuit → Lease × Circuit
provider_responsive l c =
    if l.settled || not l.start_committed || not l.probe || l.probe_recovered
    then (l, c)
    else (record l { probe_recovered = true }, close_circuit true c)

-- The circuit and the leases that it has given out, in order.
pub record Gate : Type 0 where
  pub circuit : Circuit
  pub leases : List Lease

-- A call by a client: a round of `enter`, or a method of the lease at an index.
pub data GateCall : Type 0 where
  enters : Bool → ℕ → GateCall
  reads : ℕ → GateCall
  starts : ℕ → GateCall
  responds : ℕ → GateCall
  settles : ℕ → Outcome → ℕ → GateCall

abbrev pub after_entry : Gate → Entry → Gate
after_entry g Entry.thrown = g
after_entry g (Entry.entered l c) = record { circuit = c; leases = g.leases ++ l ∷ [] }
after_entry g (Entry.waiting ms c) = record g { circuit = c }

abbrev pub on_lease : Gate → ℕ → (Lease → Lease × Circuit) → Gate
on_lease g i method = elim (get_elem? g.leases i) [
  | none ↦ g
  | some l ↦ record { circuit = (method l).1; leases = set g.leases i (method l).0 }
]

unfoldable pub gate_call : Gate → GateCall → Gate
unfolding enter snapshot start_allowed settle provider_responsive
gate_call g (GateCall.enters aborted now) = after_entry g (enter aborted now g.circuit)
gate_call g (GateCall.reads now) = record g { circuit = (snapshot now g.circuit).1 }
gate_call g (GateCall.starts i) = on_lease g i (λ l. ((start_allowed g.circuit l).1, g.circuit))
gate_call g (GateCall.responds i) = on_lease g i (λ l. provider_responsive l g.circuit)
gate_call g (GateCall.settles i outcome now) = on_lease g i (λ l. settle outcome now l g.circuit)

unfoldable pub gate_calls : Gate → List GateCall → Gate
unfolding gate_call
gate_calls g [] = g
gate_calls g (call ∷ calls) = gate_calls (gate_call g call) calls
