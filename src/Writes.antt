-- ===== src/Writes.antt =====
-- src/workflowWriteCoordinator.ts: `LeaseScopedWriteCoordinator`. The callback `assertOwned` of an
-- activation stands for a number, and `owned` tells which callbacks return, instead of throwing,
-- when an operation runs. `run` is two operations, as other calls run while its operation does.
pub mod Permits
pub mod Drain
pub mod Quiet
mod Samples
use workflow_mcp.Common.{
  ℕ, ◌+◌, ◌-◌, Bool, true, false, not, ◌||◌, Option, none, some, List, [], ◌∷◌, ◌++◌, filter, any,
  ◌==◌, if◌then◌else◌,
}

pub record Coordinator : Type 0 where
  pub admitting : Bool
  pub ever_activated : Bool
  pub active : ℕ
  pub assert_owned : Option ℕ
  pub drain_waiters : List ℕ

pub data WriteError : Type 0 where
  active_generation : WriteError
  active_writers : WriteError
  lease_required : WriteError
  ownership_released : WriteError
  not_owned : ℕ → WriteError

abbrev pub new_coordinator : Coordinator
new_coordinator = record {
  admitting = false;
  ever_activated = false;
  active = 0;
  assert_owned = none;
  drain_waiters = [];
}

-- What an operation throws, if it does, and the coordinator behind it.
abbrev pub Answer : Type 0
Answer = Option WriteError × Coordinator

unfoldable pub activate : ℕ → Coordinator → Answer
activate callback c =
    if c.admitting || not (c.active == 0)
    then (some active_generation, c)
    else (none, record c { assert_owned = some callback; admitting = true; ever_activated = true })

-- Ownership drift closes the gate before the error is thrown on.
abbrev pub check_callback : (ℕ → Bool) → Option ℕ → Coordinator → Answer
check_callback owned none c = (none, c)
check_callback owned (some callback) c =
    if owned callback
    then (none, c)
    else (some (not_owned callback), record c { admitting = false })

unfoldable pub verify_owned : (ℕ → Bool) → Coordinator → Answer
verify_owned owned c = check_callback owned c.assert_owned c

abbrev pub is_none : Option ℕ → Bool
is_none none = true
is_none (some callback) = false

unfoldable pub assert_writable : (ℕ → Bool) → Coordinator → Answer
unfolding verify_owned
assert_writable owned c =
    if not c.ever_activated
    then (some lease_required, c)
    else if not c.admitting || is_none c.assert_owned
    then (some ownership_released, c)
    else verify_owned owned c

abbrev pub admit_writer : Answer → Answer
admit_writer (some error, c) = (some error, c)
admit_writer (none, c) = (none, record c { active = c.active + 1 })

unfoldable pub enter : (ℕ → Bool) → Coordinator → Answer
unfolding assert_writable
enter owned c = admit_writer (assert_writable owned c)

-- The drains that are woken, and the coordinator. It is called with `active` above 0.
unfoldable pub leave : Coordinator → List ℕ × Coordinator
leave c =
    let left = record c { active = c.active - 1 } in
    if left.active == 0
    then (left.drain_waiters, record left { drain_waiters = [] })
    else ([], left)

unfoldable pub deactivate : Coordinator → Answer
deactivate c =
    if not (c.active == 0)
    then (some active_writers, c)
    else (none, record c { admitting = false; assert_owned = none })

-- A coordinator with the operations of `run` that are under way, the drains that are resolved, and how
-- many operations of `run` and `runSync` were called.
pub record Store : Type 0 where
  pub coordinator : Coordinator
  pub running : List ℕ
  pub drained : List ℕ
  pub operations : ℕ

abbrev pub new_store : Store
new_store = record { coordinator = new_coordinator; running = []; drained = []; operations = 0 }

-- The `finally` of `run` and `runSync`.
unfoldable pub leave_store : List ℕ → Coordinator → Store → Store
unfolding leave
leave_store running c s = record s {
  coordinator = (leave c).1;
  running = running;
  drained = s.drained ++ (leave c).0;
}

abbrev pub begin_entered : ℕ → Store → Answer → Store
begin_entered id s (some error, c) = record s { coordinator = c }
begin_entered id s (none, c) = record s {
  coordinator = c;
  running = id ∷ s.running;
  operations = s.operations + 1;
}

-- `run` up to the `await`.
unfoldable pub begin_run : (ℕ → Bool) → ℕ → Store → Store
unfolding enter
begin_run owned id s = begin_entered id s (enter owned s.coordinator)

abbrev pub without_first : ℕ → List ℕ → List ℕ
without_first id [] = []
without_first id (i ∷ ids) = if i == id then ids else i ∷ without_first id ids

abbrev pub verified : (ℕ → Bool) → Bool → Coordinator → Coordinator
verified owned succeeded c = if succeeded then (verify_owned owned c).1 else c

-- The rest of `run`, when the promise of its operation is settled.
unfoldable pub end_run : (ℕ → Bool) → ℕ → Bool → Store → Store
unfolding leave_store verify_owned
end_run owned id succeeded s =
    if any (λ i. i == id) s.running
    then leave_store (without_first id s.running) (verified owned succeeded s.coordinator) s
    else s

abbrev pub sync_entered : (ℕ → Bool) → (ℕ → Bool) → Bool → Store → Answer → Store
sync_entered owned after succeeded s (some error, c) = record s { coordinator = c }
sync_entered owned after succeeded s (none, c) =
    leave_store s.running (verified after succeeded c) (record s { operations = s.operations + 1 })

-- `runSync`, with the ownership before and behind its operation.
unfoldable pub run_sync : (ℕ → Bool) → (ℕ → Bool) → Bool → Store → Store
unfolding enter leave_store verify_owned
run_sync owned after succeeded s = sync_entered owned after succeeded s (enter owned s.coordinator)

unfoldable pub close_and_drain : ℕ → Store → Store
close_and_drain id s =
    let c = record s.coordinator { admitting = false } in
    if c.active == 0
    then record s { coordinator = c; drained = s.drained ++ id ∷ [] }
    else record s { coordinator = record c { drain_waiters = c.drain_waiters ++ id ∷ [] } }

pub data WriteCall : Type 0 where
  activates : ℕ → WriteCall
  begins : (ℕ → Bool) → ℕ → WriteCall
  ends : (ℕ → Bool) → ℕ → Bool → WriteCall
  runs_sync : (ℕ → Bool) → (ℕ → Bool) → Bool → WriteCall
  closes : ℕ → WriteCall
  deactivates : WriteCall
  asserts : (ℕ → Bool) → WriteCall

unfoldable pub write_call : Store → WriteCall → Store
unfolding activate begin_run end_run run_sync close_and_drain deactivate assert_writable
write_call s (activates callback) = record s { coordinator = (activate callback s.coordinator).1 }
write_call s (begins owned id) = begin_run owned id s
write_call s (ends owned id succeeded) = end_run owned id succeeded s
write_call s (runs_sync owned after succeeded) = run_sync owned after succeeded s
write_call s (closes id) = close_and_drain id s
write_call s deactivates = record s { coordinator = (deactivate s.coordinator).1 }
write_call s (asserts owned) = record s { coordinator = (assert_writable owned s.coordinator).1 }

unfoldable pub write_calls : Store → List WriteCall → Store
unfolding write_call
write_calls s [] = s
write_calls s (call ∷ calls) = write_calls (write_call s call) calls
