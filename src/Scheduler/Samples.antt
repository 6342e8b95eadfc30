-- ===== src/Scheduler/Samples.antt =====
-- Two runs that share one permit of the model of src/workConservingScheduler.ts.
use workflow_mcp.Common.{
  ℕ, ◌+◌, ◌≡◌, refl, String, Bool, false, none, some, List, [], ◌∷◌, find_index, All, count,
}
use workflow_mcp.Scheduler.{Waiter, Scheduler, Effect, new_scheduler, choose, Call, run}
use workflow_mcp.Scheduler.Turns.{HasKey, Taken}
use workflow_mcp.Scheduler.Invariant.{IsSound, IsBusy}
use workflow_mcp.Scheduler.History.{run-new_scheduler}
use workflow_mcp.Scheduler.Conservation.{acquired, waiting, settled, run-settled}
use workflow_mcp.Scheduler.Fairness.{choose_rotates}

abbrev waiter : ℕ → String → Waiter
waiter id key = record { id = id; fairness_key = key; signal = id }

abbrev nothing_aborted : ℕ → Bool
nothing_aborted signal = false

abbrev idle : Scheduler
idle = record { capacity = 1; waiters = []; active = 0; last_granted_key = none; leases = [] }

-- Two calls of the run `a`, one of the run `b`, a release, and an abort of what still waits.
abbrev calls : List ((ℕ → Bool) × Call)
calls =
    (nothing_aborted, Call.acquires (waiter 1 "a"))
    ∷ (nothing_aborted, Call.acquires (waiter 2 "a"))
    ∷ (nothing_aborted, Call.acquires (waiter 3 "b"))
    ∷ (nothing_aborted, Call.releases 1)
    ∷ (nothing_aborted, Call.aborts 2)
    ∷ []

-- The run `b` has its turn before the second call of the run `a`.
turns : (run calls idle).1 ≡ Effect.resolved 1 ∷ Effect.resolved 3 ∷ Effect.rejected 2 ∷ []
unfolding run find_index
turns = refl

abbrev crowded : Scheduler
crowded = record {
  capacity = 1;
  waiters = waiter 2 "a" ∷ waiter 3 "b" ∷ [];
  active = 0;
  last_granted_key = some "a";
  leases = [];
}

run-new_scheduler_example : IsSound (run calls idle).0 × IsBusy (run calls idle).0
unfolding new_scheduler
run-new_scheduler_example = run-new_scheduler 1 idle calls refl

run-settled_example :
    count 2 (acquired calls) + count 2 (waiting idle.waiters)
    ≡ count 2 (waiting (run calls idle).0.waiters) + count 2 (settled (run calls idle).1)
run-settled_example = run-settled 2 calls idle

choose_rotates_example :
    Taken "b" crowded.waiters (waiter 3 "b") (waiter 2 "a" ∷ [])
    × (crowded.last_granted_key ≡ some "b" → All (HasKey "b") crowded.waiters)
unfolding choose find_index
choose_rotates_example = choose_rotates crowded (waiter 3 "b") (waiter 2 "a" ∷ []) refl
