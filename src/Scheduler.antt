-- ===== src/Scheduler.antt =====
-- src/workConservingScheduler.ts: `WorkConservingScheduler`. A waiter and its lease share an
-- identity, new for each call of `acquire`; the promise of a call is settled by an effect. A lease
-- is listed while its `released` flag is false. `aborted` tells which signals are aborted when an
-- operation runs; the listener of a signal is the operation `on_abort`.
pub mod Turns
pub mod Invariant
pub mod History
pub mod Conservation
pub mod Fairness
mod Samples
use workflow_mcp.Common.{
  ℕ, zero, suc, ◌+◌, ◌-◌, ◌%◌, String, Bool, true, false, not, ◌&&◌, Option, none, some, List, [],
  ◌∷◌, ◌++◌, map, length, any, filter, find_index, get_elem?, str_eq, ltb, ◌==◌, if◌then◌else◌,
}

pub record Waiter : Type 0 where
  pub id : ℕ
  pub fairness_key : String
  pub signal : ℕ

pub record Scheduler : Type 0 where
  pub capacity : ℕ
  pub waiters : List Waiter
  pub active : ℕ
  pub last_granted_key : Option String
  pub leases : List ℕ

-- How the promise of an acquisition is settled.
pub data Effect : Type 0 where
  resolved : ℕ → Effect
  rejected : ℕ → Effect

pub record SchedulerSnapshot : Type 0 where
  pub capacity : ℕ
  pub active : ℕ
  pub queued : ℕ
  pub available : ℕ

-- The constructor throws a TypeError for a capacity that is no positive safe integer.
unfoldable pub new_scheduler : ℕ → Option Scheduler
new_scheduler capacity =
    if ltb 0 capacity && ltb capacity 9007199254740992
    then some (record {
      capacity = capacity;
      waiters = [];
      active = 0;
      last_granted_key = none;
      leases = [];
    })
    else none

-- `Math.max(0, capacity - active)`: the subtraction on natural numbers stops at 0.
unfoldable pub snapshot : Scheduler → SchedulerSnapshot
snapshot s = record {
  capacity = s.capacity;
  active = s.active;
  queued = length s.waiters;
  available = s.capacity - s.active;
}

-- The `Set` of the keys, in the order of their first occurrences.
unfoldable pub unique_keys : List String → List String
unique_keys [] = []
unique_keys (k ∷ ks) = k ∷ filter (λ j. not (str_eq j k)) (unique_keys ks)

unfoldable pub queue_keys : List Waiter → List String
unfolding unique_keys
queue_keys waiters = unique_keys (map (λ w. w.fairness_key) waiters)

-- `previousKeyIndex + 1`, where -1 stands for a key that is missing.
unfoldable pub turn : List String → Option String → ℕ
unfolding find_index
turn keys none = 0
turn keys (some last) = elim (find_index (λ k. str_eq k last) keys) [ none ↦ 0 | some i ↦ suc i ]

unfoldable pub next_key : List Waiter → Option String → Option String
unfolding queue_keys turn
next_key waiters last =
    let keys = queue_keys waiters in get_elem? keys (turn keys last % length keys)

abbrev pub behind : Waiter → Option (Waiter × List Waiter) → Option (Waiter × List Waiter)
behind v none = none
behind v (some (w, rest)) = some (w, v ∷ rest)

-- `splice(index, 1)` at the first waiter of a key: the waiter, and the others in order.
unfoldable pub take_waiter : String → List Waiter → Option (Waiter × List Waiter)
take_waiter key [] = none
take_waiter key (w ∷ ws) =
    if str_eq w.fairness_key key then some (w, ws) else behind w (take_waiter key ws)

-- The permit that a waiter or a caller gets.
unfoldable pub grant : Waiter → Scheduler → Scheduler
grant w s = record s {
  active = s.active + 1;
  last_granted_key = some w.fairness_key;
  leases = w.id ∷ s.leases;
}

-- The waiter whose turn it is.
unfoldable pub choose : Scheduler → Option (Waiter × List Waiter)
unfolding next_key take_waiter
choose s = elim (next_key s.waiters s.last_granted_key) [
  | none ↦ none
  | some key ↦ take_waiter key s.waiters
]

unfoldable pub serve : (ℕ → Bool) → Waiter → Scheduler → Scheduler × Effect
unfolding grant
serve aborted w s = if aborted w.signal then (s, rejected w.id) else (grant w s, resolved w.id)

-- One round of the loop of `#drain`, or `none` where the loop ends.
unfoldable pub drain_round : (ℕ → Bool) → Scheduler → Option (Scheduler × Effect)
unfolding choose serve
drain_round aborted s =
    if ltb s.active s.capacity && ltb 0 (length s.waiters)
    then elim (choose s) [
      | none ↦ none
      | some (w, rest) ↦ some (serve aborted w (record s { waiters = rest }))
    ]
    else none

-- `#drain`. Each round takes a waiter from the queue, so its length is fuel enough.
unfoldable pub drain_rounds : ℕ → (ℕ → Bool) → Scheduler → Scheduler × List Effect
unfolding drain_round
drain_rounds zero aborted s = (s, [])
drain_rounds (suc fuel) aborted s = elim (drain_round aborted s) [
  | none ↦ (s, [])
  | some (t, effect) ↦ let (u, effects) = drain_rounds fuel aborted t in (u, effect ∷ effects)
]

unfoldable pub drain : (ℕ → Bool) → Scheduler → Scheduler × List Effect
unfolding drain_rounds
drain aborted s = drain_rounds (length s.waiters) aborted s

unfoldable pub acquire : (ℕ → Bool) → Waiter → Scheduler → Scheduler × List Effect
unfolding grant drain
acquire aborted w s =
    if aborted w.signal
    then (s, rejected w.id ∷ [])
    else if ltb s.active s.capacity && (length s.waiters == 0)
    then (grant w s, resolved w.id ∷ [])
    else drain aborted (record s { waiters = s.waiters ++ w ∷ [] })

unfoldable pub remove_id : ℕ → List ℕ → List ℕ
remove_id id [] = []
remove_id id (i ∷ is) = if i == id then is else i ∷ remove_id id is

-- `release` of a lease: nothing, if it is released already.
unfoldable pub release : (ℕ → Bool) → ℕ → Scheduler → Scheduler × List Effect
unfolding drain remove_id
release aborted id s =
    if any (λ i. i == id) s.leases
    then drain aborted (record s { active = s.active - 1; leases = remove_id id s.leases })
    else (s, [])

-- The listener of a waiter: it leaves the queue if it is there, and its promise is rejected.
unfoldable pub remove_waiter : ℕ → List Waiter → List Waiter
remove_waiter id [] = []
remove_waiter id (w ∷ ws) = if w.id == id then ws else w ∷ remove_waiter id ws

unfoldable pub on_abort : ℕ → Scheduler → Scheduler × List Effect
unfolding remove_waiter
on_abort id s = (record s { waiters = remove_waiter id s.waiters }, rejected id ∷ [])

-- The listeners that are registered for a signal: those of the waiters in the queue. Each is run once.
unfoldable pub listeners : ℕ → List Waiter → List ℕ
listeners signal [] = []
listeners signal (w ∷ ws) =
    if w.signal == signal then w.id ∷ listeners signal ws else listeners signal ws

unfoldable pub abort_each : List ℕ → Scheduler → Scheduler × List Effect
unfolding on_abort
abort_each [] s = (s, [])
abort_each (id ∷ ids) s =
    let (t, effects) = on_abort id s in let (u, more) = abort_each ids t in (u, effects ++ more)

unfoldable pub abort_signal : ℕ → Scheduler → Scheduler × List Effect
unfolding listeners abort_each
abort_signal signal s = abort_each (listeners signal s.waiters) s

-- The calls that a scheduler receives, each with the signals that are aborted when it runs.
pub data Call : Type 0 where
  acquires : Waiter → Call
  releases : ℕ → Call
  aborts : ℕ → Call

unfoldable pub call : (ℕ → Bool) → Call → Scheduler → Scheduler × List Effect
unfolding acquire release abort_signal
call aborted (acquires w) s = acquire aborted w s
call aborted (releases id) s = release aborted id s
call aborted (aborts signal) s = abort_signal signal s

unfoldable pub run : List ((ℕ → Bool) × Call) → Scheduler → Scheduler × List Effect
unfolding call
run [] s = (s, [])
run ((aborted, c) ∷ cs) s =
    let (t, effects) = call aborted c s in let (u, more) = run cs t in (u, effects ++ more)
