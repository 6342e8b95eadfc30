-- ===== src/Scheduler/Conservation.antt =====
-- src/workConservingScheduler.ts: every acquisition is settled once, or still waits.
use workflow_mcp.Common.{
  ℕ, zero, suc, ◌+◌, ◌-◌, ◌≤◌, ◌<◌, ◌≡◌, ap, inl, inr, Bool, ◌&&◌, List, [], ◌∷◌, ◌++◌, arith,
  String, length, any, count, ltb, ◌==◌, Bool-cases, Option-cases,
}
use workflow_mcp.Scheduler.{
  Waiter, Scheduler, Effect, resolved, rejected, grant, serve, drain_round, drain_rounds, drain,
  acquire, remove_id, release, remove_waiter, on_abort, listeners, abort_each, abort_signal, Call,
  acquires, releases, aborts, call, run,
}
use workflow_mcp.Scheduler.Turns.{Taken}
use workflow_mcp.Scheduler.Invariant.{choose-Taken, Round, drain_round-Round, Round-waiters}

-- The acquisitions that wait, those that a list of effects settles, and those that it grants.
abbrev pub waiting : List Waiter → List ℕ
waiting [] = []
waiting (w ∷ ws) = w.id ∷ waiting ws

abbrev pub settled : List Effect → List ℕ
settled [] = []
settled (resolved id ∷ es) = id ∷ settled es
settled (rejected id ∷ es) = id ∷ settled es

abbrev pub granted : List Effect → List ℕ
granted [] = []
granted (resolved id ∷ es) = id ∷ granted es
granted (rejected id ∷ es) = granted es

-- The acquisitions that a history makes.
abbrev pub acquired : List ((ℕ → Bool) × Call) → List ℕ
acquired [] = []
acquired ((aborted, acquires w) ∷ cs) = w.id ∷ acquired cs
acquired ((aborted, releases id) ∷ cs) = acquired cs
acquired ((aborted, aborts signal) ∷ cs) = acquired cs

count-waiting :
    (n : ℕ) (vs ws : List Waiter)
    → count n (waiting (vs ++ ws)) ≡ count n (waiting vs) + count n (waiting ws)
count-waiting n [] ws = omega arith
count-waiting n (v ∷ vs) ws = omega (arith, count-waiting n vs ws)

count-settled :
    (n : ℕ) (ds es : List Effect)
    → count n (settled (ds ++ es)) ≡ count n (settled ds) + count n (settled es)
count-settled n [] es = omega arith
count-settled n (resolved id ∷ ds) es = omega (arith, count-settled n ds es)
count-settled n (rejected id ∷ ds) es = omega (arith, count-settled n ds es)

count-Taken :
    (n : ℕ) {key : String} {ws rest : List Waiter} {w : Waiter}
    → Taken key ws w rest
    → count n (waiting ws) ≡ count n (w.id ∷ []) + count n (waiting rest)
count-Taken n {w} t = omega (
  arith,
  ap (λ ws. count n (waiting ws)) t.queue,
  ap (λ ws. count n (waiting ws)) t.left,
  count-waiting n t.before (w ∷ t.after),
  count-waiting n t.before t.after,
)

serve-settled :
    (aborted : ℕ → Bool) (w : Waiter) (s : Scheduler)
    → settled ((serve aborted w s).1 ∷ []) ≡ w.id ∷ []
unfolding serve
serve-settled aborted w s = ground arith

Round-settled :
    (n : ℕ) (aborted : ℕ → Bool) (s t : Scheduler) (effect : Effect)
    → Round aborted s t effect
    → count n (waiting s.waiters) ≡ count n (waiting t.waiters) + count n (settled (effect ∷ []))
Round-settled n aborted s t effect r = omega (
  arith,
  count-Taken n (choose-Taken s r.waiter r.rest r.chosen),
  ap (λ ws. count n (waiting ws)) (Round-waiters aborted s t effect r).0,
  ap (λ (p : Scheduler × Effect). count n (settled (p.1 ∷ []))) r.served,
  ap (count n) (serve-settled aborted r.waiter (record s { waiters = r.rest })),
)

drain_rounds-settled :
    (n fuel : ℕ) (aborted : ℕ → Bool) (s : Scheduler)
    → count n (waiting s.waiters)
      ≡ count n (waiting (drain_rounds fuel aborted s).0.waiters)
        + count n (settled (drain_rounds fuel aborted s).1)
unfolding drain_rounds
drain_rounds-settled n zero aborted s = omega arith
drain_rounds-settled n (suc fuel) aborted s = elim (Option-cases (drain_round aborted s)) [
  | inl over ↦ rw (over, drain_rounds) (omega arith)
  | inr ((t, effect), more) ↦
      rw (more, drain_rounds)
        (omega (
          arith,
          Round-settled n aborted s t effect (drain_round-Round aborted s t effect more),
          drain_rounds-settled n fuel aborted t,
          count-settled n (effect ∷ []) (drain_rounds fuel aborted t).1,
        ))
]

acquire-settled :
    (n : ℕ) (aborted : ℕ → Bool) (w : Waiter) (s : Scheduler)
    → count n (w.id ∷ []) + count n (waiting s.waiters)
      ≡ count n (waiting (acquire aborted w s).0.waiters)
        + count n (settled (acquire aborted w s).1)
unfolding acquire grant drain
acquire-settled n aborted w s = elim (Bool-cases (aborted w.signal)) [
  | inl dead ↦ rw (dead, acquire) (omega arith)
  | inr live ↦ elim (Bool-cases (ltb s.active s.capacity && (length s.waiters == 0))) [
    | inl free ↦ rw (live, free, acquire) (omega arith)
    | inr full ↦
        rw (live, full, acquire)
          (omega (
            arith,
            drain_rounds-settled n (length (s.waiters ++ w ∷ [])) aborted
                (record s { waiters = s.waiters ++ w ∷ [] }),
            count-waiting n s.waiters (w ∷ []),
          ))
  ]
]

release-settled :
    (n : ℕ) (aborted : ℕ → Bool) (id : ℕ) (s : Scheduler)
    → count n (waiting s.waiters)
      ≡ count n (waiting (release aborted id s).0.waiters)
        + count n (settled (release aborted id s).1)
unfolding release drain
release-settled n aborted id s = elim (Bool-cases (any (λ i. i == id) s.leases)) [
  | inl held ↦
      rw (held, release)
        (drain_rounds-settled n (length s.waiters) aborted
          (record s { active = s.active - 1; leases = remove_id id s.leases }))
  | inr gone ↦ rw (gone, release) (omega arith)
]

count-remove_waiter :
    (n id : ℕ) (ws : List Waiter)
    → 0 < count id (waiting ws)
    → count n (waiting ws) ≡ count n (id ∷ []) + count n (waiting (remove_waiter id ws))
unfolding remove_waiter
count-remove_waiter n id [] h = absurd (omega arith)
count-remove_waiter n id (w ∷ ws) h = ground (arith, count-remove_waiter n id ws)

abort_each-settled :
    (n : ℕ) (ids : List ℕ) (s : Scheduler)
    → ((m : ℕ) → count m ids ≤ count m (waiting s.waiters))
    → count n (waiting s.waiters)
      ≡ count n (waiting (abort_each ids s).0.waiters) + count n (settled (abort_each ids s).1)
unfolding abort_each on_abort
abort_each-settled n [] s h = omega arith
abort_each-settled n (id ∷ ids) s h =
    let here : 0 < count id (waiting s.waiters) = ground (arith, h id) in
    omega (
      arith,
      count-remove_waiter n id s.waiters here,
      abort_each-settled n ids (record s { waiters = remove_waiter id s.waiters })
          (λ m. omega (arith, h m, count-remove_waiter m id s.waiters here)),
    )

count-listeners :
    (n signal : ℕ) (ws : List Waiter) → count n (listeners signal ws) ≤ count n (waiting ws)
unfolding listeners
count-listeners n signal [] = omega arith
count-listeners n signal (w ∷ ws) = ground (arith, count-listeners n signal ws)

call-settled :
    (n : ℕ) (aborted : ℕ → Bool) (c : Call) (cs : List ((ℕ → Bool) × Call)) (s : Scheduler)
    → count n (acquired ((aborted, c) ∷ cs)) + count n (waiting s.waiters)
      ≡ count n (acquired cs)
        + count n (waiting (call aborted c s).0.waiters)
        + count n (settled (call aborted c s).1)
unfolding call abort_signal
call-settled n aborted (acquires w) cs s = omega (arith, acquire-settled n aborted w s)
call-settled n aborted (releases id) cs s = omega (arith, release-settled n aborted id s)
call-settled n aborted (aborts signal) cs s = omega (
  arith,
  abort_each-settled n (listeners signal s.waiters) s (λ m. count-listeners m signal s.waiters),
)

-- Over any calls on any scheduler, and for any identity, the acquisitions made under it and those that
-- waited before are as many as those that wait afterwards and those whose promise was settled.
pub run-settled :
    (n : ℕ) (cs : List ((ℕ → Bool) × Call)) (s : Scheduler)
    → count n (acquired cs) + count n (waiting s.waiters)
      ≡ count n (waiting (run cs s).0.waiters) + count n (settled (run cs s).1)
unfolding run
run-settled n [] s = omega arith
run-settled n ((aborted, c) ∷ cs) s = omega (
  arith,
  call-settled n aborted c cs s,
  run-settled n cs (call aborted c s).0,
  count-settled n (call aborted c s).1 (run cs (call aborted c s).0).1,
)
