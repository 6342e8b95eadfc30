-- ===== src/Scheduler/History.antt =====
-- src/workConservingScheduler.ts: the permits in use behind any history of calls.
use workflow_mcp.Common.{
  ℕ, suc, ◌-◌, ◌<◌, ◌≡◌, refl, inl, inr, Bool, true, ◌&&◌, some, List, [], ◌∷◌, arith, length, any,
  ltb, ◌==◌, Bool-cases,
}
use workflow_mcp.Scheduler.{
  Waiter, Scheduler, new_scheduler, grant, acquire, remove_id, release, remove_waiter, on_abort,
  abort_each, abort_signal, listeners, Call, acquires, releases, aborts, call, run,
}
use workflow_mcp.Scheduler.Invariant.{IsSound, IsBusy, drain-IsBusy}

new_scheduler-IsSound :
    (capacity : ℕ) (s : Scheduler)
    → new_scheduler capacity ≡ some s
    → IsSound s × IsBusy s × (0 < s.capacity)
unfolding new_scheduler
new_scheduler-IsSound capacity s h =
    elim (Bool-cases (ltb 0 capacity && ltb capacity 9007199254740992)) [
      | inl fits ↦
          let e = rw fits at h in
          (
            record { counted = ground arith; within = ground arith },
            inr (ground arith),
            ground arith,
          )
      | inr out ↦ cc (rw out at h)
    ]

acquire-IsBusy :
    (aborted : ℕ → Bool) (w : Waiter) (s : Scheduler)
    → IsSound s
    → IsBusy s
    → IsSound (acquire aborted w s).0 × IsBusy (acquire aborted w s).0
unfolding acquire grant
acquire-IsBusy aborted w s v b = elim (Bool-cases (aborted w.signal)) [
  | inl dead ↦ rw dead (v, b)
  | inr live ↦ elim (Bool-cases (ltb s.active s.capacity && (length s.waiters == 0))) [
    | inl free ↦
        rw (live, free)
          (
            record { counted = ground arith; within = ground arith },
            inr (no_waiters s.waiters (ground arith)),
          )
    | inr full ↦
        rw (live, full) (drain-IsBusy aborted _ (record { counted = v.counted; within = v.within }))
  ]
]
  where
    no_waiters : (ws : List Waiter) → length ws ≡ 0 → ws ≡ []
    no_waiters [] k = refl
    no_waiters (x ∷ xs) k = absurd (omega arith)

length-remove_id :
    (id : ℕ) (is : List ℕ)
    → any (λ i. i == id) is ≡ true
    → length is ≡ suc (length (remove_id id is))
unfolding remove_id
length-remove_id id [] h = cc
length-remove_id id (i ∷ is) h = ground (arith, length-remove_id id is)

release-IsBusy :
    (aborted : ℕ → Bool) (id : ℕ) (s : Scheduler)
    → IsSound s
    → IsBusy s
    → IsSound (release aborted id s).0 × IsBusy (release aborted id s).0
unfolding release
release-IsBusy aborted id s v b = elim (Bool-cases (any (λ i. i == id) s.leases)) [
  | inl held ↦ rw held (
      drain-IsBusy aborted (record s { active = s.active - 1; leases = remove_id id s.leases })
        (record {
          counted = omega (arith, v.counted, length-remove_id id s.leases held);
          within = omega (arith, v.within);
        }))
  | inr gone ↦ rw gone (v, b)
]

on_abort-IsBusy :
    (id : ℕ) (s : Scheduler)
    → IsSound s
    → IsBusy s
    → IsSound (on_abort id s).0 × IsBusy (on_abort id s).0
unfolding on_abort remove_waiter
on_abort-IsBusy id s v b = (
  record { counted = v.counted; within = v.within },
  elim b [ inl full ↦ inl full | inr empty ↦ inr (rw empty) ],
)

abort_each-IsBusy :
    (ids : List ℕ) (s : Scheduler)
    → IsSound s
    → IsBusy s
    → IsSound (abort_each ids s).0 × IsBusy (abort_each ids s).0
unfolding abort_each
abort_each-IsBusy [] s v b = (v, b)
abort_each-IsBusy (id ∷ ids) s v b =
    let (v', b') = on_abort-IsBusy id s v b in abort_each-IsBusy ids (on_abort id s).0 v' b'

call-IsBusy :
    (aborted : ℕ → Bool) (c : Call) (s : Scheduler)
    → IsSound s
    → IsBusy s
    → IsSound (call aborted c s).0 × IsBusy (call aborted c s).0
unfolding call abort_signal
call-IsBusy aborted (acquires w) s v b = acquire-IsBusy aborted w s v b
call-IsBusy aborted (releases id) s v b = release-IsBusy aborted id s v b
call-IsBusy aborted (aborts signal) s v b = abort_each-IsBusy (listeners signal s.waiters) s v b

run-IsBusy :
    (cs : List ((ℕ → Bool) × Call)) (s : Scheduler)
    → IsSound s
    → IsBusy s
    → IsSound (run cs s).0 × IsBusy (run cs s).0
unfolding run
run-IsBusy [] s v b = (v, b)
run-IsBusy ((aborted, c) ∷ cs) s v b =
    let (v', b') = call-IsBusy aborted c s v b in run-IsBusy cs (call aborted c s).0 v' b'

-- After any calls on a new scheduler the permits in use are as many as the leases that are not
-- released, they are within the capacity, and they reach it unless no waiter waits.
pub run-new_scheduler :
    (capacity : ℕ) (s : Scheduler) (cs : List ((ℕ → Bool) × Call))
    → new_scheduler capacity ≡ some s
    → IsSound (run cs s).0 × IsBusy (run cs s).0
run-new_scheduler capacity s cs h =
    let (v, b, positive) = new_scheduler-IsSound capacity s h in run-IsBusy cs s v b
