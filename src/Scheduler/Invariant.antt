-- ===== src/Scheduler/Invariant.antt =====
-- src/workConservingScheduler.ts: permits are never overdrawn, and none is idle while a waiter waits.
use workflow_mcp.Common.{
  ℕ, zero, suc, ◌≤◌, ◌<◌, ◌≡◌, refl, sym, ◌∙◌, ap, subst, ◌≢◌, ◌⊎◌, inl, inr, String, Bool, none,
  some, List, [], ◌∷◌, arith, length, length-append, Option-cases,
}
use workflow_mcp.Scheduler.{
  Waiter, Scheduler, Effect, grant, choose, serve, drain_round, drain_rounds, drain, next_key,
}
use workflow_mcp.Scheduler.Turns.{Taken, take_waiter-Taken, choose_total}

-- Every permit in use belongs to a lease that is not released, and there are enough of them.
pub record IsSound (s : Scheduler) : Type 0 where
  pub counted : s.active ≡ length s.leases
  pub within : s.active ≤ s.capacity

-- No waiter waits while a permit is idle.
abbrev pub IsBusy : Scheduler → Type 0
IsBusy s = (s.active ≡ s.capacity) ⊎ (s.waiters ≡ [])

pub choose-Taken :
    (s : Scheduler) (w : Waiter) (rest : List Waiter)
    → choose s ≡ some (w, rest)
    → Taken w.fairness_key s.waiters w rest
unfolding choose
choose-Taken s w rest h = elim (Option-cases (next_key s.waiters s.last_granted_key)) [
  | inl gone ↦ cc (rw (gone, choose) at h)
  | inr (key, found) ↦
      let t = take_waiter-Taken key s.waiters w rest (rw (found, choose) at h) in
      subst (λ k. Taken k s.waiters w rest) (sym t.same) t
]

pub length-Taken :
    (key : String) (ws : List Waiter) (w : Waiter) (rest : List Waiter)
    → Taken key ws w rest
    → length ws ≡ suc (length rest)
length-Taken key ws w rest t = omega (
  arith,
  ap length t.queue,
  ap length t.left,
  length-append t.before (w ∷ t.after),
  length-append t.before t.after,
)

-- What one round does: it takes the waiter whose turn it is, and serves it.
pub record Round (aborted : ℕ → Bool) (s t : Scheduler) (effect : Effect) : Type 0 where
  pub waiter : Waiter
  pub rest : List Waiter
  pub idle : s.active < s.capacity
  pub chosen : choose s ≡ some (waiter, rest)
  pub served : (t, effect) ≡ serve aborted waiter (record s { waiters = rest })

pub drain_round-Round :
    (aborted : ℕ → Bool) (s t : Scheduler) (effect : Effect)
    → drain_round aborted s ≡ some (t, effect)
    → Round aborted s t effect
unfolding drain_round
drain_round-Round aborted s t effect h = elim (Option-cases (choose s)) [
  | inl gone ↦ absurd (ground arith)
  | inr ((w, rest), found) ↦ record {
    waiter = w;
    rest = rest;
    idle = ground arith;
    chosen = found;
    served = ground arith;
  }
]

drain_round-none :
    (aborted : ℕ → Bool) (s : Scheduler)
    → s.active ≤ s.capacity
    → drain_round aborted s ≡ none
    → IsBusy s
unfolding drain_round
drain_round-none aborted s h e = elim (waiting s.waiters) [
  | inl empty ↦ inr empty
  | inr more ↦ let (w, rest, found) = choose_total s more in inl (ground (arith, more))
]
  where
    waiting : (ws : List Waiter) → (ws ≡ []) ⊎ (ws ≢ [])
    waiting [] = inl refl
    waiting (w ∷ ws) = inr (λ p. cc)

serve-IsSound :
    (aborted : ℕ → Bool) (w : Waiter) (s : Scheduler)
    → s.active < s.capacity
    → IsSound s
    → IsSound (serve aborted w s).0
unfolding serve grant
serve-IsSound aborted w s h v = ground arith

serve-frame :
    (aborted : ℕ → Bool) (w : Waiter) (s : Scheduler)
    → ((serve aborted w s).0.capacity ≡ s.capacity) × ((serve aborted w s).0.waiters ≡ s.waiters)
unfolding serve grant
serve-frame aborted w s = (ground arith, ground arith)

pub Round-IsSound :
    (aborted : ℕ → Bool) (s t : Scheduler) (effect : Effect)
    → Round aborted s t effect
    → IsSound s
    → IsSound t
Round-IsSound aborted s t effect r v =
    subst (λ p. IsSound p.0) (sym r.served)
      (serve-IsSound aborted r.waiter (record s { waiters = r.rest }) r.idle
        (record { counted = v.counted; within = v.within }))

pub Round-waiters :
    (aborted : ℕ → Bool) (s t : Scheduler) (effect : Effect) (r : Round aborted s t effect)
    → (t.waiters ≡ r.rest) × (t.capacity ≡ s.capacity)
Round-waiters aborted s t effect r =
    let (capacity, waiters) = serve-frame aborted r.waiter (record s { waiters = r.rest }) in
    (
      ap (λ (p : Scheduler × Effect). p.0.waiters) r.served ∙ waiters,
      ap (λ (p : Scheduler × Effect). p.0.capacity) r.served ∙ capacity,
    )

-- The length of the queue is fuel enough for the loop to end by its own test.
drain_rounds-IsBusy :
    (fuel : ℕ) (aborted : ℕ → Bool) (s : Scheduler)
    → length s.waiters ≤ fuel
    → IsSound s
    → IsSound (drain_rounds fuel aborted s).0 × IsBusy (drain_rounds fuel aborted s).0
unfolding drain_rounds
drain_rounds-IsBusy zero aborted s h v = (v, inr (empty s.waiters h))
  where
    empty : (ws : List Waiter) → length ws ≤ 0 → ws ≡ []
    empty [] k = refl
    empty (w ∷ ws) k = absurd (omega arith)
drain_rounds-IsBusy (suc fuel) aborted s h v = elim (Option-cases (drain_round aborted s)) [
  | inl over ↦ rw (over, drain_rounds) (v, drain_round-none aborted s v.within over)
  | inr ((t, effect), more) ↦
      let r = drain_round-Round aborted s t effect more in
      let left =
        length-Taken _ s.waiters r.waiter r.rest (choose-Taken s r.waiter r.rest r.chosen) in
      let (waiters, capacity) = Round-waiters aborted s t effect r in
      rw (more, drain_rounds)
        (drain_rounds-IsBusy fuel aborted t (omega (arith, ap length waiters, left))
          (Round-IsSound aborted s t effect r v))
]

pub drain-IsBusy :
    (aborted : ℕ → Bool) (s : Scheduler)
    → IsSound s
    → IsSound (drain aborted s).0 × IsBusy (drain aborted s).0
unfolding drain
drain-IsBusy aborted s = drain_rounds-IsBusy (length s.waiters) aborted s (omega arith)
