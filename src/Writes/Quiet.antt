-- ===== src/Writes/Quiet.antt =====
-- src/workflowWriteCoordinator.ts: what a caller of `closeAndDrain` may rely on.
use workflow_mcp.Common.{
  ℕ, suc, ◌-◌, ◌≡◌, ◌⊎◌, refl, ap, subst, ◌∙◌, inl, inr, Bool, true, false, none, some, List, [],
  ◌∷◌, ◌++◌, arith, length, any, All, Bool-cases, ◌==◌,
}
use workflow_mcp.Writes.{
  Coordinator, Answer, admit_writer, assert_writable, enter, leave, Store, new_store, leave_store,
  begin_entered, begin_run, without_first, verified, end_run, sync_entered, run_sync,
  close_and_drain, WriteCall, write_call, write_calls,
}
use workflow_mcp.Writes.Permits.{
  Closes, verified-Closes, assert_writable-Closes, assert_writable-none, Counts, Closes-Counts,
  enters-Counts,
}
use workflow_mcp.Writes.Drain.{
  length-without_first, deactivate-Closes, IsCounted, write_calls-new_store,
}

append_nothing : (xs : List ℕ) → xs ++ [] ≡ xs
append_nothing [] = refl
append_nothing (x ∷ xs) = ap (◌∷◌ x) (append_nothing xs)

no_elements : (xs : List ℕ) → length xs ≡ 0 → xs ≡ []
no_elements [] h = refl
no_elements (x ∷ xs) h = cc

leave-woken :
    (n : ℕ) (c : Coordinator)
    → Counts (suc n) c
    → ((leave c).0 ≡ []) ⊎ ((n ≡ 0) × ((leave c).1.admitting ≡ false))
unfolding leave
leave-woken n c k = elim (Bool-cases (c.active - 1 == 0)) [
  | inl p ↦ elim (Bool-cases c.admitting) [
    | inl q ↦ inl (rw p (k.open_gate q))
    | inr q ↦ inr (ground (arith, k.permits), rw p q)
  ]
  | inr p ↦ inl (rw p refl)
]

-- No drain was resolved, or no write is under way and none is let in.
unfoldable pub Drains : Store → Store → Type 0
Drains s t = (t.drained ≡ s.drained) ⊎ ((t.running ≡ []) × (t.coordinator.admitting ≡ false))

leave_store-Drains :
    (running : List ℕ) (c : Coordinator) (s : Store)
    → Counts (suc (length running)) c
    → Drains s (leave_store running c s)
unfolding Drains leave_store
leave_store-Drains running c s k = elim (leave-woken (length running) c k) [
  | inl p ↦ inl (rw p (append_nothing s.drained))
  | inr (p, q) ↦ inr (no_elements running p, q)
]

begin_entered-drained :
    (id : ℕ) (s : Store) (a : Answer) → (begin_entered id s (admit_writer a)).drained ≡ s.drained
begin_entered-drained id s (none, c) = refl
begin_entered-drained id s (some error, c) = refl

end_run-Drains :
    (owned : ℕ → Bool) (id : ℕ) (succeeded : Bool) (s : Store)
    → IsCounted s
    → Drains s (end_run owned id succeeded s)
unfolding end_run IsCounted Drains
end_run-Drains owned id succeeded s k = elim (Bool-cases (any (λ i. i == id) s.running)) [
  | inl p ↦ rw p (
      leave_store-Drains (without_first id s.running) (verified owned succeeded s.coordinator) s (
        Closes-Counts _ s.coordinator _ (verified-Closes owned succeeded s.coordinator)
          (subst (λ n. Counts n s.coordinator) (length-without_first id s.running p) k)))
  | inr p ↦ rw p (inl refl)
]

run_sync-Drains :
    (owned after : ℕ → Bool) (succeeded : Bool) (s : Store)
    → IsCounted s
    → Drains s (run_sync owned after succeeded s)
unfolding run_sync enter IsCounted Drains
run_sync-Drains owned after succeeded s k =
    answered (assert_writable owned s.coordinator) (assert_writable-none owned s.coordinator)
  where
    answered :
        (a : Answer)
        → (a.0 ≡ none → (a.1 ≡ s.coordinator) × (s.coordinator.admitting ≡ true))
        → Drains s (sync_entered owned after succeeded s (admit_writer a))
    answered (none, c) h =
        let (same, gate) = h refl in
        rw same (
          leave_store-Drains s.running _ s (
            Closes-Counts _ _ _ (verified-Closes after succeeded _)
              (enters-Counts (length s.running) s.coordinator gate k)))
    answered (some error, c) h = inl refl

close_and_drain-Drains : (id : ℕ) (s : Store) → IsCounted s → Drains s (close_and_drain id s)
unfolding close_and_drain IsCounted Drains
close_and_drain-Drains id s k = elim (Bool-cases (s.coordinator.active == 0)) [
  | inl p ↦ rw p (inr (no_elements s.running (ground (arith, k.permits)), refl))
  | inr p ↦ rw p (inl refl)
]

-- After any calls on a new coordinator, one more call either resolves no drain, or leaves no write
-- under way and the gate shut.
pub write_call-Drains :
    (calls : List WriteCall) (call : WriteCall)
    → Drains (write_calls new_store calls) (write_call (write_calls new_store calls) call)
unfolding write_call begin_run enter Drains
write_call-Drains calls call = one (write_calls new_store calls) call (write_calls-new_store calls)
  where
    one : (s : Store) (c : WriteCall) → IsCounted s → Drains s (write_call s c)
    one s (WriteCall.activates callback) k = inl refl
    one s (WriteCall.begins owned id) k =
        inl (begin_entered-drained id s (assert_writable owned s.coordinator))
    one s (WriteCall.ends owned id succeeded) k = end_run-Drains owned id succeeded s k
    one s (WriteCall.runs_sync owned after succeeded) k = run_sync-Drains owned after succeeded s k
    one s (WriteCall.closes id) k = close_and_drain-Drains id s k
    one s WriteCall.deactivates k = inl refl
    one s (WriteCall.asserts owned) k = inl refl

-- The gate is shut and no write is under way.
unfoldable IsQuiet : Store → Type 0
IsQuiet s = (s.running ≡ []) × (s.coordinator.admitting ≡ false)

-- A quiet store behind another, in between which no operation was called.
unfoldable IsShut : Store → Store → Type 0
unfolding IsQuiet
IsShut s t = IsQuiet t × (t.operations ≡ s.operations)

-- The calls that do not begin another writer generation.
pub data IsOrdinary : WriteCall → Type 0 where
  begins : (owned : ℕ → Bool) (id : ℕ) → IsOrdinary (WriteCall.begins owned id)
  ends :
      (owned : ℕ → Bool) (id : ℕ) (succeeded : Bool)
      → IsOrdinary (WriteCall.ends owned id succeeded)
  runs_sync :
      (owned after : ℕ → Bool) (succeeded : Bool)
      → IsOrdinary (WriteCall.runs_sync owned after succeeded)
  closes : (id : ℕ) → IsOrdinary (WriteCall.closes id)
  deactivates : IsOrdinary WriteCall.deactivates
  asserts : (owned : ℕ → Bool) → IsOrdinary (WriteCall.asserts owned)

shut : (c d : Coordinator) → Closes c d → c.admitting ≡ false → d.admitting ≡ false
shut c d e p = elim (Bool-cases d.admitting) [ inl q ↦ absurd (cc (e.gate q, p)) | inr q ↦ q ]

begin_entered-IsShut :
    (id : ℕ) (s : Store) (a : Answer)
    → (a.0 ≡ none → (a.1 ≡ s.coordinator) × (s.coordinator.admitting ≡ true))
    → Closes s.coordinator a.1
    → IsQuiet s
    → IsShut s (begin_entered id s (admit_writer a))
unfolding IsQuiet IsShut
begin_entered-IsShut id s (none, c) h e q = absurd (cc ((h refl).1, q.1))
begin_entered-IsShut id s (some error, c) h e q = ((q.0, shut s.coordinator c e q.1), refl)

sync_entered-IsShut :
    (owned after : ℕ → Bool) (succeeded : Bool) (s : Store) (a : Answer)
    → (a.0 ≡ none → (a.1 ≡ s.coordinator) × (s.coordinator.admitting ≡ true))
    → Closes s.coordinator a.1
    → IsQuiet s
    → IsShut s (sync_entered owned after succeeded s (admit_writer a))
unfolding IsQuiet IsShut
sync_entered-IsShut owned after succeeded s (none, c) h e q = absurd (cc ((h refl).1, q.1))
sync_entered-IsShut owned after succeeded s (some error, c) h e q =
    ((q.0, shut s.coordinator c e q.1), refl)

close_and_drain-IsShut : (id : ℕ) (s : Store) → IsQuiet s → IsShut s (close_and_drain id s)
unfolding IsQuiet IsShut close_and_drain
close_and_drain-IsShut id s q = elim (Bool-cases (s.coordinator.active == 0)) [
  | inl p ↦ rw p ((q.0, refl), refl)
  | inr p ↦ rw p ((q.0, refl), refl)
]

end_run-IsShut :
    (owned : ℕ → Bool) (id : ℕ) (succeeded : Bool) (s : Store)
    → IsQuiet s
    → IsShut s (end_run owned id succeeded s)
unfolding IsQuiet IsShut end_run
end_run-IsShut owned id succeeded s q = elim (Bool-cases (any (λ i. i == id) s.running)) [
  | inl p ↦ absurd (cc (rw q.0 at p))
  | inr p ↦ rw p (q, refl)
]

write_call-IsShut :
    (s : Store) (call : WriteCall) → IsOrdinary call → IsQuiet s → IsShut s (write_call s call)
unfolding write_call IsQuiet IsShut begin_run end_run run_sync enter
write_call-IsShut s (WriteCall.activates callback) o q = elim o [ ]
write_call-IsShut s (WriteCall.begins owned id) o q =
    begin_entered-IsShut id s (assert_writable owned s.coordinator)
      (assert_writable-none owned s.coordinator) (assert_writable-Closes owned s.coordinator) q
write_call-IsShut s (WriteCall.ends owned id succeeded) o q = end_run-IsShut owned id succeeded s q
write_call-IsShut s (WriteCall.runs_sync owned after succeeded) o q =
    sync_entered-IsShut owned after succeeded s (assert_writable owned s.coordinator)
      (assert_writable-none owned s.coordinator) (assert_writable-Closes owned s.coordinator) q
write_call-IsShut s (WriteCall.closes id) o q = close_and_drain-IsShut id s q
write_call-IsShut s WriteCall.deactivates o q =
    ((q.0, shut s.coordinator _ (deactivate-Closes s.coordinator) q.1), refl)
write_call-IsShut s (WriteCall.asserts owned) o q =
    ((q.0, shut s.coordinator _ (assert_writable-Closes owned s.coordinator) q.1), refl)

-- From a store whose gate is shut and where no write is under way, calls without an activation let
-- no write in, asynchronous or not: none of their operations is called, there is none under way behind
-- them, and the gate is still shut.
pub write_calls-quiet :
    (s : Store) (calls : List WriteCall)
    → All IsOrdinary calls
    → s.running ≡ []
    → s.coordinator.admitting ≡ false
    → ((write_calls s calls).operations ≡ s.operations)
      × ((write_calls s calls).running ≡ [])
      × ((write_calls s calls).coordinator.admitting ≡ false)
unfolding write_calls IsQuiet IsShut
write_calls-quiet s [] o p q = (refl, p, q)
write_calls-quiet s (call ∷ calls) o p q =
    let ((p', q'), same) = write_call-IsShut s call o.0 (p, q) in
    let (all, none_running, still) = write_calls-quiet (write_call s call) calls o.1 p' q' in
    (all ∙ same, none_running, still)
