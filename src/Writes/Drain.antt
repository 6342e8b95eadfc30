-- ===== src/Writes/Drain.antt =====
-- src/workflowWriteCoordinator.ts: a drain waits for every write that was let in.
use workflow_mcp.Common.{
  ℕ, suc, ◌≡◌, refl, ap, subst, inl, inr, Bool, true, not, ◌||◌, none, some, List, [], ◌∷◌, arith,
  length, any, Bool-cases, ◌==◌,
}
use workflow_mcp.Writes.{
  Coordinator, Answer, activate, assert_writable, admit_writer, enter, deactivate, Store, new_store,
  leave_store, begin_entered, begin_run, without_first, verified, end_run, sync_entered, run_sync,
  close_and_drain, WriteCall, write_call, write_calls,
}
use workflow_mcp.Writes.Permits.{
  Closes, same_coordinator, verified-Closes, assert_writable-Closes, assert_writable-none, Counts,
  Closes-Counts, enters-Counts, leave-Counts,
}

unfoldable pub IsCounted : Store → Type 0
IsCounted s = Counts (length s.running) s.coordinator

pub length-without_first :
    (id : ℕ) (ids : List ℕ)
    → any (λ i. i == id) ids ≡ true
    → length ids ≡ suc (length (without_first id ids))
length-without_first id [] h = cc
length-without_first id (i ∷ ids) h = elim (Bool-cases (i == id)) [
  | inl p ↦ rw p refl
  | inr p ↦ rw p (ap suc (length-without_first id ids (rw p at h)))
]

begin_run-IsCounted :
    (owned : ℕ → Bool) (id : ℕ) (s : Store) → IsCounted s → IsCounted (begin_run owned id s)
unfolding IsCounted begin_run enter
begin_run-IsCounted owned id s k =
    answered (assert_writable owned s.coordinator) (assert_writable-none owned s.coordinator)
      (assert_writable-Closes owned s.coordinator)
  where
    answered :
        (a : Answer)
        → (a.0 ≡ none → (a.1 ≡ s.coordinator) × (s.coordinator.admitting ≡ true))
        → Closes s.coordinator a.1
        → IsCounted (begin_entered id s (admit_writer a))
    answered (none, c) h e =
        let (same, gate) = h refl in rw same (enters-Counts (length s.running) s.coordinator gate k)
    answered (some error, c) h e = Closes-Counts (length s.running) s.coordinator c e k

end_run-IsCounted :
    (owned : ℕ → Bool) (id : ℕ) (succeeded : Bool) (s : Store)
    → IsCounted s
    → IsCounted (end_run owned id succeeded s)
unfolding IsCounted end_run leave_store
end_run-IsCounted owned id succeeded s k = elim (Bool-cases (any (λ i. i == id) s.running)) [
  | inl p ↦ rw p (
      leave-Counts (length (without_first id s.running)) (verified owned succeeded s.coordinator) (
        Closes-Counts _ s.coordinator _ (verified-Closes owned succeeded s.coordinator)
          (subst (λ n. Counts n s.coordinator) (length-without_first id s.running p) k)))
  | inr p ↦ rw p k
]

run_sync-IsCounted :
    (owned after : ℕ → Bool) (succeeded : Bool) (s : Store)
    → IsCounted s
    → IsCounted (run_sync owned after succeeded s)
unfolding IsCounted run_sync enter leave_store
run_sync-IsCounted owned after succeeded s k =
    answered (assert_writable owned s.coordinator) (assert_writable-none owned s.coordinator)
      (assert_writable-Closes owned s.coordinator)
  where
    answered :
        (a : Answer)
        → (a.0 ≡ none → (a.1 ≡ s.coordinator) × (s.coordinator.admitting ≡ true))
        → Closes s.coordinator a.1
        → IsCounted (sync_entered owned after succeeded s (admit_writer a))
    answered (none, c) h e =
        let (same, gate) = h refl in
        rw same (
          leave-Counts (length s.running) _ (
            Closes-Counts _ _ _ (verified-Closes after succeeded _)
              (enters-Counts (length s.running) s.coordinator gate k)))
    answered (some error, c) h e = Closes-Counts (length s.running) s.coordinator c e k

close_and_drain-IsCounted : (id : ℕ) (s : Store) → IsCounted s → IsCounted (close_and_drain id s)
unfolding IsCounted close_and_drain
close_and_drain-IsCounted id s k = elim (Bool-cases (s.coordinator.active == 0)) [
  | inl p ↦ rw p (record { permits = k.permits; open_gate = λ q. cc; idle = k.idle })
  | inr p ↦
      rw p (record {
        permits = k.permits;
        open_gate = λ q. cc;
        idle = λ q. absurd (ground (arith, q));
      })
]

activate-IsCounted :
    (n callback : ℕ) (c : Coordinator) → Counts n c → Counts n (activate callback c).1
unfolding activate
activate-IsCounted n callback c k = elim (Bool-cases (c.admitting || not (c.active == 0))) [
  | inl p ↦ rw p k
  | inr p ↦
      rw p
        (record { permits = k.permits; open_gate = λ q. k.idle (ground (arith, p)); idle = k.idle })
]

pub deactivate-Closes : (c : Coordinator) → Closes c (deactivate c).1
unfolding deactivate
deactivate-Closes c = elim (Bool-cases (not (c.active == 0))) [
  | inl p ↦ rw p (same_coordinator c)
  | inr p ↦ rw p (record { active = refl; waiters = refl; gate = λ q. cc })
]

write_call-IsCounted : (s : Store) (call : WriteCall) → IsCounted s → IsCounted (write_call s call)
unfolding IsCounted write_call
write_call-IsCounted s (WriteCall.activates callback) k =
    activate-IsCounted (length s.running) callback s.coordinator k
write_call-IsCounted s (WriteCall.begins owned id) k = begin_run-IsCounted owned id s k
write_call-IsCounted s (WriteCall.ends owned id succeeded) k =
    end_run-IsCounted owned id succeeded s k
write_call-IsCounted s (WriteCall.runs_sync owned after succeeded) k =
    run_sync-IsCounted owned after succeeded s k
write_call-IsCounted s (WriteCall.closes id) k = close_and_drain-IsCounted id s k
write_call-IsCounted s WriteCall.deactivates k =
    Closes-Counts _ s.coordinator _ (deactivate-Closes s.coordinator) k
write_call-IsCounted s (WriteCall.asserts owned) k =
    Closes-Counts _ s.coordinator _ (assert_writable-Closes owned s.coordinator) k

write_calls-IsCounted :
    (s : Store) (calls : List WriteCall) → IsCounted s → IsCounted (write_calls s calls)
unfolding write_calls
write_calls-IsCounted s [] k = k
write_calls-IsCounted s (call ∷ calls) k =
    write_calls-IsCounted (write_call s call) calls (write_call-IsCounted s call k)

-- After any calls on a new coordinator, `active` is the number of the writes under way, and a drain
-- waits only while the gate is shut and `active` is not 0.
pub write_calls-new_store : (calls : List WriteCall) → IsCounted (write_calls new_store calls)
unfolding IsCounted
write_calls-new_store calls =
    write_calls-IsCounted new_store calls
      (record { permits = refl; open_gate = λ q. refl; idle = λ q. refl })
