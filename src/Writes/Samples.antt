-- ===== src/Writes/Samples.antt =====
-- A release of the store's lease, in the model of src/workflowWriteCoordinator.ts.
use workflow_mcp.Common.{ℕ, ◌≡◌, refl, Bool, true, false, List, [], ◌∷◌}
use workflow_mcp.Writes.{Store, new_store, WriteCall, write_call, write_calls}
use workflow_mcp.Writes.Drain.{IsCounted, write_calls-new_store}
use workflow_mcp.Writes.Quiet.{Drains, IsOrdinary, write_call-Drains, write_calls-quiet}

abbrev always : ℕ → Bool
always callback = true

-- One write is under way when the lease is released, and another comes too late.
abbrev releasing : List WriteCall
releasing =
    WriteCall.activates 0
    ∷ WriteCall.begins always 1
    ∷ WriteCall.runs_sync always always true
    ∷ WriteCall.closes 2
    ∷ WriteCall.begins always 3
    ∷ []

waits : (write_calls new_store releasing).drained ≡ []
unfolding write_calls
waits = refl

drains :
    (write_call (write_calls new_store releasing) (WriteCall.ends always 1 true)).drained ≡ 2 ∷ []
unfolding write_calls
drains = refl

write_calls-new_store_example : IsCounted (write_calls new_store releasing)
write_calls-new_store_example = write_calls-new_store releasing

write_call-Drains_example :
    Drains
      (write_calls new_store releasing)
      (write_call (write_calls new_store releasing) (WriteCall.ends always 1 true))
write_call-Drains_example = write_call-Drains releasing (WriteCall.ends always 1 true)

-- The lease is released, and the write that was under way has ended.
abbrev released : Store
released = write_call (write_calls new_store releasing) (WriteCall.ends always 1 true)

abbrev late : List WriteCall
late = WriteCall.begins always 4 ∷ WriteCall.runs_sync always always true ∷ WriteCall.closes 5 ∷ []

write_calls-quiet_example :
    ((write_calls released late).operations ≡ released.operations)
    × ((write_calls released late).running ≡ [])
    × ((write_calls released late).coordinator.admitting ≡ false)
unfolding write_calls
write_calls-quiet_example =
    write_calls-quiet released late
      (IsOrdinary.begins _ _, (IsOrdinary.runs_sync _ _ _, (IsOrdinary.closes _, tt))) refl refl
