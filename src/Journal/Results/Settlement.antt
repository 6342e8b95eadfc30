-- ===== src/Journal/Results/Settlement.antt =====
-- When a result of src/workflowJournal.ts is accepted, and what it leaves.
use workflow_mcp.Common.{
  ℕ, Bool, true, false, not, ◌&&◌, List, [], ◌∷◌, Option, none, some, ◌≡◌, refl, sym, subst, ◌∙◌,
  ap, ◌↔◌, inl, inr, arith, All, All-map, All-filter_test, find, str_eq, eq_iff, ==_iff, Bool-cases,
  Result-cases, ok, err, IsOk, IsOk-value, update_first,
}
use workflow_mcp.Js.{JsValue}
use workflow_mcp.Events.Failure.Casualty.{IsPlaceholder, is_workflow_agent_failure_placeholder_iff}
use workflow_mcp.Journal.{not_unfinished, JournalMiss, PendingCall, JournalRun}
use workflow_mcp.Journal.History.{bad_gap, is_true}
use workflow_mcp.Journal.Results.{
  ResultOptions, is_index, check_pending, unfinished, is_session_of, drop_sessions, complete,
  settle_call, record_result,
}

-- A pending call without a result, with the index, the key and the agent of a decision.
abbrev pub IsUnfinished : JournalMiss → PendingCall → Type 0
IsUnfinished decision call =
    (call.completed ≡ false)
    × (call.decision.key ≡ decision.key)
    × (call.decision.agent_id ≡ decision.agent_id)

check_pending-ok :
    (decision : JournalMiss) (found : Option PendingCall) (call : PendingCall)
    → check_pending decision found ≡ ok call
    → (found ≡ some call) × IsUnfinished decision call
check_pending-ok decision none call h = cc
check_pending-ok decision (some other) call h = elim (Bool-cases (fits other)) [
  | inr unfit ↦ cc (rw unfit at h)
  | inl fit ↦
      let same : other ≡ call = cc (rw fit at h) in
      (
        ap some same,
        subst (IsUnfinished decision) same (
          ground arith,
          (eq_iff other.decision.key decision.key).0 (ground arith),
          (eq_iff other.decision.agent_id decision.agent_id).0 (ground arith),
        ),
      )
]
  where
    fits : PendingCall → Bool
    fits p =
        not p.completed
        && (str_eq p.decision.key decision.key && str_eq p.decision.agent_id decision.agent_id)

check_pending-IsUnfinished :
    (decision : JournalMiss) (call : PendingCall)
    → IsUnfinished decision call
    → check_pending decision (some call) ≡ ok call
check_pending-IsUnfinished decision call (open_still, key, agent) =
    rw
      (
        open_still,
        (eq_iff call.decision.key decision.key).1 key,
        (eq_iff call.decision.agent_id decision.agent_id).1 agent,
      )
      refl

unfinished-ok :
    (run : JournalRun) (decision : JournalMiss) (call : PendingCall)
    → unfinished run decision ≡ ok call
    → (find (is_index decision.call_index) run.pending ≡ some call) × IsUnfinished decision call
unfolding unfinished
unfinished-ok run decision =
    check_pending-ok decision (find (is_index decision.call_index) run.pending)

unfinished-IsUnfinished :
    (run : JournalRun) (decision : JournalMiss) (call : PendingCall)
    → find (is_index decision.call_index) run.pending ≡ some call
    → IsUnfinished decision call
    → unfinished run decision ≡ ok call
unfolding unfinished
unfinished-IsUnfinished run decision call at open_still =
    ap (check_pending decision) at ∙ check_pending-IsUnfinished decision call open_still

-- What an accepted result has shown, and the run behind it.
pub record_result-ok :
    (run after : JournalRun) (decision : JournalMiss) (result : JsValue) (options : ResultOptions)
    → record_result run decision result options ≡ ok after
    → (call : PendingCall) × (unfinished run decision ≡ ok call)
      × (bad_gap options.coverage_gap options.successful result ≡ false)
      × (after ≡ settle_call run result options call)
unfolding record_result
record_result-ok run after decision result options h =
    elim (Result-cases (unfinished run decision)) [
      | inr (e, thrown) ↦ cc (rw (record_result, thrown) at h)
      | inl (call, found) ↦
          elim (Bool-cases (bad_gap options.coverage_gap options.successful result)) [
            | inl bad ↦ cc (rw (record_result, found, bad) at h)
            | inr fine ↦ (call, found, fine, cc (rw (record_result, found, fine) at h))
          ]
    ]

-- A gap that is claimed, of an unsuccessful placeholder.
abbrev pub IsProperGap : Option Bool → Option Bool → JsValue → Type 0
IsProperGap coverage_gap successful result =
    coverage_gap ≡ some true → (successful ≡ some false) × IsPlaceholder result

bad_gap_iff :
    (coverage_gap successful : Option Bool) (result : JsValue)
    → (bad_gap coverage_gap successful result ≡ false) ↔ IsProperGap coverage_gap successful result
unfolding bad_gap
bad_gap_iff none successful result = ((λ h. λ gap. cc), (λ h. refl))
bad_gap_iff (some false) successful result = ((λ h. λ gap. cc), (λ h. refl))
bad_gap_iff (some true) none result = ((λ h. cc), (λ h. cc ((h refl).0)))
bad_gap_iff (some true) (some true) result = ((λ h. cc), (λ h. cc ((h refl).0)))
bad_gap_iff (some true) (some false) result =
    let exact = is_workflow_agent_failure_placeholder_iff result in
    ((λ h. λ gap. (refl, exact.0 (ground arith))), (λ h. rw (exact.1 (h refl).1) refl))

-- A result is accepted exactly for the decision of a pending call that has none yet, of the same key
-- and agent; and as a coverage gap only where it is said to be unsuccessful and is an object with a
-- complete failure marker of version one.
pub record_result-IsOk_iff :
    (run : JournalRun) (decision : JournalMiss) (result : JsValue) (options : ResultOptions)
    → IsOk (record_result run decision result options) ↔ (
        ((call : PendingCall) × (find (is_index decision.call_index) run.pending ≡ some call)
          × IsUnfinished decision call)
        × IsProperGap options.coverage_gap options.successful result)
unfolding record_result
record_result-IsOk_iff run decision result options =
    let gap = bad_gap_iff options.coverage_gap options.successful result in
    (
      (λ h.
          let (after, done) = IsOk-value (record_result run decision result options) h in
          let (call, found, fine, _) = record_result-ok run after decision result options done in
          let (at, open_still) = unfinished-ok run decision call found in
          ((call, at, open_still), gap.0 fine)),
      (λ h.
          rw (record_result, unfinished-IsUnfinished run decision h.0.0 h.0.1 h.0.2, gap.1 h.1) tt),
    )

find-hit :
    (index : ℕ) (pending : List PendingCall) (call : PendingCall)
    → find (is_index index) pending ≡ some call
    → is_index index call ≡ true
find-hit index [] call h = cc
find-hit index (other ∷ pending) call h = elim (Bool-cases (is_index index other)) [
  | inl hit ↦
      let first : other ≡ call = cc (rw hit at h) in subst (λ c. is_index index c ≡ true) first hit
  | inr miss ↦ find-hit index pending call (rw miss at h)
]

find-complete :
    (index : ℕ) (pending : List PendingCall) (call : PendingCall)
    → find (is_index index) pending ≡ some call
    → find (is_index index) (update_first (is_index index) complete pending) ≡ some (complete call)
unfolding update_first
find-complete index [] call h = cc
find-complete index (other ∷ pending) call h = elim (Bool-cases (is_index index other)) [
  | inl hit ↦
      let first : other ≡ call = cc (rw hit at h) in
      rw (hit, hit) (ap (λ c. some (complete c)) first)
  | inr miss ↦ rw (miss, miss) (find-complete index pending call (rw miss at h))
]

-- A decision gets one result: once it has one, a further result for it is refused, whatever it is.
pub record_result-once :
    (run after : JournalRun) (decision : JournalMiss) (result again : JsValue)
    (options more : ResultOptions)
    → record_result run decision result options ≡ ok after
    → record_result after decision again more ≡ err not_unfinished
unfolding record_result unfinished settle_call
record_result-once run after decision result again options more h =
    let (call, found, fine, same) = record_result-ok run after decision result options h in
    let (at, open_still) = unfinished-ok run decision call found in
    let index : call.decision.call_index ≡ decision.call_index =
      (==_iff call.decision.call_index decision.call_index).0
        (find-hit decision.call_index run.pending call at) in
    let completed : find (is_index decision.call_index) after.pending ≡ some (complete call) =
      ap (λ r. find (is_index decision.call_index) r.pending) same
      ∙ ap
          (λ i.
            find (is_index decision.call_index) (update_first (is_index i) complete run.pending))
          index
      ∙ find-complete decision.call_index run.pending call at in
    let refused : unfinished after decision ≡ err not_unfinished =
      ap (check_pending decision) completed in
    rw (record_result, refused) refl

-- A coverage gap that is accepted leaves no session of the call: the snapshot that has the gap has
-- nothing to resume it with.
pub record_result-gap :
    (run after : JournalRun) (decision : JournalMiss) (result : JsValue) (options : ResultOptions)
    → is_true options.coverage_gap ≡ true
    → record_result run decision result options ≡ ok after
    → All (λ session. is_session_of decision session ≡ false) after.sessions
unfolding settle_call
record_result-gap run after decision result options gap h =
    let (call, found, fine, same) = record_result-ok run after decision result options h in
    let (at, (open_still, key, agent)) = unfinished-ok run decision call found in
    let dropped : after.sessions ≡ drop_sessions call.decision run.sessions =
      ap (λ r. r.sessions) same ∙ rw gap refl in
    subst (All λ session. is_session_of decision session ≡ false) (sym dropped) (
      All-map
        (λ session (kept : not (is_session_of call.decision session) ≡ true).
          ap (λ k. str_eq session.key k && str_eq session.agent_id decision.agent_id) (sym key)
          ∙ ap (λ a. str_eq session.key call.decision.key && str_eq session.agent_id a) (sym agent)
          ∙ ground arith)
        (drop_sessions call.decision run.sessions)
        (All-filter_test (λ session. not (is_session_of call.decision session)) run.sessions))
