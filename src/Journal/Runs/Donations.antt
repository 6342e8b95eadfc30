-- ===== src/Journal/Runs/Donations.antt =====
-- What a history of a run of src/workflowJournal.ts does to the historical calls.
use workflow_mcp.Common.{
  ℕ, suc, zero, ◌+◌, ◌≤◌, String, Bool, true, false, List, [], ◌∷◌, Option, none, some, ◌≡◌, refl,
  ◌∙◌, ap, inl, inr, arith, get_elem?, set, if◌then◌else◌, Bool-cases, Result-cases, Result, ok,
  err,
}
use workflow_mcp.Events.{ProviderSessionReference}
use workflow_mcp.Js.{JsValue}
use workflow_mcp.Journal.{
  JournalCall, JournalError, JournalMiss, JournalDecision, miss, hit, HistoricalCall, JournalRun,
}
use workflow_mcp.Journal.History.{bad_gap}
use workflow_mcp.Journal.Keys.{canonical_options, journal_key}
use workflow_mcp.Journal.Admission.Admit.{
  Search, search, call_at, consume, replaced_at, finish_call, begin_call, admit_found, admit_keyed,
  admit,
}
use workflow_mcp.Journal.Admission.Donors.{Finds, search-Finds, finish_call-historical}
use workflow_mcp.Journal.Results.{
  ResultOptions, unfinished, settle_call, record_provider_session, discard_provider_session,
  record_result,
}
use workflow_mcp.Journal.Runs.{
  RunCall, admits, records_session, discards_session, records_result, or_same, run_call, run_calls,
}

-- The parts of a run that decide what it may reuse.
pub record SameReuse (run after : JournalRun) : Type 0 where
  pub historical : after.historical ≡ run.historical
  pub sparse : after.exact_source_sparse ≡ run.exact_source_sparse
  pub prefix : after.can_reuse_prefix ≡ run.can_reuse_prefix

same : (run : JournalRun) → SameReuse run run
same run = record { historical = refl; sparse = refl; prefix = refl }

record_provider_session-same :
    (run : JournalRun) (decision : JournalMiss) (session : ProviderSessionReference)
    → SameReuse run (or_same run (record_provider_session run decision session))
unfolding record_provider_session
record_provider_session-same run decision session = elim (Result-cases (unfinished run decision)) [
  | inl (call, found) ↦
      rw (record_provider_session, found)
        (record { historical = refl; sparse = refl; prefix = refl })
  | inr (e, thrown) ↦ rw (record_provider_session, thrown) (same run)
]

discard_provider_session-same :
    (run : JournalRun) (decision : JournalMiss)
    → SameReuse run (or_same run (discard_provider_session run decision))
unfolding discard_provider_session
discard_provider_session-same run decision = elim (Result-cases (unfinished run decision)) [
  | inl (call, found) ↦
      rw (discard_provider_session, found)
        (record { historical = refl; sparse = refl; prefix = refl })
  | inr (e, thrown) ↦ rw (discard_provider_session, thrown) (same run)
]

record_result-same :
    (run : JournalRun) (decision : JournalMiss) (result : JsValue) (options : ResultOptions)
    → SameReuse run (or_same run (record_result run decision result options))
unfolding record_result settle_call
record_result-same run decision result options = elim (Result-cases (unfinished run decision)) [
  | inr (e, thrown) ↦ rw (record_result, thrown) (same run)
  | inl (call, found) ↦ elim (Bool-cases (bad_gap options.coverage_gap options.successful result)) [
    | inl bad ↦ rw (record_result, found, bad) (same run)
    | inr fine ↦
        rw (record_result, found, fine) (record { historical = refl; sparse = refl; prefix = refl })
  ]
]

-- Only an admission changes what a run may reuse.
pub run_call-same :
    (sha256 : String → String) (run : JournalRun) (call : RunCall)
    → ((request : JournalCall) → call ≡ admits request → ⊥)
    → SameReuse run (run_call sha256 run call)
unfolding run_call
run_call-same sha256 run (admits request) other = absurd (other request refl)
run_call-same sha256 run (records_session decision session) other =
    record_provider_session-same run decision session
run_call-same sha256 run (discards_session decision) other =
    discard_provider_session-same run decision
run_call-same sha256 run (records_result decision result options) other =
    record_result-same run decision result options

-- How many historical calls are not consumed.
unfoldable pub unconsumed : List HistoricalCall → ℕ
unconsumed [] = 0
unconsumed (call ∷ calls) = (if call.consumed then 0 else 1) + unconsumed calls

abbrev pub hit_of : Result JournalError JournalDecision → ℕ
hit_of (ok (hit taken)) = 1
hit_of (ok (miss decision)) = 0
hit_of (err e) = 0

-- How many admissions of a history are hits.
unfoldable pub hits : (String → String) → JournalRun → List RunCall → ℕ
hits sha256 run [] = 0
hits sha256 run (admits call ∷ calls) =
    hit_of (admit sha256 run call).1 + hits sha256 (run_call sha256 run (admits call)) calls
hits sha256 run (call ∷ calls) = hits sha256 (run_call sha256 run call) calls

abbrev consumed_or_true : Option HistoricalCall → Bool
consumed_or_true none = true
consumed_or_true (some call) = call.consumed

unconsumed-set :
    (calls : List HistoricalCall) (i : ℕ) (call : HistoricalCall)
    → get_elem? calls i ≡ some call
    → call.consumed ≡ false
    → suc (unconsumed (set calls i (record call { consumed = true }))) ≡ unconsumed calls
unfolding unconsumed
unconsumed-set [] i call at free = cc
unconsumed-set (c ∷ calls) zero call at free =
    let unused : c.consumed ≡ false = ap (λ o. consumed_or_true o) at ∙ free in
    rw unused (omega arith)
unconsumed-set (c ∷ calls) (suc i) call at free = omega (arith, unconsumed-set calls i call at free)

consume-unconsumed :
    (calls : List HistoricalCall) (i : ℕ) (call : HistoricalCall)
    → get_elem? calls i ≡ some call
    → call.consumed ≡ false
    → suc (unconsumed (consume (some i) calls)) ≡ unconsumed calls
unfolding consume
consume-unconsumed calls i call at free = rw (consume, at) (unconsumed-set calls i call at free)

module _ (sha256 : String → String) where
  admit_found-historical :
      (run : JournalRun) (call : JournalCall) (key : String) (found : Search)
      → (admit_found sha256 run call key found).0.historical
        ≡ consume (replaced_at found) run.historical
  unfolding begin_call
  admit_found-historical run call key found =
      finish_call-historical run call key (call_at run found.reused)
        (begin_call sha256 run call key found)

  hit_of-le : (answer : Result JournalError JournalDecision) → hit_of answer ≤ 1
  hit_of-le (ok (hit taken)) = omega arith
  hit_of-le (ok (miss decision)) = omega arith
  hit_of-le (err e) = omega arith

  admit_found-unconsumed :
      (run : JournalRun) (call : JournalCall) (key canonical : String) (found : Search)
      → Finds sha256 run key call.prompt canonical found
      → hit_of (ok (admit_found sha256 run call key found).1)
          + unconsumed (admit_found sha256 run call key found).0.historical
        ≤ unconsumed run.historical
  unfolding begin_call consume
  admit_found-unconsumed run call key canonical found (inl (gone, nothing)) =
      let stay : (admit_found sha256 run call key found).0.historical ≡ run.historical =
        admit_found-historical run call key found
        ∙ ap (λ place. consume place run.historical) nothing in
      let missed : hit_of (ok (admit_found sha256 run call key found).1) ≡ 0 =
        ap
          (λ place. hit_of (
            ok
              (finish_call run call key (call_at run place)
                (begin_call sha256 run call key found)).1))
          gone in
      omega (arith, missed, ap unconsumed stay)
  admit_found-unconsumed run call key canonical found
        (inr (i, source, at, free, linked, replaced, reused)) =
      let fewer = consume-unconsumed run.historical i source at free in
      let le = hit_of-le (ok (admit_found sha256 run call key found).1) in
      let moved : (admit_found sha256 run call key found).0.historical
          ≡ consume (some i) run.historical =
        admit_found-historical run call key found
        ∙ ap (λ place. consume place run.historical) replaced in
      omega (arith, fewer, le, ap unconsumed moved)

  admit-unconsumed :
      (run : JournalRun) (call : JournalCall)
      → hit_of (admit sha256 run call).1 + unconsumed (admit sha256 run call).0.historical
        ≤ unconsumed run.historical
  unfolding admit admit_keyed
  admit-unconsumed run call = elim (Result-cases (canonical_options call.options)) [
    | inr (e, thrown) ↦ rw (admit, thrown) (omega arith)
    | inl (canonical, made) ↦
        let key = journal_key sha256 run.previous_key call.prompt canonical in
        rw (admit, made)
          (admit_found-unconsumed run call key canonical
            (search sha256 run key call.prompt canonical)
            (search-Finds sha256 run key call.prompt canonical))
  ]

  -- In any history of a run, the hits and the historical calls that are still not consumed are
  -- together at most the historical calls that were not consumed at its start: no result is handed on
  -- twice.
  pub hits-le :
      (run : JournalRun) (calls : List RunCall)
      → hits sha256 run calls + unconsumed (run_calls sha256 run calls).historical
        ≤ unconsumed run.historical
  unfolding hits run_calls run_call
  hits-le run [] = omega arith
  hits-le run (admits call ∷ calls) =
      omega (arith, admit-unconsumed run call, hits-le (run_call sha256 run (admits call)) calls)
  hits-le run (records_session decision session ∷ calls) =
      let kept = ap unconsumed (record_provider_session-same run decision session).historical in
      omega (arith, kept, hits-le (run_call sha256 run (records_session decision session)) calls)
  hits-le run (discards_session decision ∷ calls) =
      let kept = ap unconsumed (discard_provider_session-same run decision).historical in
      omega (arith, kept, hits-le (run_call sha256 run (discards_session decision)) calls)
  hits-le run (records_result decision result options ∷ calls) =
      let kept = ap unconsumed (record_result-same run decision result options).historical in
      omega
        (arith, kept, hits-le (run_call sha256 run (records_result decision result options)) calls)
