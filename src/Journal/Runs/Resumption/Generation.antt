-- ===== src/Journal/Runs/Resumption/Generation.antt =====
-- The generation that is resumed: what its run holds after its calls.
use mathlib.Core.List.{append_assoc, append-nil}
use workflow_mcp.Common.{
  ℕ, suc, ◌<◌, String, false, List, [], ◌∷◌, ◌++◌, none, some, ◌≡◌, refl, ◌∙◌, ap, arith, All,
  All-map, All-append, find, eq_refl, ok, ◌>>=◌, >>=-eq-ok, update_first, update_first-skip,
}
use workflow_mcp.Js.{JsValue}
use workflow_mcp.Journal.{
  JournalIdentity, JournalCall, JournalRecord, started, finished, JournalMiss, miss, PendingCall,
  JournalRun,
}
use workflow_mcp.Journal.History.{bad_gap}
use workflow_mcp.Journal.Keys.{canonical_options, journal_key, create_journal_key}
use workflow_mcp.Journal.Admission.{
  max_imported_option_proof_hashes, max_imported_option_proof_bytes, keyed_hit,
}
use workflow_mcp.Journal.Admission.Admit.{search, begin_call, consume, admit_keyed, admit}
use workflow_mcp.Journal.Results.{
  complete, check_pending, unfinished, settle_call, record_result, is_index,
}
use workflow_mcp.Journal.Runs.Resumption.{
  Work, no_options, chain, chain-cons, perform, generated, result_record,
}

-- A first generation's run.
abbrev pub first_run :
    JournalIdentity → ℕ → String → List JournalRecord → List PendingCall → JournalRun
first_run identity count key records pending = record {
  identity = identity;
  historical = [];
  historical_keys = "" ∷ [];
  records = records;
  sessions = [];
  imported_calls = [];
  pending = pending;
  previous_key = key;
  next_call_index = count;
  can_reuse_prefix = false;
  exact_source_sparse = false;
  retain_sparse_history = false;
  reuse_coverage_gaps = false;
  track_imported_prompts = false;
  remaining_hashes = max_imported_option_proof_hashes;
  remaining_bytes = max_imported_option_proof_bytes;
}

abbrev decision_of : ℕ → String → JournalCall → JournalMiss
decision_of count key call = record {
  call_index = count;
  key = key;
  agent_id = call.agent_id;
  provider_session = none;
}

abbrev pending_of : ℕ → String → JournalCall → PendingCall
pending_of count key call = record { decision = decision_of count key call; completed = false }

module _ (sha256 : String → String) where
  first_run-admit_keyed :
      (identity : JournalIdentity) (count : ℕ) (before key canonical : String)
      (records : List JournalRecord) (pending : List PendingCall) (call : JournalCall)
      → admit_keyed sha256 (first_run identity count before records pending) call key canonical ≡ (
        first_run identity
            (suc count)
            key
            (records ++ started key call.agent_id ∷ [])
            (pending ++ pending_of count key call ∷ []),
        miss (decision_of count key call),
      )
  unfolding admit_keyed search keyed_hit begin_call consume
  first_run-admit_keyed identity count before key canonical records pending call = refl

abbrev pub IsEarlier : ℕ → PendingCall → Type 0
IsEarlier count call = call.decision.call_index < count

not_index :
    (count : ℕ) (pending : List PendingCall)
    → All (IsEarlier count) pending
    → All (λ call. is_index count call ≡ false) pending
not_index count = All-map λ call earlier. ground arith

find-last :
    (count : ℕ) (pending : List PendingCall) (call : PendingCall)
    → call.decision.call_index ≡ count
    → All (λ other. is_index count other ≡ false) pending
    → find (is_index count) (pending ++ call ∷ []) ≡ some call
find-last count [] call e h = ground arith
find-last count (other ∷ pending) call e h = ground (arith, h.0, find-last count pending call e h.1)

completes-last :
    (count : ℕ) (pending : List PendingCall) (call : PendingCall)
    → call.decision.call_index ≡ count
    → All (λ other. is_index count other ≡ false) pending
    → update_first (is_index count) complete (pending ++ call ∷ []) ≡ pending ++ complete call ∷ []
unfolding update_first
completes-last count pending call e h =
    update_first-skip (is_index count) complete pending (call ∷ []) h
    ∙ ap (◌++◌ pending) (ground arith)

check_pending_self :
    (count : ℕ) (key : String) (call : JournalCall)
    → check_pending (decision_of count key call) (some (pending_of count key call))
      ≡ ok (pending_of count key call)
check_pending_self count key call = rw (eq_refl key, eq_refl call.agent_id) refl

module _ (identity : JournalIdentity) (count : ℕ) (key : String) (records : List JournalRecord)
    (pending : List PendingCall) (call : JournalCall)
    (earlier : All (IsEarlier count) pending) where
  admitted_run : JournalRun
  admitted_run =
      first_run identity (suc count) key records (pending ++ pending_of count key call ∷ [])

  unfinished-last :
      unfinished admitted_run (decision_of count key call) ≡ ok (pending_of count key call)
  unfolding unfinished admitted_run
  unfinished-last =
      ap (check_pending (decision_of count key call))
        (find-last count pending (pending_of count key call) refl (not_index count pending earlier))
      ∙ check_pending_self count key call

  first_run-record_result :
      (result : JsValue)
      → record_result admitted_run (decision_of count key call) result no_options
        ≡ ok (
            first_run identity
              (suc count)
              key
              (records ++ finished (result_record key (call, result)) ∷ [])
              (pending ++ complete (pending_of count key call) ∷ []))
  unfolding record_result settle_call bad_gap admitted_run
  first_run-record_result result =
      rw (record_result, unfinished-last)
        (ap
          (λ calls. ok (
            first_run identity (suc count) key
              (records ++ finished (result_record key (call, result)) ∷ []) calls))
          (completes-last count pending (pending_of count key call) refl
            (not_index count pending earlier)))

pub create_journal_key-ok :
    (sha256 : String → String) (before : String) (call : JournalCall) (key : String)
    → create_journal_key sha256 before call.prompt call.options ≡ ok key
    → (canonical : String) × (canonical_options call.options ≡ ok canonical)
      × (journal_key sha256 before call.prompt canonical ≡ key)
unfolding create_journal_key
create_journal_key-ok sha256 before call key h =
    let (canonical, made, same) =
      >>=-eq-ok (canonical_options call.options)
        (λ canonical. ok (journal_key sha256 before call.prompt canonical)) h in
    (canonical, made, cc)

module _ (sha256 : String → String) (identity : JournalIdentity) where
  -- One call, with its result.
  perform_one :
      (count : ℕ) (before key : String) (records : List JournalRecord) (pending : List PendingCall)
      (work : Work) (works : List Work)
      → All (IsEarlier count) pending
      → create_journal_key sha256 before work.0.prompt work.0.options ≡ ok key
      → perform sha256 (first_run identity count before records pending) (work ∷ works)
        ≡ perform sha256
            (first_run identity
              (suc count)
              key
              ((records ++ started key work.0.agent_id ∷ [])
                ++ finished (result_record key work) ∷ [])
              (pending ++ complete (pending_of count key work.0) ∷ []))
            works
  unfolding perform admit admitted_run
  perform_one count before key records pending work works earlier made =
      let (canonical, options, same) = create_journal_key-ok sha256 before work.0 key made in
      rw
        (
          perform,
          admit,
          options,
          same,
          first_run-admit_keyed sha256 identity count before key canonical records pending work.0,
        )
        (ap (λ answer. answer >>= λ after. perform sha256 after works)
          (first_run-record_result identity count key (records ++ started key work.0.agent_id ∷ [])
            pending work.0 earlier work.1))

  -- The calls of a first generation leave their records in the order of the calls.
  pub perform-first_run :
      (count : ℕ) (before : String) (records : List JournalRecord) (pending : List PendingCall)
      (works : List Work) (keys : List String)
      → All (IsEarlier count) pending
      → chain sha256 before works ≡ ok keys
      → (end : ℕ) × (last : String) × (calls : List PendingCall) × (perform sha256
            (first_run identity count before records pending)
            works
          ≡ ok (first_run identity end last (records ++ generated keys works) calls))
  unfolding perform chain generated
  perform-first_run count before records pending [] keys earlier chained =
      let none_left : keys ≡ [] = cc in (count, before, pending, rw (none_left, append-nil) refl)
  perform-first_run count before records pending (work ∷ works) keys earlier chained =
      let (key, others, made, follow, same) = chain-cons sha256 before work works keys chained in
      let (end, last, calls, done) =
        perform-first_run (suc count) key
          ((records ++ started key work.0.agent_id ∷ []) ++ finished (result_record key work) ∷ [])
          (pending ++ complete (pending_of count key work.0) ∷ []) works others
          (All-append (IsEarlier (suc count)) pending _
            (All-map (λ c (l : c.decision.call_index < count). omega arith) pending earlier)
            (omega arith, tt))
          follow in
      let joined : ((records ++ started key work.0.agent_id ∷ [])
              ++ finished (result_record key work) ∷ [])
            ++ generated others works
          ≡ records ++ generated keys (work ∷ works) =
        rw (same, append_assoc, append_assoc) refl in
      (
        end,
        last,
        calls,
        perform_one count before key records pending work works earlier made
            ∙ done
            ∙ ap (λ all. ok (first_run identity end last all calls)) joined,
      )
