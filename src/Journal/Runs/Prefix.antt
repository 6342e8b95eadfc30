-- ===== src/Journal/Runs/Prefix.antt =====
-- Reuse of the longest unchanged prefix, over the histories of a run of src/workflowJournal.ts.
use workflow_mcp.Common.{
  String, false, List, [], ◌∷◌, Option, none, some, ◌≡◌, ◌≢◌, refl, sym, subst, ◌∙◌, ap, inl, inr,
  Result-cases, ok,
}
use workflow_mcp.Journal.{
  JournalCall, JournalMiss, JournalHit, miss, hit, HistoricalCall, JournalRun,
}
use workflow_mcp.Journal.Keys.{canonical_options, journal_key}
use workflow_mcp.Journal.Admission.{keyed_hit}
use workflow_mcp.Journal.Admission.Admit.{
  search, search_prompt, prompt_key_of, call_at, begin_call, finish_call, admit_keyed, admit,
}
use workflow_mcp.Journal.Admission.Donors.{admit-ok}
use workflow_mcp.Journal.Runs.{
  RunCall, admits, records_session, discards_session, records_result, run_call, run_calls,
}
use workflow_mcp.Journal.Runs.Donations.{SameReuse, run_call-same}

-- A run that reuses nothing.
pub record IsLive (run : JournalRun) : Type 0 where
  pub sparse : run.exact_source_sparse ≡ false
  pub prefix : run.can_reuse_prefix ≡ false

module _ (sha256 : String → String) where
  search-IsLive :
      (run : JournalRun) (key prompt canonical : String)
      → IsLive run
      → (search sha256 run key prompt canonical).reused ≡ none
  unfolding search keyed_hit
  search-IsLive run key prompt canonical live =
      let gone : keyed_hit run key ≡ none = rw (live.prefix, live.sparse) refl in
      rw (search, gone) (by_prompt (prompt_key_of sha256 run prompt))
    where
      by_prompt :
          (prompt_key : Option String)
          → (search_prompt sha256 run prompt canonical prompt_key).reused ≡ none
      by_prompt none = refl
      by_prompt (some prompt_key) = rw live.sparse refl

  -- A live run has no hits.
  admit-IsLive :
      (run : JournalRun) (call : JournalCall) (taken : JournalHit)
      → IsLive run
      → (admit sha256 run call).1 ≡ ok (hit taken)
      → ⊥
  unfolding admit_keyed
  admit-IsLive run call taken live h =
      let (canonical, made, keyed) = admit-ok sha256 run call (hit taken) h in
      let key = journal_key sha256 run.previous_key call.prompt canonical in
      let found = search sha256 run key call.prompt canonical in
      let missed =
        ap
          (λ place.
            (finish_call run call key (call_at run place) (begin_call sha256 run call key found)).1)
          (search-IsLive run key call.prompt canonical live) in
      cc (sym missed ∙ ap (λ p. p.1) keyed)

  finish_call-flags :
      (run : JournalRun) (call : JournalCall) (key : String) (source : Option HistoricalCall)
      (begun : JournalRun)
      → begun.exact_source_sparse ≡ run.exact_source_sparse
      → begun.can_reuse_prefix ≡ run.can_reuse_prefix
      → run.exact_source_sparse ≡ false
      → run.can_reuse_prefix ≡ false
      → IsLive (finish_call run call key source begun).0
  finish_call-flags run call key none begun e f sparse prefix = record {
    sparse = e ∙ sparse;
    prefix = rw sparse refl;
  }
  finish_call-flags run call key (some source) begun e f sparse prefix = record {
    sparse = e ∙ sparse;
    prefix = f ∙ prefix;
  }

  admit-stays :
      (run : JournalRun) (call : JournalCall) → IsLive run → IsLive (admit sha256 run call).0
  unfolding admit admit_keyed begin_call
  admit-stays run call live = elim (Result-cases (canonical_options call.options)) [
    | inr (e, thrown) ↦ rw (admit, thrown) (record { sparse = live.sparse; prefix = live.prefix })
    | inl (canonical, made) ↦
        let key = journal_key sha256 run.previous_key call.prompt canonical in
        let found = search sha256 run key call.prompt canonical in
        rw (admit, made)
          (finish_call-flags run call key (call_at run found.reused)
            (begin_call sha256 run call key found) refl refl live.sparse live.prefix)
  ]

  finish_call-miss :
      (run : JournalRun) (call : JournalCall) (key : String) (source : Option HistoricalCall)
      (begun : JournalRun) (missed : JournalMiss)
      → begun.exact_source_sparse ≡ run.exact_source_sparse
      → run.exact_source_sparse ≡ false
      → (finish_call run call key source begun).1 ≡ miss missed
      → IsLive (finish_call run call key source begun).0
  finish_call-miss run call key none begun missed e sparse h = record {
    sparse = e ∙ sparse;
    prefix = rw sparse refl;
  }
  finish_call-miss run call key (some source) begun missed e sparse h = cc

  admit-miss :
      (run : JournalRun) (call : JournalCall) (missed : JournalMiss)
      → run.exact_source_sparse ≡ false
      → (admit sha256 run call).1 ≡ ok (miss missed)
      → IsLive (admit sha256 run call).0
  unfolding admit_keyed begin_call
  admit-miss run call missed sparse h =
      let (canonical, made, keyed) = admit-ok sha256 run call (miss missed) h in
      let key = journal_key sha256 run.previous_key call.prompt canonical in
      let found = search sha256 run key call.prompt canonical in
      subst IsLive (ap (λ p. p.0) keyed) (
        finish_call-miss run call key (call_at run found.reused)
          (begin_call sha256 run call key found) missed refl sparse (ap (λ p. p.1) keyed))

  keep-IsLive : (run after : JournalRun) → SameReuse run after → IsLive run → IsLive after
  keep-IsLive run after same live = record {
    sparse = same.sparse ∙ live.sparse;
    prefix = same.prefix ∙ live.prefix;
  }

  run_call-IsLive :
      (run : JournalRun) (call : RunCall) → IsLive run → IsLive (run_call sha256 run call)
  unfolding run_call
  run_call-IsLive run (admits call) live = admit-stays run call live
  run_call-IsLive run (records_session decision session) live =
      keep-IsLive run _ (run_call-same sha256 run (records_session decision session) (λ r e. cc))
        live
  run_call-IsLive run (discards_session decision) live =
      keep-IsLive run _ (run_call-same sha256 run (discards_session decision) (λ r e. cc)) live
  run_call-IsLive run (records_result decision result options) live =
      keep-IsLive run _
        (run_call-same sha256 run (records_result decision result options) (λ r e. cc)) live

  run_calls-IsLive :
      (run : JournalRun) (calls : List RunCall) → IsLive run → IsLive (run_calls sha256 run calls)
  unfolding run_calls
  run_calls-IsLive run [] live = live
  run_calls-IsLive run (call ∷ calls) live =
      run_calls-IsLive (run_call sha256 run call) calls (run_call-IsLive run call live)

  -- Without a sparse history, once an admission misses, no later admission of the run is a hit,
  -- whatever is called between them.
  pub run_calls-prefix :
      (run : JournalRun) (call : JournalCall) (missed : JournalMiss) (calls : List RunCall)
      (later : JournalCall) (taken : JournalHit)
      → run.exact_source_sparse ≡ false
      → (admit sha256 run call).1 ≡ ok (miss missed)
      → (admit sha256 (run_calls sha256 run (admits call ∷ calls)) later).1 ≢ ok (hit taken)
  unfolding run_calls run_call
  run_calls-prefix run call missed calls later taken sparse h =
      admit-IsLive (run_calls sha256 (admit sha256 run call).0 calls) later taken
        (run_calls-IsLive (admit sha256 run call).0 calls (admit-miss run call missed sparse h))
