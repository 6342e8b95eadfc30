-- ===== src/Journal/Store/Gaps/Runs.antt =====
-- The methods of a run keep its gaps proper.
use workflow_mcp.Common.{
  ℕ, String, Bool, true, false, not, ◌&&◌, List, [], ◌∷◌, Option, none, some, ◌≡◌, refl, inl, inr,
  All, All-append, All-filter, All-set, All-get_elem?, get_or_else, get_elem?, str_eq,
  if◌then◌else◌, Bool-cases, Option-cases, Result-cases,
}
use workflow_mcp.Events.{ProviderSessionReference}
use workflow_mcp.Js.{JsValue}
use workflow_mcp.Journal.{
  JournalCall, JournalRecord, started, JournalMiss, HistoricalCall, JournalRun, PendingCall,
}
use workflow_mcp.Journal.History.{bad_gap, is_true, not_null}
use workflow_mcp.Journal.Keys.{canonical_options, journal_key}
use workflow_mcp.Journal.Admission.Admit.{
  Search, search, call_at, replaced_at, compact, drop_replaced, consume, begin_call, finish_call,
  copied_record, admit_keyed, admit,
}
use workflow_mcp.Journal.Results.{
  ResultOptions, unfinished, settle_call, record_provider_session, discard_provider_session,
  record_result,
}
use workflow_mcp.Journal.Results.Settlement.{record_result-ok}
use workflow_mcp.Journal.Runs.{
  RunCall, admits, records_session, discards_session, records_result, or_same, run_call,
}
use workflow_mcp.Journal.Store.Gaps.{IsFine, IsFineCall, IsFineRun}

compact-IsFine :
    (retain : Bool) (key : String) (records : List JournalRecord)
    → All IsFine records
    → All IsFine (compact retain key records)
compact-IsFine true key records h = All-filter IsFine _ records h
compact-IsFine false key records h = h

drop_replaced-IsFine :
    (retain : Bool) (key : String) (replaced : Option HistoricalCall) (records : List JournalRecord)
    → All IsFine records
    → All IsFine (drop_replaced retain key replaced records)
drop_replaced-IsFine retain key none records h = h
drop_replaced-IsFine retain key (some call) records h =
    elim (Bool-cases (retain && not (str_eq call.key key))) [
      | inl drops ↦ rw drops (All-filter IsFine _ records h)
      | inr keeps ↦ rw keeps h
    ]

consume-IsFineCall :
    (place : Option ℕ) (calls : List HistoricalCall)
    → All IsFineCall calls
    → All IsFineCall (consume place calls)
unfolding consume
consume-IsFineCall none calls h = h
consume-IsFineCall (some i) calls h = elim (Option-cases (get_elem? calls i)) [
  | inl gone ↦ rw (consume, gone) h
  | inr (call, at) ↦
      rw (consume, at) (All-set IsFineCall calls i _ h (All-get_elem? IsFineCall calls i h at))
]

copied_record-IsFine :
    (key agent_id : String) (source : HistoricalCall)
    → IsFineCall source
    → IsFine (copied_record key agent_id source)
unfolding bad_gap
copied_record-IsFine key agent_id source h = elim (Bool-cases source.coverage_gap) [
  | inl gap ↦ rw (gap, h gap) refl
  | inr no_gap ↦ rw no_gap refl
]

call_at-IsFineCall :
    (run : JournalRun) (place : Option ℕ) (source : HistoricalCall)
    → All IsFineCall run.historical
    → call_at run place ≡ some source
    → IsFineCall source
call_at-IsFineCall run none source h at = cc
call_at-IsFineCall run (some i) source h at = All-get_elem? IsFineCall run.historical i h at

finish_call-IsFineRun :
    (run : JournalRun) (call : JournalCall) (key : String) (source : Option HistoricalCall)
    (begun : JournalRun)
    → ((c : HistoricalCall) → source ≡ some c → IsFineCall c)
    → IsFineRun begun
    → IsFineRun (finish_call run call key source begun).0
finish_call-IsFineRun run call key none begun f h = record {
  records = h.records;
  historical = h.historical;
}
finish_call-IsFineRun run call key (some source) begun f h = record {
  records =
      All-append IsFine begun.records (copied_record key call.agent_id source ∷ []) h.records
        (copied_record-IsFine key call.agent_id source (f source refl), tt);
  historical = h.historical;
}

module _ (sha256 : String → String) where
  begin_call-IsFineRun :
      (run : JournalRun) (call : JournalCall) (key : String) (found : Search)
      → IsFineRun run
      → IsFineRun (begin_call sha256 run call key found)
  unfolding begin_call
  begin_call-IsFineRun run call key found h = record {
    records =
        All-append IsFine _ (started key call.agent_id ∷ [])
          (drop_replaced-IsFine run.retain_sparse_history key (call_at run (replaced_at found)) _
            (compact-IsFine run.retain_sparse_history key run.records h.records))
          (tt, tt);
    historical = consume-IsFineCall (replaced_at found) run.historical h.historical;
  }

  admit-IsFineRun :
      (run : JournalRun) (call : JournalCall) → IsFineRun run → IsFineRun (admit sha256 run call).0
  unfolding admit admit_keyed
  admit-IsFineRun run call h = elim (Result-cases (canonical_options call.options)) [
    | inr (e, thrown) ↦
        rw (admit, thrown) (record { records = h.records; historical = h.historical })
    | inl (canonical, made) ↦
        let key = journal_key sha256 run.previous_key call.prompt canonical in
        let found = search sha256 run key call.prompt canonical in
        rw (admit, made)
          (finish_call-IsFineRun run call key (call_at run found.reused)
            (begin_call sha256 run call key found)
            (λ c e. call_at-IsFineCall run found.reused c h.historical e)
            (begin_call-IsFineRun run call key found h))
  ]

gap_kept :
    (gap successful : Option Bool) (result : JsValue)
    → bad_gap gap successful result ≡ false
    → bad_gap
        (if is_true gap then some true else none)
        (some (get_or_else successful (not_null result)))
        result
      ≡ false
unfolding bad_gap
gap_kept none successful result h = refl
gap_kept (some false) successful result h = refl
gap_kept (some true) none result h = cc
gap_kept (some true) (some b) result h = h

settle_call-IsFineRun :
    (run : JournalRun) (result : JsValue) (options : ResultOptions) (call : PendingCall)
    → bad_gap options.coverage_gap options.successful result ≡ false
    → IsFineRun run
    → IsFineRun (settle_call run result options call)
unfolding settle_call
settle_call-IsFineRun run result options call fine h = record {
  records =
      All-append IsFine run.records _ h.records
        (gap_kept options.coverage_gap options.successful result fine, tt);
  historical = h.historical;
}

record_result-IsFineRun :
    (run : JournalRun) (decision : JournalMiss) (result : JsValue) (options : ResultOptions)
    → IsFineRun run
    → IsFineRun (or_same run (record_result run decision result options))
record_result-IsFineRun run decision result options h =
    elim (Result-cases (record_result run decision result options)) [
      | inr (e, thrown) ↦ rw thrown h
      | inl (after, done) ↦
          let (call, found, fine, same) = record_result-ok run after decision result options done in
          rw (done, same) (settle_call-IsFineRun run result options call fine h)
    ]

record_provider_session-IsFineRun :
    (run : JournalRun) (decision : JournalMiss) (session : ProviderSessionReference)
    → IsFineRun run
    → IsFineRun (or_same run (record_provider_session run decision session))
unfolding record_provider_session
record_provider_session-IsFineRun run decision session h =
    elim (Result-cases (unfinished run decision)) [
      | inr (e, thrown) ↦ rw (record_provider_session, thrown) h
      | inl (call, found) ↦
          rw (record_provider_session, found)
            (record { records = h.records; historical = h.historical })
    ]

discard_provider_session-IsFineRun :
    (run : JournalRun) (decision : JournalMiss)
    → IsFineRun run
    → IsFineRun (or_same run (discard_provider_session run decision))
unfolding discard_provider_session
discard_provider_session-IsFineRun run decision h = elim (Result-cases (unfinished run decision)) [
  | inr (e, thrown) ↦ rw (discard_provider_session, thrown) h
  | inl (call, found) ↦
      rw (discard_provider_session, found)
        (record { records = h.records; historical = h.historical })
]

pub run_call-IsFineRun :
    (sha256 : String → String) (run : JournalRun) (call : RunCall)
    → IsFineRun run
    → IsFineRun (run_call sha256 run call)
unfolding run_call
run_call-IsFineRun sha256 run (admits call) h = admit-IsFineRun sha256 run call h
run_call-IsFineRun sha256 run (records_session decision session) h =
    record_provider_session-IsFineRun run decision session h
run_call-IsFineRun sha256 run (discards_session decision) h =
    discard_provider_session-IsFineRun run decision h
run_call-IsFineRun sha256 run (records_result decision result options) h =
    record_result-IsFineRun run decision result options h
