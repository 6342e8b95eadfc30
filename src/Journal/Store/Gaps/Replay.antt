-- ===== src/Journal/Store/Gaps/Replay.antt =====
-- Records with proper gaps are read into historical calls with proper gaps.
use workflow_mcp.Common.{
  false, List, [], ◌∷◌, ◌≡◌, refl, arith, All, All-append, ok, get_or_else, All-update_first,
}
use workflow_mcp.Journal.{
  JournalRecord, started, finished, JournalResultRecord, JournalSessionRecord, JournalImportedCall,
  JournalSnapshot, HistoricalCall,
}
use workflow_mcp.Journal.History.{
  bad_gap, assert_coverage_gap_record, new_call, settle, record_id, is_pending_call, is_call,
  replay_record, replay_records, with_session, with_prompt_key, add_sessions, add_prompt_keys,
  historical_calls,
}
use workflow_mcp.Journal.Store.Gaps.{IsFine, IsFineCall}

settle-IsFineCall :
    (r : JournalResultRecord) (call : HistoricalCall)
    → bad_gap r.coverage_gap r.successful r.result ≡ false
    → IsFineCall (settle r call)
unfolding bad_gap
settle-IsFineCall r call fine gap = ground arith

replay_record-IsFineCall :
    (r : JournalRecord) (calls : List HistoricalCall)
    → IsFine r
    → All IsFineCall calls
    → All IsFineCall (replay_record r calls)
replay_record-IsFineCall (started key agent_id) calls fine h =
    All-append IsFineCall calls (new_call key agent_id ∷ []) h ((λ e. cc), tt)
replay_record-IsFineCall (finished r) calls fine h =
    All-update_first IsFineCall (is_pending_call (record_id r.key r.agent_id)) (settle r)
      (λ call k. settle-IsFineCall r call fine) calls h

pub replay_records-IsFine :
    (records : List JournalRecord) (calls : List HistoricalCall)
    → All IsFine records
    → All IsFineCall calls
    → (replayed : List HistoricalCall) × (replay_records records calls ≡ ok replayed)
      × All IsFineCall replayed
unfolding replay_records assert_coverage_gap_record
replay_records-IsFine [] calls fine h = (calls, refl, h)
replay_records-IsFine (started key agent_id ∷ records) calls fine h =
    replay_records-IsFine records (replay_record (started key agent_id) calls) fine.1
      (replay_record-IsFineCall (started key agent_id) calls tt h)
replay_records-IsFine (finished r ∷ records) calls fine h =
    let (replayed, done, fine_calls) =
      replay_records-IsFine records (replay_record (finished r) calls) fine.1
        (replay_record-IsFineCall (finished r) calls fine.0 h) in
    (replayed, rw (replay_records, fine.0) done, fine_calls)

add_sessions-IsFineCall :
    (sessions : List JournalSessionRecord) (calls : List HistoricalCall)
    → All IsFineCall calls
    → All IsFineCall (add_sessions sessions calls)
unfolding add_sessions
add_sessions-IsFineCall [] calls h = h
add_sessions-IsFineCall (r ∷ sessions) calls h = add_sessions-IsFineCall sessions _ (
    All-update_first IsFineCall (is_call (record_id r.key r.agent_id)) (with_session r.session)
      (λ call k. k) calls h)

add_prompt_keys-IsFineCall :
    (imported : List JournalImportedCall) (calls : List HistoricalCall)
    → All IsFineCall calls
    → All IsFineCall (add_prompt_keys imported calls)
unfolding add_prompt_keys
add_prompt_keys-IsFineCall [] calls h = h
add_prompt_keys-IsFineCall (r ∷ imported) calls h = add_prompt_keys-IsFineCall imported _ (
    All-update_first IsFineCall (is_call (record_id r.key r.agent_id))
      (with_prompt_key r.prompt_key) (λ call k. k) calls h)

pub historical_calls-IsFine :
    (snapshot : JournalSnapshot)
    → All IsFine snapshot.records
    → (calls : List HistoricalCall) × (historical_calls snapshot ≡ ok calls) × All IsFineCall calls
unfolding historical_calls
historical_calls-IsFine snapshot fine =
    let (replayed, done, fine_calls) = replay_records-IsFine snapshot.records [] fine tt in
    (
      add_prompt_keys (get_or_else snapshot.imported_calls [])
          (add_sessions (get_or_else snapshot.sessions []) replayed),
      rw (historical_calls, done) refl,
      add_prompt_keys-IsFineCall (get_or_else snapshot.imported_calls []) _
          (add_sessions-IsFineCall (get_or_else snapshot.sessions []) replayed fine_calls),
    )
