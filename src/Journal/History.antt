-- ===== src/Journal/History.antt =====
-- `assertCoverageGapRecord`, `assertImportedCalls` and `historicalCalls`: what a snapshot tells of the
-- previous generation.
use workflow_mcp.Common.{
  String, Bool, true, false, not, ◌&&◌, ◌||◌, List, [], ◌∷◌, ◌++◌, Option, none, some, any, str_eq,
  if◌then◌else◌, get_or_else, Result, ok, ◌>>=◌, ◌>>◌, throw_if, update_first,
}
use workflow_mcp.Events.{ProviderSessionReference}
use workflow_mcp.Events.Failure.{is_workflow_agent_failure_placeholder}
use workflow_mcp.Js.{JsValue}
use workflow_mcp.Js.Json.{◌⧺◌}
use workflow_mcp.Journal.{
  JournalRecord, started, finished, JournalResultRecord, JournalSessionRecord, JournalImportedCall,
  JournalSnapshot, JournalError, bad_coverage_gap, bad_imported_call, HistoricalCall,
}
use workflow_mcp.Journal.Keys.{is_journal_key, is_prompt_key}

abbrev pub is_true : Option Bool → Bool
is_true flag = get_or_else flag false

-- `flag === false`
abbrev pub is_false : Option Bool → Bool
is_false flag = not (get_or_else flag true)

abbrev pub not_null : JsValue → Bool
not_null JsValue.null = false
not_null other = true

-- A coverage gap that is not an unsuccessful placeholder.
unfoldable pub bad_gap : Option Bool → Option Bool → JsValue → Bool
bad_gap coverage_gap successful result =
    is_true coverage_gap
    && (not (is_false successful) || not (is_workflow_agent_failure_placeholder result))

unfoldable pub assert_coverage_gap_record : JournalRecord → Result JournalError (Unit {0})
unfolding bad_gap
assert_coverage_gap_record (started key agent_id) = ok tt
assert_coverage_gap_record (finished r) =
    throw_if (bad_gap r.coverage_gap r.successful r.result) bad_coverage_gap

-- `${record.key}\0${record.agentId}`
abbrev pub record_id : String → String → String
record_id key agent_id = key ⧺ ("\0" ⧺ agent_id)

abbrev pub starts : List JournalRecord → List String
starts [] = []
starts (started key agent_id ∷ records) = record_id key agent_id ∷ starts records
starts (finished r ∷ records) = starts records

abbrev check_imported :
    List String → List String → List JournalImportedCall → Result JournalError (Unit {0})
check_imported ids seen [] = ok tt
check_imported ids seen (call ∷ calls) =
    let id = record_id call.key call.agent_id in
    throw_if
      (not (is_journal_key call.key)
        || (str_eq call.agent_id ""
            || (not (is_prompt_key call.prompt_key)
                || (not (any (str_eq id) ids) || any (str_eq id) seen))))
      bad_imported_call
    >> check_imported ids (id ∷ seen) calls

unfoldable pub assert_imported_calls : JournalSnapshot → Result JournalError (Unit {0})
assert_imported_calls snapshot = elim snapshot.imported_calls [
  | none ↦ ok tt
  | some calls ↦ check_imported (starts snapshot.records) [] calls
]

abbrev pub new_call : String → String → HistoricalCall
new_call key agent_id = record {
  key = key;
  agent_id = agent_id;
  has_result = false;
  reusable = false;
  coverage_gap = false;
  result = JsValue.undefined;
  provider_session = none;
  imported_prompt_key = none;
  consumed = false;
}

abbrev pub is_call : String → HistoricalCall → Bool
is_call id call = str_eq (record_id call.key call.agent_id) id

-- The calls of an identity get their results in the order of their starts: the one that
-- `pending.get(recordId)?.shift()` yields is the first without a result.
abbrev pub is_pending_call : String → HistoricalCall → Bool
is_pending_call id call = not call.has_result && is_call id call

abbrev pub settle : JournalResultRecord → HistoricalCall → HistoricalCall
settle r call = record call {
  has_result = true;
  result = r.result;
  coverage_gap = is_true r.coverage_gap;
  reusable = if is_true r.coverage_gap then false else get_or_else r.successful (not_null r.result);
}

abbrev pub replay_record : JournalRecord → List HistoricalCall → List HistoricalCall
replay_record (started key agent_id) calls = calls ++ new_call key agent_id ∷ []
replay_record (finished r) calls =
    update_first (is_pending_call (record_id r.key r.agent_id)) (settle r) calls

unfoldable pub replay_records :
    List JournalRecord → List HistoricalCall → Result JournalError (List HistoricalCall)
replay_records [] calls = ok calls
replay_records (r ∷ records) calls =
    assert_coverage_gap_record r >> replay_records records (replay_record r calls)

abbrev pub with_session : ProviderSessionReference → HistoricalCall → HistoricalCall
with_session session call = record call { provider_session = some session }

abbrev pub with_prompt_key : String → HistoricalCall → HistoricalCall
with_prompt_key prompt_key call = record call { imported_prompt_key = some prompt_key }

unfoldable pub add_sessions : List JournalSessionRecord → List HistoricalCall → List HistoricalCall
add_sessions [] calls = calls
add_sessions (r ∷ rest) calls =
    add_sessions rest
      (update_first (is_call (record_id r.key r.agent_id)) (with_session r.session) calls)

unfoldable pub add_prompt_keys :
    List JournalImportedCall → List HistoricalCall → List HistoricalCall
add_prompt_keys [] calls = calls
add_prompt_keys (r ∷ rest) calls =
    add_prompt_keys rest
      (update_first (is_call (record_id r.key r.agent_id)) (with_prompt_key r.prompt_key) calls)

unfoldable pub historical_calls : JournalSnapshot → Result JournalError (List HistoricalCall)
historical_calls snapshot = do
  calls ← replay_records snapshot.records []
  ok (
      add_prompt_keys (get_or_else snapshot.imported_calls [])
        (add_sessions (get_or_else snapshot.sessions []) calls))
