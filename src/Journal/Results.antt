-- ===== src/Journal/Results.antt =====
-- `recordProviderSession`, `discardProviderSession`, `recordResult` and `snapshot` of
-- `InMemoryWorkflowJournalRun`.
pub mod Settlement
use workflow_mcp.Common.{
  ℕ, String, Bool, true, false, not, ◌&&◌, List, [], ◌∷◌, ◌++◌, Option, none, some, filter, any,
  map, find, str_eq, ◌==◌, if◌then◌else◌, get_or_else, Result, ok, err, ◌>>=◌, ◌>>◌, throw_if,
  update_first,
}
use workflow_mcp.Events.{ProviderSessionReference}
use workflow_mcp.Js.{JsValue}
use workflow_mcp.Journal.{
  JournalRecord, finished, JournalSessionRecord, JournalImportedCall, JournalSnapshot, JournalError,
  bad_coverage_gap, not_unfinished, JournalMiss, PendingCall, JournalRun,
}
use workflow_mcp.Journal.History.{bad_gap, is_true, not_null}

-- The optional argument of `recordResult`.
pub record ResultOptions : Type 0 where
  pub successful : Option Bool
  pub coverage_gap : Option Bool

abbrev pub is_index : ℕ → PendingCall → Bool
is_index index call = call.decision.call_index == index

-- The pending call of a decision, unless it is completed or of another key or agent.
abbrev pub check_pending : JournalMiss → Option PendingCall → Result JournalError PendingCall
check_pending decision none = err not_unfinished
check_pending decision (some call) =
    if not call.completed
      && (str_eq call.decision.key decision.key && str_eq call.decision.agent_id decision.agent_id)
    then ok call
    else err not_unfinished

unfoldable pub unfinished : JournalRun → JournalMiss → Result JournalError PendingCall
unfinished run decision = check_pending decision (find (is_index decision.call_index) run.pending)

abbrev pub is_session_of : JournalMiss → JournalSessionRecord → Bool
is_session_of decision r = str_eq r.key decision.key && str_eq r.agent_id decision.agent_id

abbrev pub with_session : ProviderSessionReference → JournalSessionRecord → JournalSessionRecord
with_session session r = record r { session = session }

abbrev pub put_session :
    JournalMiss → ProviderSessionReference → List JournalSessionRecord → List JournalSessionRecord
put_session decision session sessions =
    if any (is_session_of decision) sessions
    then update_first (is_session_of decision) (with_session session) sessions
    else sessions
      ++ record { key = decision.key; agent_id = decision.agent_id; session = session } ∷ []

unfoldable pub record_provider_session :
    JournalRun → JournalMiss → ProviderSessionReference → Result JournalError JournalRun
record_provider_session run decision session = unfinished run decision >>= λ call.
    ok (record run { sessions = put_session call.decision session run.sessions })

abbrev pub drop_sessions : JournalMiss → List JournalSessionRecord → List JournalSessionRecord
drop_sessions decision = filter λ r. not (is_session_of decision r)

unfoldable pub discard_provider_session : JournalRun → JournalMiss → Result JournalError JournalRun
discard_provider_session run decision = unfinished run decision >>= λ call.
    ok (record run { sessions = drop_sessions call.decision run.sessions })

abbrev pub complete : PendingCall → PendingCall
complete call = record call { completed = true }

-- The run with the result of an unfinished call.
unfoldable pub settle_call : JournalRun → JsValue → ResultOptions → PendingCall → JournalRun
settle_call run result options call = record run {
  sessions =
      if is_true options.coverage_gap
      then drop_sessions call.decision run.sessions
      else run.sessions;
  pending = update_first (is_index call.decision.call_index) complete run.pending;
  records =
      run.records
      ++ finished (record {
        key = call.decision.key;
        agent_id = call.decision.agent_id;
        result = result;
        successful = some (get_or_else options.successful (not_null result));
        coverage_gap = if is_true options.coverage_gap then some true else none;
      })
        ∷ [];
}

unfoldable pub record_result :
    JournalRun → JournalMiss → JsValue → ResultOptions → Result JournalError JournalRun
record_result run decision result options = unfinished run decision >>= λ call.
    throw_if (bad_gap options.coverage_gap options.successful result) bad_coverage_gap
    >> ok (settle_call run result options call)

abbrev none_if_empty {ℓ} : {A : Type ℓ} → List A → Option (List A)
none_if_empty [] = none
none_if_empty (x ∷ xs) = some (x ∷ xs)

unfoldable pub run_snapshot : JournalRun → JournalSnapshot
run_snapshot run = record {
  identity = run.identity;
  records = run.records;
  sessions = none_if_empty run.sessions;
  imported_calls = none_if_empty run.imported_calls;
}
