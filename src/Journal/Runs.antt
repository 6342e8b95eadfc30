-- ===== src/Journal/Runs.antt =====
-- The methods of a run of src/workflowJournal.ts in any order: what a host does with it.
pub mod Donations
pub mod Prefix
pub mod Resumption
use workflow_mcp.Common.{String, List, [], ◌∷◌, Result, ok, err}
use workflow_mcp.Events.{ProviderSessionReference}
use workflow_mcp.Js.{JsValue}
use workflow_mcp.Journal.{JournalCall, JournalError, JournalMiss, JournalDecision, JournalRun}
use workflow_mcp.Journal.Admission.Admit.{admit}
use workflow_mcp.Journal.Results.{
  ResultOptions, record_provider_session, discard_provider_session, record_result,
}

pub data RunCall : Type 0 where
  admits : JournalCall → RunCall
  records_session : JournalMiss → ProviderSessionReference → RunCall
  discards_session : JournalMiss → RunCall
  records_result : JournalMiss → JsValue → ResultOptions → RunCall

-- A method that throws before it changes anything.
abbrev pub or_same : JournalRun → Result JournalError JournalRun → JournalRun
or_same run (ok changed) = changed
or_same run (err e) = run

unfoldable pub run_call : (String → String) → JournalRun → RunCall → JournalRun
run_call sha256 run (admits call) = (admit sha256 run call).0
run_call sha256 run (records_session decision session) =
    or_same run (record_provider_session run decision session)
run_call sha256 run (discards_session decision) =
    or_same run (discard_provider_session run decision)
run_call sha256 run (records_result decision result options) =
    or_same run (record_result run decision result options)

unfoldable pub run_calls : (String → String) → JournalRun → List RunCall → JournalRun
run_calls sha256 run [] = run
run_calls sha256 run (call ∷ calls) = run_calls sha256 (run_call sha256 run call) calls
