-- ===== src/Journal/Store/Gaps.antt =====
-- The coverage gaps that a journal of src/workflowJournal.ts holds are all unsuccessful failure
-- placeholders, so its own checks never refuse what it recorded.
pub mod Replay
pub mod Runs
pub mod Beginning
pub mod Histories
use workflow_mcp.Common.{Bool, true, false, ◌≡◌, All, IsOk}
use workflow_mcp.Events.Failure.{is_workflow_agent_failure_placeholder}
use workflow_mcp.Journal.{JournalRecord, started, finished, HistoricalCall, JournalRun}
use workflow_mcp.Journal.History.{bad_gap}

-- A record whose coverage gap is a proper one.
abbrev pub IsFine : JournalRecord → Type 0
IsFine (started key agent_id) = Unit {0}
IsFine (finished r) = bad_gap r.coverage_gap r.successful r.result ≡ false

abbrev pub IsFineCall : HistoricalCall → Type 0
IsFineCall call =
    call.coverage_gap ≡ true → is_workflow_agent_failure_placeholder call.result ≡ true

pub record IsFineRun (run : JournalRun) : Type 0 where
  pub records : All IsFine run.records
  pub historical : All IsFineCall run.historical
