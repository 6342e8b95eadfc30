-- ===== src/Journal/Runs/Resumption.antt =====
-- A generation of src/workflowJournal.ts whose calls all succeed, and the run that resumes it.
pub mod Generation
pub mod Replay
use workflow_mcp.Common.{
  ℕ, String, Bool, true, false, List, [], ◌∷◌, Option, none, some, ◌≡◌, Result, ok, err, ◌>>=◌,
  >>=-eq-ok,
}
use workflow_mcp.Js.{JsValue}
use workflow_mcp.Journal.{
  JournalIdentity, JournalCall, JournalRecord, JournalResultRecord, JournalError, JournalMiss,
  JournalDecision, miss, hit, started, finished, HistoricalCall, JournalRun,
}
use workflow_mcp.Journal.History.{not_null, new_call, settle}
use workflow_mcp.Journal.Keys.{create_journal_key}
use workflow_mcp.Journal.Admission.Admit.{admit}
use workflow_mcp.Journal.Results.{ResultOptions, record_result}

-- A call and the result that its agent gave.
abbrev pub Work : Type 0
Work = JournalCall × JsValue

-- `recordResult(decision, result)`
abbrev pub no_options : ResultOptions
no_options = record { successful = none; coverage_gap = none }

abbrev pub answer_of : Result JournalError JournalDecision → Option JsValue
answer_of (err e) = none
answer_of (ok (miss decision)) = none
answer_of (ok (hit taken)) = some taken.result

module _ (sha256 : String → String) where
  -- The keys of a sequence of calls, each chained to the one before.
  unfoldable pub chain : String → List Work → Result JournalError (List String)
  chain previous_key [] = ok []
  chain previous_key (work ∷ works) =
      create_journal_key sha256 previous_key work.0.prompt work.0.options >>= λ key.
      chain key works >>= λ keys. ok (key ∷ keys)

  -- The first key of a sequence, and the keys of the rest.
  pub chain-cons :
      (before : String) (work : Work) (works : List Work) (keys : List String)
      → chain before (work ∷ works) ≡ ok keys
      → (key : String) × (others : List String) × (create_journal_key sha256 before work.0.prompt
            work.0.options
          ≡ ok key)
        × (chain key works ≡ ok others)
        × (keys ≡ key ∷ others)
  unfolding chain
  chain-cons before work works keys chained =
      let (key, made, rest) =
        >>=-eq-ok (create_journal_key sha256 before work.0.prompt work.0.options)
          (λ key. chain key works >>= λ keys. ok (key ∷ keys)) chained in
      let (others, follow, same) = >>=-eq-ok (chain key works) (λ keys. ok (key ∷ keys)) rest in
      (key, others, made, follow, cc)

  abbrev settle_decision :
      JsValue → JournalRun × Result JournalError JournalDecision → Result JournalError JournalRun
  settle_decision result (after, err e) = err e
  settle_decision result (after, ok (hit taken)) = ok after
  settle_decision result (after, ok (miss decision)) =
      record_result after decision result no_options

  -- The calls one after the other, each with its result before the next.
  unfoldable pub perform : JournalRun → List Work → Result JournalError JournalRun
  perform run [] = ok run
  perform run (work ∷ works) =
      settle_decision work.1 (admit sha256 run work.0) >>= λ after. perform after works

  -- What the journal gives for each call, without the agents.
  unfoldable pub answers : JournalRun → List Work → List (Option JsValue)
  answers run [] = []
  answers run (work ∷ works) =
      answer_of (admit sha256 run work.0).1 ∷ answers (admit sha256 run work.0).0 works

abbrev pub result_record : String → Work → JournalResultRecord
result_record key work = record {
  key = key;
  agent_id = work.0.agent_id;
  result = work.1;
  successful = some (not_null work.1);
  coverage_gap = none;
}

-- The records that calls of these keys leave, and the historical calls that they become.
unfoldable pub generated : List String → List Work → List JournalRecord
generated [] works = []
generated (key ∷ keys) [] = []
generated (key ∷ keys) (work ∷ works) =
    started key work.0.agent_id ∷ finished (result_record key work) ∷ generated keys works

abbrev pub donor : String → Work → HistoricalCall
donor key work = settle (result_record key work) (new_call key work.0.agent_id)

unfoldable pub donors : List String → List Work → List HistoricalCall
donors [] works = []
donors (key ∷ keys) [] = []
donors (key ∷ keys) (work ∷ works) = donor key work ∷ donors keys works
