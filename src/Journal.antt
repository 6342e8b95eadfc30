-- ===== src/Journal.antt =====
-- src/workflowJournal.ts: the records of a journal, its keys, and the state of a run. The digest of
-- node:crypto is a parameter of what computes keys. Records are kept by JavaScript in arrays that a
-- run and the journal share; here they stand in the run, and the journal refers to the run.
pub mod Canonical
pub mod Keys
pub mod History
pub mod Admission
pub mod Results
pub mod Store
pub mod Runs
mod Samples
use workflow_mcp.Common.{ℕ, String, Bool, Option, List}
use workflow_mcp.Events.{ProviderSessionReference}
use workflow_mcp.Js.{JsValue, JsProperties}

pub record JournalIdentity : Type 0 where
  pub workflow_id : String
  pub source_hash : String

pub record JournalCall : Type 0 where
  pub agent_id : String
  pub prompt : String
  pub options : Option JsProperties

pub record JournalResultRecord : Type 0 where
  pub key : String
  pub agent_id : String
  pub result : JsValue
  pub successful : Option Bool
  pub coverage_gap : Option Bool

pub data JournalRecord : Type 0 where
  started : String → String → JournalRecord
  finished : JournalResultRecord → JournalRecord

pub record JournalSessionRecord : Type 0 where
  pub key : String
  pub agent_id : String
  pub session : ProviderSessionReference

pub record JournalImportedCall : Type 0 where
  pub key : String
  pub agent_id : String
  pub prompt_key : String

pub record JournalSnapshot : Type 0 where
  pub identity : JournalIdentity
  pub records : List JournalRecord
  pub sessions : Option (List JournalSessionRecord)
  pub imported_calls : Option (List JournalImportedCall)

pub data JournalError : Type 0 where
  bigint_value circular_value no_json : JournalError
  bad_coverage_gap bad_imported_call not_unfinished : JournalError
  empty_workflow_id empty_source_hash : JournalError

pub record JournalMiss : Type 0 where
  pub call_index : ℕ
  pub key : String
  pub agent_id : String
  pub provider_session : Option ProviderSessionReference

pub record JournalHit : Type 0 where
  pub call_index : ℕ
  pub key : String
  pub agent_id : String
  pub source_agent_id : String
  pub result : JsValue
  pub coverage_gap : Bool

pub data JournalDecision : Type 0 where
  miss : JournalMiss → JournalDecision
  hit : JournalHit → JournalDecision

pub data JournalReuseMode : Type 0 where
  longest_prefix exact_source_sparse : JournalReuseMode

-- A call of the previous generation. `consumed` is its membership in `#consumedHistorical`.
pub record HistoricalCall : Type 0 where
  pub key : String
  pub agent_id : String
  pub has_result : Bool
  pub reusable : Bool
  pub coverage_gap : Bool
  pub result : JsValue
  pub provider_session : Option ProviderSessionReference
  pub imported_prompt_key : Option String
  pub consumed : Bool

-- A call that was admitted without a result.
pub record PendingCall : Type 0 where
  pub decision : JournalMiss
  pub completed : Bool

pub record JournalRun : Type 0 where
  pub identity : JournalIdentity
  pub historical : List HistoricalCall
  pub historical_keys : List String
  pub records : List JournalRecord
  pub sessions : List JournalSessionRecord
  pub imported_calls : List JournalImportedCall
  pub pending : List PendingCall
  pub previous_key : String
  pub next_call_index : ℕ
  pub can_reuse_prefix : Bool
  pub exact_source_sparse : Bool
  pub retain_sparse_history : Bool
  pub reuse_coverage_gaps : Bool
  pub track_imported_prompts : Bool
  pub remaining_hashes : ℕ
  pub remaining_bytes : ℕ
