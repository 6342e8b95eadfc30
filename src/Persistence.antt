-- ===== src/Persistence.antt =====
-- src/persistentWorkflowJournal.ts without its files: what is written, and how it is read. The JSON text
-- is not modelled: a stored journal is the value that JSON.parse gives of what JSON.stringify made of the
-- object, which Js/Passage gives. The error codes of
-- `PersistentJournalError` are the constructors of its type.
pub mod Validation
pub mod Parsing
pub mod Merging
pub mod RoundTrip
pub mod Carried
pub mod Durable
mod Samples
use workflow_mcp.Common.{ℕ, String, Bool, List, [], ◌∷◌, Option, none, some}
use workflow_mcp.Value.{natural}
use workflow_mcp.Js.{
  JsValue, JsProperties, JsElements, object, array, text, number, boolean, finite, no_properties,
  property, no_elements, element,
}
use workflow_mcp.Journal.{
  JournalRecord, started, finished, JournalSessionRecord, JournalImportedCall, JournalSnapshot,
}

pub data PersistentJournalError : Type 0 where
  invalid_format invalid_snapshot invalid_record : PersistentJournalError
  invalid_sessions invalid_session invalid_imported_calls invalid_imported_call :
      PersistentJournalError
  duplicate_workflow : String → PersistentJournalError
  too_many_records too_many_imported_calls : PersistentJournalError
  source_mismatch : String → PersistentJournalError

abbrev pub max_records : ℕ
max_records = 100000

abbrev pub journal_format : String
journal_format = "workflow-mcp-journal"

abbrev pub journal_version : ℕ
journal_version = 2

abbrev pub legacy_version : ℕ
legacy_version = 1

-- `readonly T[]` as a value.
abbrev pub list_form {ℓ} : {A : Type ℓ} → (A → JsValue) → List A → JsElements
list_form form [] = no_elements
list_form form (x ∷ xs) = element (form x) (list_form form xs)

-- A field that is left out where it is undefined.
abbrev pub optional_field {ℓ} :
    {A : Type ℓ} → String → (A → JsValue) → Option A → JsProperties → JsProperties
optional_field name form none rest = rest
optional_field name form (some x) rest = property name (form x) rest

abbrev pub record_form : JournalRecord → JsValue
record_form (started key agent_id) = object (
    property "type" (text "started")
      (property "key" (text key) (property "agentId" (text agent_id) no_properties)))
record_form (finished r) = object (
    property "type" (text "result") (
      property "key" (text r.key) (
        property "agentId" (text r.agent_id) (
          property "result" r.result (
            optional_field "successful" boolean r.successful
              (optional_field "coverageGap" boolean r.coverage_gap no_properties))))))

abbrev pub session_form : JournalSessionRecord → JsValue
session_form r = object (
    property "key" (text r.key) (
      property "agentId" (text r.agent_id) (
        property "session"
          (object (
            property "provider" (text r.session.provider)
              (property "id" (text r.session.id) no_properties)))
          no_properties)))

abbrev pub imported_form : JournalImportedCall → JsValue
imported_form r = object (
    property "key" (text r.key) (
      property "agentId" (text r.agent_id)
        (property "promptKey" (text r.prompt_key) no_properties)))

abbrev pub sessions_form : List JournalSessionRecord → JsValue
sessions_form sessions = array (list_form session_form sessions)

abbrev pub imports_form : List JournalImportedCall → JsValue
imports_form calls = array (list_form imported_form calls)

abbrev pub snapshot_form : JournalSnapshot → JsValue
snapshot_form s = object (
    property "workflowId" (text s.identity.workflow_id) (
      property "sourceHash" (text s.identity.source_hash) (
        property "records" (array (list_form record_form s.records)) (
          optional_field "sessions" sessions_form s.sessions
            (optional_field "importedCalls" imports_form s.imported_calls no_properties)))))

-- The object that `persistAtomically` gives to JSON.stringify.
unfoldable pub stored_form : List JournalSnapshot → JsValue
stored_form snapshots = object (
    property "format" (text journal_format) (
      property "version" (number (finite (natural journal_version)))
        (property "snapshots" (array (list_form snapshot_form snapshots)) no_properties)))
