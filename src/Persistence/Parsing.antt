-- ===== src/Persistence/Parsing.antt =====
-- `parseStoredJournal` and the parsers of its parts.
use workflow_mcp.Common.{
  ℕ, suc, String, Bool, false, not, ◌&&◌, ◌||◌, List, [], ◌∷◌, Option, none, some, str_eq, ltb,
  ◌==◌, if◌then◌else◌, Result, ok, err, ◌>>=◌, ◌>>◌, throw_if,
}
use workflow_mcp.Value.{natural}
use workflow_mcp.Js.{
  JsValue, JsProperties, JsElements, object, array, text, number, boolean, undefined, finite,
  no_elements, element, own_property, get_property,
}
use workflow_mcp.Journal.{
  JournalRecord, started, finished, JournalSessionRecord, JournalImportedCall, JournalSnapshot,
}
use workflow_mcp.Journal.Keys.{is_journal_key, is_prompt_key}
use workflow_mcp.Journal.History.{bad_gap}
use workflow_mcp.Persistence.{
  PersistentJournalError, invalid_format, invalid_snapshot, invalid_record, invalid_sessions,
  invalid_session, invalid_imported_calls, invalid_imported_call, max_records, journal_format,
  journal_version, legacy_version,
}
use workflow_mcp.Persistence.Validation.{validate_snapshot_collection}

-- `values.map(parse)`
abbrev pub parse_all {ℓ} :
    {A : Type ℓ}
    → (JsValue → Result PersistentJournalError A)
    → JsElements
    → Result PersistentJournalError (List A)
parse_all parse no_elements = ok []
parse_all parse (element v vs) = parse v >>= λ x. parse_all parse vs >>= λ xs. ok (x ∷ xs)

abbrev pub count_elements : JsElements → ℕ
count_elements no_elements = 0
count_elements (element v vs) = suc (count_elements vs)

-- An optional flag, `none` where it is neither undefined nor a boolean.
abbrev pub optional_flag : JsValue → Option (Option Bool)
optional_flag undefined = some none
optional_flag (boolean b) = some (some b)
optional_flag other = none

-- The type, the key and the agent of a record that has them in their forms.
abbrev pub record_head : JsValue → JsValue → JsValue → Option (String × String × String)
record_head (text type) (text key) (text agent_id) =
    if (str_eq type "started" || str_eq type "result")
      && (is_journal_key key && not (str_eq agent_id ""))
    then some (type, key, agent_id)
    else none
record_head type key agent_id = none

abbrev pub result_of :
    String
    → String
    → JsValue
    → Option (Option Bool)
    → Option (Option Bool)
    → Result PersistentJournalError JournalRecord
result_of key agent_id result (some successful) (some coverage_gap) =
    throw_if (bad_gap coverage_gap successful result) invalid_record
    >> ok (
        finished (record {
          key = key;
          agent_id = agent_id;
          result = result;
          successful = successful;
          coverage_gap = coverage_gap;
        }))
result_of key agent_id result successful coverage_gap = err invalid_record

abbrev pub parse_result :
    String → String → JsProperties → Option JsValue → Result PersistentJournalError JournalRecord
parse_result key agent_id value none = err invalid_record
parse_result key agent_id value (some result) =
    result_of key agent_id result (optional_flag (get_property "successful" value))
      (optional_flag (get_property "coverageGap" value))

abbrev pub parse_headed :
    JsProperties → Option (String × String × String) → Result PersistentJournalError JournalRecord
parse_headed value none = err invalid_record
parse_headed value (some (type, key, agent_id)) =
    if str_eq type "started"
    then ok (started key agent_id)
    else parse_result key agent_id value (own_property "result" value)

unfoldable pub parse_record : JsValue → Result PersistentJournalError JournalRecord
parse_record (object value) = parse_headed value (
    record_head (get_property "type" value) (get_property "key" value)
      (get_property "agentId" value))
parse_record other = err invalid_record

abbrev pub session_of :
    JsValue → JsValue → JsValue → JsValue → Result PersistentJournalError JournalSessionRecord
session_of (text key) (text agent_id) (text provider) (text id) =
    if is_journal_key key
      && (not (str_eq agent_id "") && (not (str_eq provider "") && not (str_eq id "")))
    then ok (record {
      key = key;
      agent_id = agent_id;
      session = record { provider = provider; id = id };
    })
    else err invalid_session
session_of key agent_id provider id = err invalid_session

abbrev pub parse_reference :
    JsProperties → JsValue → Result PersistentJournalError JournalSessionRecord
parse_reference entry (object session) =
    session_of (get_property "key" entry) (get_property "agentId" entry)
      (get_property "provider" session) (get_property "id" session)
parse_reference entry other = err invalid_session

unfoldable pub parse_session : JsValue → Result PersistentJournalError JournalSessionRecord
parse_session (object entry) = parse_reference entry (get_property "session" entry)
parse_session other = err invalid_session

abbrev pub imported_of :
    JsValue → JsValue → JsValue → Result PersistentJournalError JournalImportedCall
imported_of (text key) (text agent_id) (text prompt_key) =
    if is_journal_key key && (not (str_eq agent_id "") && is_prompt_key prompt_key)
    then ok (record { key = key; agent_id = agent_id; prompt_key = prompt_key })
    else err invalid_imported_call
imported_of key agent_id prompt_key = err invalid_imported_call

unfoldable pub parse_imported_call : JsValue → Result PersistentJournalError JournalImportedCall
parse_imported_call (object entry) =
    imported_of (get_property "key" entry) (get_property "agentId" entry)
      (get_property "promptKey" entry)
parse_imported_call other = err invalid_imported_call

-- `undefined`, or an array of at most MAX_RECORDS entries.
abbrev pub parse_list {ℓ} :
    {A : Type ℓ}
    → PersistentJournalError
    → (JsValue → Result PersistentJournalError A)
    → JsValue
    → Result PersistentJournalError (Option (List A))
parse_list invalid parse undefined = ok none
parse_list invalid parse (array values) =
    throw_if (ltb max_records (count_elements values)) invalid
    >> (parse_all parse values >>= λ entries. ok (some entries))
parse_list invalid parse other = err invalid

abbrev pub snapshot_of :
    JsProperties → JsValue → JsValue → JsValue → Result PersistentJournalError JournalSnapshot
snapshot_of value (text workflow_id) (text source_hash) (array records) =
    throw_if
      (str_eq workflow_id "" || (str_eq source_hash "" || ltb max_records (count_elements records)))
      invalid_snapshot
    >> (parse_all parse_record records >>= λ parsed.
        parse_list invalid_sessions parse_session (get_property "sessions" value) >>= λ sessions.
        parse_list invalid_imported_calls parse_imported_call (get_property "importedCalls" value)
        >>= λ imported_calls. ok (record {
          identity = record { workflow_id = workflow_id; source_hash = source_hash };
          records = parsed;
          sessions = sessions;
          imported_calls = imported_calls;
        }))
snapshot_of value workflow_id source_hash records = err invalid_snapshot

unfoldable pub parse_snapshot : JsValue → Result PersistentJournalError JournalSnapshot
parse_snapshot (object value) =
    snapshot_of value (get_property "workflowId" value) (get_property "sourceHash" value)
      (get_property "records" value)
parse_snapshot other = err invalid_snapshot

-- `value === n`
abbrev pub is_number : ℕ → JsValue → Bool
is_number n (number (finite (natural m))) = m == n
is_number n other = false

abbrev pub is_text_of : String → JsValue → Bool
is_text_of t (text s) = str_eq s t
is_text_of t other = false

pub record ReadStoredJournal : Type 0 where
  pub version : ℕ
  pub snapshots : List JournalSnapshot

abbrev pub validated : ℕ → List JournalSnapshot → Result PersistentJournalError ReadStoredJournal
validated version snapshots =
    validate_snapshot_collection snapshots
    >> ok (record { version = version; snapshots = snapshots })

abbrev pub parse_current : JsValue → Result PersistentJournalError ReadStoredJournal
parse_current (array values) = parse_all parse_snapshot values >>= validated journal_version
parse_current other = err invalid_format

abbrev pub parse_versioned :
    JsValue → JsValue → JsValue → Result PersistentJournalError ReadStoredJournal
parse_versioned version snapshot snapshots =
    if is_number legacy_version version
    then (parse_snapshot snapshot >>= λ s. validated legacy_version (s ∷ []))
    else if is_number journal_version version
    then parse_current snapshots
    else err invalid_format

unfoldable pub parse_stored_journal : JsValue → Result PersistentJournalError ReadStoredJournal
parse_stored_journal (object value) =
    if is_text_of journal_format (get_property "format" value)
    then parse_versioned (get_property "version" value) (get_property "snapshot" value)
        (get_property "snapshots" value)
    else err invalid_format
parse_stored_journal other = err invalid_format
