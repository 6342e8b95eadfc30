-- ===== src/Persistence/Samples.antt =====
-- A journal with one call, written and read again.
use workflow_mcp.Common.{
  String, true, false, [], ◌∷◌, none, some, ◌≡◌, ◌↔◌, refl, All, Result, ok, err, find_index, ◌++◌,
}
use workflow_mcp.Js
use workflow_mcp.Js.{JsValue, get_property, own_property}
use workflow_mcp.Js.Passage.{Written, written, throws, through_json, IsJson}
use workflow_mcp.Js.Units.{sort_keys}
use workflow_mcp.Js.Json.{json, enumerate_one}
use workflow_mcp.Journal.{
  JournalIdentity, JournalCall, JournalSnapshot, JournalRun, started, finished,
}
use workflow_mcp.Journal.Canonical.{canonicalize, canonicalize_journal_value}
use workflow_mcp.Journal.Keys.{
  is_journal_key, is_prompt_key, execution_options, canonical_options, journal_key,
}
use workflow_mcp.Journal.History.{bad_gap}
use workflow_mcp.Journal.Admission.{keyed_hit}
use workflow_mcp.Journal.Admission.Admit.{admit, admit_keyed, search, begin_call, consume}
use workflow_mcp.Journal.Runs.{RunCall, run_call}
use workflow_mcp.Journal.Runs.Resumption.Generation.{first_run}
use workflow_mcp.Journal.Store.{current, get_snapshots, read_entry, change_run}
use workflow_mcp.Persistence.{
  PersistentJournalError, invalid_format, invalid_record, journal_version, stored_form,
}
use workflow_mcp.Persistence.Validation.{
  validate_snapshot_collection, validate_imported_call_references,
}
use workflow_mcp.Persistence.Parsing.{
  ReadStoredJournal, parse_record, parse_session, parse_imported_call, parse_snapshot,
  parse_stored_journal,
}
use workflow_mcp.Persistence.RoundTrip.{IsStorable}
use workflow_mcp.Persistence.Carried.{parse_stored_journal-through_json}
use workflow_mcp.Persistence.Merging.{merge_snapshots}
use workflow_mcp.Persistence.Merging.Reopening.{merge_snapshots-again}
use workflow_mcp.Persistence.Durable.{Persistent, persist_all, run_error, call_method}
use workflow_mcp.Persistence.Durable.Methods.{IsDurable, changed, call_method-IsDurable}

abbrev zeros : String
zeros = "0000000000000000000000000000000000000000000000000000000000000000"

abbrev key : String
key = "v2:0000000000000000000000000000000000000000000000000000000000000000"

abbrev prompt_key : String
prompt_key = "ip1:0000000000000000000000000000000000000000000000000000000000000000"

abbrev identity : JournalIdentity
identity = record { workflow_id = "review"; source_hash = "h1" }

-- One call with a result, a session and an imported prompt.
abbrev sample : JournalSnapshot
sample = record {
  identity = identity;
  records =
      started key "a"
      ∷ finished (record {
        key = key;
        agent_id = "a";
        result = Js.text "done";
        successful = some true;
        coverage_gap = none;
      })
      ∷ [];
  sessions = some (
      record { key = key; agent_id = "a"; session = record { provider = "codex"; id = "t" } } ∷ []);
  imported_calls = some (record { key = key; agent_id = "a"; prompt_key = prompt_key } ∷ []);
}

valid : validate_snapshot_collection (sample ∷ []) ≡ ok tt
unfolding validate_snapshot_collection validate_imported_call_references
valid = refl

sample-IsStorable : IsStorable sample
unfolding is_journal_key is_prompt_key bad_gap IsJson
sample-IsStorable = record {
  records = ((refl, refl), ((refl, refl, refl, tt), tt));
  sessions = ((refl, refl, refl, refl), tt);
  imported_calls = ((refl, refl, refl), tt);
}

parse_stored_journal-through_json_example :
    (file : JsValue) × (through_json (stored_form (sample ∷ [])) ≡ written file)
    × (parse_stored_journal file
        ≡ ok (record { version = journal_version; snapshots = sample ∷ [] }))
parse_stored_journal-through_json_example =
    parse_stored_journal-through_json (sample ∷ []) valid (sample-IsStorable, tt)

-- Another result in the place of the sample's.
abbrev with_result : JsValue → JournalSnapshot
with_result result = record sample {
  records =
      started key "a"
      ∷ finished (record {
        key = key;
        agent_id = "a";
        result = result;
        successful = some true;
        coverage_gap = none;
      })
      ∷ [];
}

abbrev read_back : Written → Result PersistentJournalError ReadStoredJournal
read_back (written file) = parse_stored_journal file
read_back other = err invalid_format

-- A number that is not finite comes back as null.
reads_null :
    read_back (through_json (stored_form (with_result (Js.number Js.non_finite) ∷ [])))
    ≡ ok (record { version = journal_version; snapshots = with_result Js.null ∷ [] })
unfolding through_json stored_form parse_stored_journal parse_snapshot parse_record parse_session
    parse_imported_call get_property own_property is_journal_key is_prompt_key bad_gap
    validate_snapshot_collection validate_imported_call_references
reads_null = refl

-- A record whose result is undefined loses it, and the reader refuses the file.
loses_undefined :
    read_back (through_json (stored_form (with_result Js.undefined ∷ []))) ≡ err invalid_record
unfolding through_json stored_form parse_stored_journal parse_snapshot parse_record get_property
    own_property is_journal_key
loses_undefined = refl

refuses_bigint : through_json (stored_form (with_result Js.bigint ∷ [])) ≡ throws
unfolding through_json stored_form
refuses_bigint = refl

-- The fallback has the same call, and one more.
abbrev fallback : JournalSnapshot
fallback = record sample { records = started key "b" ∷ started "v2:1" "c" ∷ [] }

keeps_one : (merge_snapshots sample fallback).records ≡ sample.records ++ started "v2:1" "c" ∷ []
unfolding merge_snapshots
keeps_one = refl

merge_snapshots-again_example :
    merge_snapshots (merge_snapshots sample fallback) fallback ≡ merge_snapshots sample fallback
merge_snapshots-again_example = merge_snapshots-again sample fallback

abbrev digest : String → String
digest text = zeros

abbrev run : JournalRun
run = first_run identity 0 "" [] []

-- A journal in which a run was begun, and no file yet.
abbrev fresh : Persistent
fresh = record {
  journal = record { snapshots = ("review", current 0 false) ∷ []; runs = run ∷ [] };
  file = none;
}

abbrev call : JournalCall
call = record { agent_id = "a"; prompt = "Find"; options = none }

abbrev admitted : Persistent
admitted = (call_method digest true 0 (RunCall.admits call) run fresh).0

returns : call_method digest true 0 (RunCall.admits call) run fresh ≡ (admitted, none)
unfolding call_method persist_all through_json stored_form get_snapshots read_entry change_run
    run_call admit admit_keyed search keyed_hit find_index begin_call consume canonical_options
    execution_options own_property canonicalize_journal_value canonicalize sort_keys json
    enumerate_one journal_key validate_snapshot_collection validate_imported_call_references
returns = refl

admitted-IsStorable :
    All IsStorable (get_snapshots (changed digest 0 (RunCall.admits call) run fresh).journal)
unfolding call_method persist_all through_json stored_form get_snapshots read_entry change_run
    run_call admit admit_keyed search keyed_hit find_index begin_call consume canonical_options
    execution_options own_property canonicalize_journal_value canonicalize sort_keys json
    enumerate_one journal_key validate_snapshot_collection validate_imported_call_references
    is_journal_key
admitted-IsStorable =
    (record { records = ((refl, refl), tt); sessions = tt; imported_calls = tt }, tt)

call_method-IsDurable_example :
    ((call_method digest true 0 (RunCall.admits call) run fresh).1 ≡ none) ↔ (
      ((run_error digest run (RunCall.admits call) ≡ none)
        × (true ≡ true)
        × (validate_snapshot_collection
              (get_snapshots (changed digest 0 (RunCall.admits call) run fresh).journal)
            ≡ ok tt))
      × IsDurable (call_method digest true 0 (RunCall.admits call) run fresh).0)
call_method-IsDurable_example =
    call_method-IsDurable digest true 0 (RunCall.admits call) run fresh admitted-IsStorable
