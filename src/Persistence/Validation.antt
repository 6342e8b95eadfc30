-- ===== src/Persistence/Validation.antt =====
-- `validateSnapshotCollection` and `validateImportedCallReferences`.
use workflow_mcp.Common.{
  ℕ, ◌+◌, String, Bool, not, ◌||◌, List, [], ◌∷◌, any, length, str_eq, ltb, get_or_else, Result, ok,
  ◌>>◌, throw_if,
}
use workflow_mcp.Journal.{JournalImportedCall, JournalSnapshot}
use workflow_mcp.Journal.History.{starts, record_id}
use workflow_mcp.Persistence.{
  PersistentJournalError, invalid_snapshot, invalid_imported_call, duplicate_workflow,
  too_many_records, too_many_imported_calls, max_records,
}

abbrev pub check_references :
    List String → List String → List JournalImportedCall → Result PersistentJournalError (Unit {0})
check_references ids seen [] = ok tt
check_references ids seen (call ∷ calls) =
    let id = record_id call.key call.agent_id in
    throw_if (not (any (str_eq id) ids) || any (str_eq id) seen) invalid_imported_call
    >> check_references ids (id ∷ seen) calls

unfoldable pub validate_imported_call_references :
    JournalSnapshot → Result PersistentJournalError (Unit {0})
validate_imported_call_references s =
    check_references (starts s.records) [] (get_or_else s.imported_calls [])

abbrev pub sessions_of : JournalSnapshot → ℕ
sessions_of s = length (get_or_else s.sessions [])

abbrev pub imports_of : JournalSnapshot → ℕ
imports_of s = length (get_or_else s.imported_calls [])

-- The identity or the size of a snapshot is not valid.
abbrev pub is_oversized : JournalSnapshot → Bool
is_oversized s =
    str_eq s.identity.workflow_id ""
    || (str_eq s.identity.source_hash ""
        || (ltb max_records (length s.records)
            || (ltb max_records (sessions_of s) || ltb max_records (imports_of s))))

-- The loop over the snapshots: the identities, the entries and the imported entries before.
abbrev pub validate_from :
    List String → ℕ → ℕ → List JournalSnapshot → Result PersistentJournalError (Unit {0})
validate_from ids entries imported [] = ok tt
validate_from ids entries imported (s ∷ snapshots) =
    let more = entries + (length s.records + sessions_of s) in
    let more_imported = imported + imports_of s in
    throw_if (is_oversized s) invalid_snapshot
    >> throw_if (any (str_eq s.identity.workflow_id) ids)
        (duplicate_workflow s.identity.workflow_id)
    >> validate_imported_call_references s
    >> throw_if (ltb max_records more) too_many_records
    >> throw_if (ltb max_records more_imported) too_many_imported_calls
    >> validate_from (s.identity.workflow_id ∷ ids) more more_imported snapshots

unfoldable pub validate_snapshot_collection :
    List JournalSnapshot → Result PersistentJournalError (Unit {0})
validate_snapshot_collection = validate_from [] 0 0
