-- ===== src/Persistence/Merging.antt =====
-- `mergeSnapshots`, and the snapshots that `PersistentWorkflowJournal.open` hands to the journal.
pub mod Sets
pub mod Reopening
use workflow_mcp.Common.{
  String, Bool, true, false, not, ◌&&◌, List, [], ◌∷◌, ◌++◌, Option, none, some, map, filter, any,
  str_eq, get_or_else, if◌then◌else◌, Result, ok, err, ◌>>=◌,
}
use workflow_mcp.Js.Json.{◌⧺◌}
use workflow_mcp.Journal.{JournalRecord, JournalSessionRecord, JournalImportedCall, JournalSnapshot}
use workflow_mcp.Journal.History.{record_id}
use workflow_mcp.Journal.Admission.Admit.{record_key, record_agent}
use workflow_mcp.Persistence.{PersistentJournalError, source_mismatch}

-- `new Set(texts).has(text)`
abbrev pub has : List String → String → Bool
has texts text = any (str_eq text) texts

abbrev pub session_identity : JournalSessionRecord → String
session_identity r =
    record_id r.key r.agent_id ⧺ ("\0" ⧺ (r.session.provider ⧺ ("\0" ⧺ r.session.id)))

abbrev pub imported_identity : JournalImportedCall → String
imported_identity r = record_id r.key r.agent_id

abbrev pub prompt_key_in : JournalImportedCall → String
prompt_key_in r = r.prompt_key

-- An imported call of the fallback whose prompt the primary has under another call.
abbrev pub supersedes : List JournalImportedCall → JournalImportedCall → Bool
supersedes primary r =
    has (map prompt_key_in primary) r.prompt_key
    && not (has (map imported_identity primary) (imported_identity r))

-- `supersededFallbackCalls`
abbrev pub superseded : List JournalImportedCall → List JournalImportedCall → List String
superseded primary fallback = map imported_identity (filter (supersedes primary) fallback)

-- An entry of the fallback that stays: the primary has none of its name, and its call was not
-- superseded.
abbrev pub is_left {ℓ} :
    {A : Type ℓ} → (A → String) → (A → String) → List String → List A → A → Bool
is_left name call gone primary x = not (has (map name primary) (name x)) && not (has gone (call x))

abbrev pub merge_list {ℓ} :
    {A : Type ℓ} → (A → String) → (A → String) → List String → List A → List A → List A
merge_list name call gone primary fallback =
    primary ++ filter (is_left name call gone primary) fallback

abbrev pub record_call : JournalRecord → String
record_call r = record_id (record_key r) (record_agent r)

abbrev pub session_call : JournalSessionRecord → String
session_call r = record_id r.key r.agent_id

abbrev pub merge_imported :
    List String → List JournalImportedCall → List JournalImportedCall → List JournalImportedCall
merge_imported = merge_list imported_identity imported_identity

abbrev pub merge_optional :
    List String
    → Option (List JournalImportedCall)
    → Option (List JournalImportedCall)
    → Option (List JournalImportedCall)
merge_optional gone none none = none
merge_optional gone none (some fallback) = some (merge_imported gone [] fallback)
merge_optional gone (some primary) fallback =
    some (merge_imported gone primary (get_or_else fallback []))

unfoldable pub merge_snapshots : JournalSnapshot → JournalSnapshot → JournalSnapshot
merge_snapshots primary fallback =
    let gone =
      superseded (get_or_else primary.imported_calls []) (get_or_else fallback.imported_calls []) in
    record {
      identity = primary.identity;
      records = merge_list record_key record_call gone primary.records fallback.records;
      sessions = some (
          merge_list session_identity session_call gone (get_or_else primary.sessions [])
            (get_or_else fallback.sessions []));
      imported_calls = merge_optional gone primary.imported_calls fallback.imported_calls;
    }

-- A map of snapshots by their workflows, in the order of the first insertions.
unfoldable pub find_snapshot : String → List JournalSnapshot → Option JournalSnapshot
find_snapshot id [] = none
find_snapshot id (s ∷ snapshots) =
    let later = find_snapshot id snapshots in
    if str_eq s.identity.workflow_id id then some s else later

unfoldable pub put_snapshot : JournalSnapshot → List JournalSnapshot → List JournalSnapshot
put_snapshot new [] = new ∷ []
put_snapshot new (s ∷ snapshots) =
    let later = put_snapshot new snapshots in
    if str_eq s.identity.workflow_id new.identity.workflow_id then new ∷ snapshots else s ∷ later

abbrev put_all : List JournalSnapshot → List JournalSnapshot → List JournalSnapshot
put_all [] known = known
put_all (s ∷ snapshots) known = put_all snapshots (put_snapshot s known)

abbrev add_fallback :
    JournalSnapshot
    → List JournalSnapshot
    → Option JournalSnapshot
    → Result PersistentJournalError (List JournalSnapshot)
add_fallback candidate known none = ok (put_snapshot candidate known)
add_fallback candidate known (some existing) =
    if str_eq existing.identity.source_hash candidate.identity.source_hash
    then ok (put_snapshot (merge_snapshots existing candidate) known)
    else err (source_mismatch candidate.identity.workflow_id)

abbrev add_fallbacks :
    List JournalSnapshot
    → List JournalSnapshot
    → Result PersistentJournalError (List JournalSnapshot)
add_fallbacks [] known = ok known
add_fallbacks (candidate ∷ fallback) known =
    add_fallback candidate known (find_snapshot candidate.identity.workflow_id known)
    >>= add_fallbacks fallback

-- `open`, from the snapshots that were read, and those to fall back on.
unfoldable pub open_snapshots :
    List JournalSnapshot
    → List JournalSnapshot
    → Result PersistentJournalError (List JournalSnapshot)
open_snapshots stored fallback = add_fallbacks fallback (put_all stored [])
