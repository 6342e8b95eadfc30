-- ===== src/Journal/Store.antt =====
-- `InMemoryWorkflowJournal`: a map from the identities of workflows to snapshots. The snapshot that
-- `beginRun` installs shares its arrays with the run it returns, so that entry refers to the run.
pub mod Gaps
use workflow_mcp.Common.{
  ℕ, String, Bool, true, false, ◌&&◌, List, [], ◌∷◌, ◌++◌, Option, none, some, length, get_elem?,
  set, str_eq, if◌then◌else◌, get_or_else, Result, ok, err, ◌>>=◌, ◌>>◌, throw_if,
}
use workflow_mcp.Journal.{
  JournalIdentity, JournalRecord, JournalSessionRecord, JournalImportedCall, JournalSnapshot,
  JournalError, empty_workflow_id, empty_source_hash, JournalReuseMode, longest_prefix, JournalRun,
}
use workflow_mcp.Journal.History.{assert_coverage_gap_record, assert_imported_calls}
use workflow_mcp.Journal.Admission.{new_run, sparse_reuse, is_some}

-- A snapshot given, or that of a run: its number, and whether it has imported calls.
pub data Entry : Type 0 where
  stored : JournalSnapshot → Entry
  current : ℕ → Bool → Entry

pub record Journal : Type 0 where
  pub snapshots : List (String × Entry)
  pub runs : List JournalRun

-- `Map.prototype.get` and `Map.prototype.set`.
unfoldable pub get_entry : String → List (String × Entry) → Option Entry
get_entry id [] = none
get_entry id ((other, entry) ∷ rest) =
    let later = get_entry id rest in if str_eq other id then some entry else later

unfoldable pub set_entry : String → Entry → List (String × Entry) → List (String × Entry)
set_entry id entry [] = (id, entry) ∷ []
set_entry id entry ((other, old) ∷ rest) =
    let later = set_entry id entry rest in
    if str_eq other id then (other, entry) ∷ rest else (other, old) ∷ later

abbrev pub live_snapshot : Bool → JournalRun → JournalSnapshot
live_snapshot has_imports run = record {
  identity = run.identity;
  records = run.records;
  sessions = some run.sessions;
  imported_calls = if has_imports then some run.imported_calls else none;
}

-- What an entry of the map is at this time.
unfoldable pub read_entry : List JournalRun → Entry → Option JournalSnapshot
read_entry runs (stored snapshot) = some snapshot
read_entry runs (current number has_imports) = elim (get_elem? runs number) [
  | none ↦ none
  | some run ↦ some (live_snapshot has_imports run)
]

abbrev pub read_found : List JournalRun → Option Entry → Option JournalSnapshot
read_found runs none = none
read_found runs (some entry) = read_entry runs entry

-- `getSnapshot`: the copy that `copySnapshot` makes is the value.
unfoldable pub get_snapshot : String → Journal → Option JournalSnapshot
get_snapshot id journal = read_found journal.runs (get_entry id journal.snapshots)

abbrev read_all : List JournalRun → List (String × Entry) → List JournalSnapshot
read_all runs [] = []
read_all runs ((id, entry) ∷ rest) = elim (read_entry runs entry) [
  | none ↦ read_all runs rest
  | some snapshot ↦ snapshot ∷ read_all runs rest
]

unfoldable pub get_snapshots : Journal → List JournalSnapshot
get_snapshots journal = read_all journal.runs journal.snapshots

abbrev pub assert_records : List JournalRecord → Result JournalError (Unit {0})
assert_records [] = ok tt
assert_records (r ∷ records) = assert_coverage_gap_record r >> assert_records records

abbrev pub add_stored :
    List JournalSnapshot → List (String × Entry) → Result JournalError (List (String × Entry))
add_stored [] entries = ok entries
add_stored (snapshot ∷ snapshots) entries =
    assert_records snapshot.records
    >> assert_imported_calls snapshot
    >> add_stored snapshots (set_entry snapshot.identity.workflow_id (stored snapshot) entries)

-- The constructor.
unfoldable pub new_journal : List JournalSnapshot → Result JournalError Journal
new_journal snapshots =
    add_stored snapshots [] >>= λ entries. ok (record { snapshots = entries; runs = [] })

abbrev pub inherited {ℓ} :
    {A : Type ℓ} → Bool → (JournalSnapshot → List A) → Option JournalSnapshot → List A
inherited retain part none = []
inherited retain part (some previous) = if retain then part previous else []

abbrev pub previous_imports : Option JournalSnapshot → Bool
previous_imports none = false
previous_imports (some previous) = is_some previous.imported_calls

pub record RunOptions : Type 0 where
  pub reuse_mode : Option JournalReuseMode
  pub reuse_coverage_gaps : Option Bool

-- The run that `beginRun` makes, given the snapshot in the map.
unfoldable pub start_run :
    JournalIdentity → RunOptions → Option JournalSnapshot → Result JournalError JournalRun
start_run identity options previous =
    let mode = get_or_else options.reuse_mode longest_prefix in
    let retain = sparse_reuse mode identity previous in
    new_run identity previous (inherited retain (λ s. s.records) previous)
      (inherited retain (λ s. get_or_else s.sessions []) previous)
      (inherited retain (λ s. get_or_else s.imported_calls []) previous) mode retain
      (get_or_else options.reuse_coverage_gaps false)

abbrev pub with_run : JournalIdentity → Option JournalSnapshot → Journal → JournalRun → Journal × ℕ
with_run identity previous journal run = (
  record {
    snapshots =
        set_entry identity.workflow_id (current (length journal.runs) (previous_imports previous))
          journal.snapshots;
    runs = journal.runs ++ run ∷ [];
  },
  length journal.runs,
)

-- `beginRun`: the journal with the run, and the run's number.
unfoldable pub begin_run :
    JournalIdentity → RunOptions → Journal → Result JournalError (Journal × ℕ)
begin_run identity options journal =
    let previous = get_snapshot identity.workflow_id journal in
    throw_if (str_eq identity.workflow_id "") empty_workflow_id
    >> throw_if (str_eq identity.source_hash "") empty_source_hash
    >> (start_run identity options previous >>= λ run. ok (with_run identity previous journal run))

-- A method of a run changes the run in place.
unfoldable pub change_run : ℕ → (JournalRun → JournalRun) → Journal → Journal
change_run number change journal = elim (get_elem? journal.runs number) [
  | none ↦ journal
  | some run ↦ record journal { runs = set journal.runs number (change run) }
]
