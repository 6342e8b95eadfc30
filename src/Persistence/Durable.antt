-- ===== src/Persistence/Durable.antt =====
-- `PersistentWorkflowJournal`, `PersistentWorkflowJournalRun` and `writeInitialWorkflowJournal`: the
-- journal in memory, and the file that each mutation replaces. `writes` tells whether the file can be
-- replaced: the write coordinator admits it, it is of a permitted size, and the system does it.
pub mod Methods
use workflow_mcp.Common.{
  Bool-cases, ℕ, String, Bool, true, false, ◌||◌, List, [], ◌∷◌, Option, none, some, ◌≡◌, ◌↔◌, sym,
  subst, refl, ◌∙◌, ap, inl, inr, All, ◌==◌, if◌then◌else◌, Option-cases, Result-cases, Result, ok,
  err, ◌>>=◌,
}
use workflow_mcp.Js.{JsValue}
use workflow_mcp.Js.Passage.{Written, written, through_json}
use workflow_mcp.Journal.{JournalIdentity, JournalError, JournalSnapshot, JournalRun}
use workflow_mcp.Journal.Admission.Admit.{admit}
use workflow_mcp.Journal.Results.{record_provider_session, discard_provider_session, record_result}
use workflow_mcp.Journal.Runs.{
  RunCall, admits, records_session, discards_session, records_result, run_call,
}
use workflow_mcp.Journal.Store.{
  Journal, RunOptions, get_snapshots, new_journal, begin_run, change_run,
}
use workflow_mcp.Persistence.{PersistentJournalError, stored_form, legacy_version, journal_version}
use workflow_mcp.Persistence.Validation.{validate_snapshot_collection}
use workflow_mcp.Persistence.Parsing.{ReadStoredJournal, parse_stored_journal}
use workflow_mcp.Persistence.Merging.{open_snapshots}
use workflow_mcp.Persistence.RoundTrip.{IsStorable}
use workflow_mcp.Persistence.Carried.{parse_stored_journal-through_json}

pub record Persistent : Type 0 where
  pub journal : Journal
  pub file : Option JsValue

-- What a method throws.
pub data Failure : Type 0 where
  from_journal : JournalError → Failure
  from_store : PersistentJournalError → Failure
  write_failed : Failure

-- A method's state behind it, and what it threw.
abbrev pub Answer : Type 0
Answer = Persistent × Option Failure

-- The rest of `persistAtomically`: what JSON.stringify throws becomes the error of a write that failed.
abbrev pub write_file : Bool → Written → Persistent → Answer
write_file writes (written value) p =
    if writes then (record p { file = some value }, none) else (p, some write_failed)
write_file writes w p = (p, some write_failed)

-- `#persistAll`
unfoldable pub persist_all : Bool → Persistent → Answer
persist_all writes p = elim (validate_snapshot_collection (get_snapshots p.journal)) [
  | err e ↦ (p, some (from_store e))
  | ok valid ↦ write_file writes (through_json (stored_form (get_snapshots p.journal))) p
]

abbrev error_of {ℓ} : {A : Type ℓ} → Result JournalError A → Option JournalError
error_of (ok a) = none
error_of (err e) = some e

-- What the method of the run in memory throws.
abbrev pub run_error : (String → String) → JournalRun → RunCall → Option JournalError
run_error sha256 run (admits call) = error_of (admit sha256 run call).1
run_error sha256 run (records_session decision session) =
    error_of (record_provider_session run decision session)
run_error sha256 run (discards_session decision) = error_of (discard_provider_session run decision)
run_error sha256 run (records_result decision result options) =
    error_of (record_result run decision result options)

abbrev pub persist_unless : Bool → Persistent → Option JournalError → Answer
persist_unless writes p none = persist_all writes p
persist_unless writes p (some e) = (p, some (from_journal e))

-- A method of a run, which has this number in the journal.
unfoldable pub call_method :
    (String → String) → Bool → ℕ → RunCall → JournalRun → Persistent → Answer
call_method sha256 writes number call run p =
    persist_unless writes
      (record p { journal = change_run number (λ r. run_call sha256 r call) p.journal })
      (run_error sha256 run call)

-- `beginRun` leaves the file.
unfoldable pub begin_persistent :
    JournalIdentity → RunOptions → Persistent → Result JournalError (Persistent × ℕ)
begin_persistent identity options p = begin_run identity options p.journal >>= λ answer.
    ok (record p { journal = answer.0 }, answer.1)

abbrev read_snapshots : Option ReadStoredJournal → List JournalSnapshot
read_snapshots none = []
read_snapshots (some stored) = stored.snapshots

abbrev is_legacy : Option ReadStoredJournal → Bool
is_legacy none = false
is_legacy (some stored) = stored.version == legacy_version

abbrev is_nonempty {ℓ} : {A : Type ℓ} → List A → Bool
is_nonempty [] = false
is_nonempty (x ∷ xs) = true

abbrev or_failure {ℓ} : {A : Type ℓ} {E : Type 0} → (E → Failure) → Result E A → Result Failure A
or_failure f (ok a) = ok a
or_failure f (err e) = err (f e)

abbrev settled : Answer → Result Failure Persistent
settled (p, none) = ok p
settled (p, some e) = err e

-- `open`, from the file, what was read of it, and the snapshots to fall back on.
unfoldable pub open_persistent :
    Bool
    → Option JsValue
    → Option ReadStoredJournal
    → List JournalSnapshot
    → Result Failure Persistent
open_persistent writes file stored fallback =
    or_failure from_store (open_snapshots (read_snapshots stored) fallback) >>= λ snapshots.
    or_failure from_journal (new_journal snapshots) >>= λ journal.
    let p : Persistent = record { journal = journal; file = file } in
    if is_nonempty fallback || is_legacy stored then settled (persist_all writes p) else ok p

abbrev initial_file : Bool → Written → Result Failure (Option JsValue)
initial_file writes (written value) = if writes then ok (some value) else err write_failed
initial_file writes w = err write_failed

-- The file of `writeInitialWorkflowJournal`, where there is one before.
unfoldable pub write_initial :
    Bool → Option JsValue → List JournalSnapshot → Result Failure (Option JsValue)
write_initial writes file [] = ok file
write_initial writes file (s ∷ snapshots) =
    or_failure from_store (validate_snapshot_collection (s ∷ snapshots)) >>= λ valid.
    initial_file writes (through_json (stored_form (s ∷ snapshots)))
