-- ===== src/Journal/Store/Gaps/Histories.antt =====
-- A journal and its runs, over any history of calls.
use workflow_mcp.Common.{
  ℕ, String, List, [], ◌∷◌, ◌≡◌, ◌≢◌, subst, ◌↔◌, inl, inr, Result-cases, Result, ok, err, IsOk,
  IsOk-value, >>-ok, ◌>>◌, >>=-eq-ok,
}
use workflow_mcp.Journal.{JournalIdentity, JournalSnapshot, JournalError}
use workflow_mcp.Journal.History.{assert_imported_calls}
use workflow_mcp.Journal.Runs.{RunCall, run_call}
use workflow_mcp.Journal.Store.{
  Journal, Entry, stored, set_entry, assert_records, add_stored, new_journal, RunOptions, begin_run,
  change_run,
}
use workflow_mcp.Journal.Store.Gaps.Beginning.{
  FineEntries, IsFineJournal, set_entry-FineEntries, assert_records-IsFine, begin_run-IsFineJournal,
  begin_run-IsOk, change_run-IsFineJournal, guards-ok, start_rest,
}

-- What a host does with a journal: it begins runs and calls their methods.
pub data JournalStep : Type 0 where
  begins : JournalIdentity → RunOptions → JournalStep
  calls_run : ℕ → RunCall → JournalStep

abbrev begun : Journal → Result JournalError (Journal × ℕ) → Journal
begun journal (ok (after, number)) = after
begun journal (err e) = journal

unfoldable pub journal_step : (String → String) → Journal → JournalStep → Journal
journal_step sha256 journal (begins identity options) =
    begun journal (begin_run identity options journal)
journal_step sha256 journal (calls_run number call) =
    change_run number (λ run. run_call sha256 run call) journal

unfoldable pub journal_steps : (String → String) → Journal → List JournalStep → Journal
journal_steps sha256 journal [] = journal
journal_steps sha256 journal (step ∷ steps) =
    journal_steps sha256 (journal_step sha256 journal step) steps

journal_step-IsFineJournal :
    (sha256 : String → String) (journal : Journal) (step : JournalStep)
    → IsFineJournal journal
    → IsFineJournal (journal_step sha256 journal step)
unfolding journal_step
journal_step-IsFineJournal sha256 journal (calls_run number call) fine =
    change_run-IsFineJournal sha256 number call journal fine
journal_step-IsFineJournal sha256 journal (begins identity options) fine =
    elim (Result-cases (begin_run identity options journal)) [
      | inr (e, thrown) ↦ rw (journal_step, thrown) fine
      | inl ((after, number), done) ↦
          rw (journal_step, done)
            (begin_run-IsFineJournal identity options journal after number fine done)
    ]

journal_steps-IsFineJournal :
    (sha256 : String → String) (journal : Journal) (steps : List JournalStep)
    → IsFineJournal journal
    → IsFineJournal (journal_steps sha256 journal steps)
unfolding journal_steps
journal_steps-IsFineJournal sha256 journal [] fine = fine
journal_steps-IsFineJournal sha256 journal (step ∷ steps) fine =
    journal_steps-IsFineJournal sha256 (journal_step sha256 journal step) steps
      (journal_step-IsFineJournal sha256 journal step fine)

add_stored-FineEntries :
    (snapshots : List JournalSnapshot) (entries after : List (String × Entry))
    → FineEntries entries
    → add_stored snapshots entries ≡ ok after
    → FineEntries after
add_stored-FineEntries [] entries after fine h =
    let same : entries ≡ after = cc in subst FineEntries same fine
add_stored-FineEntries (snapshot ∷ snapshots) entries after fine h =
    let next = set_entry snapshot.identity.workflow_id (stored snapshot) entries in
    let (both, end) =
      >>-ok (assert_records snapshot.records >> assert_imported_calls snapshot)
        (add_stored snapshots next) h in
    let (kept, imports) =
      >>-ok (assert_records snapshot.records) (assert_imported_calls snapshot) both in
    add_stored-FineEntries snapshots next after
      (set_entry-FineEntries snapshot.identity.workflow_id (stored snapshot) entries
        (assert_records-IsFine snapshot.records tt kept) fine)
      end

new_journal-IsFineJournal :
    (snapshots : List JournalSnapshot) (journal : Journal)
    → new_journal snapshots ≡ ok journal
    → IsFineJournal journal
unfolding new_journal
new_journal-IsFineJournal snapshots journal h =
    let (entries, added, same) =
      >>=-eq-ok (add_stored snapshots [])
        (λ entries. ok (record { snapshots = entries; runs = [] })) h in
    let it : ◌≡◌ {A = Journal} (record { snapshots = entries; runs = [] }) journal = cc in
    subst IsFineJournal it
      (record { entries = add_stored-FineEntries snapshots [] entries tt added; runs = tt })

-- In a journal made from any snapshots that it accepts, after any history of runs and of calls of their
-- methods, `beginRun` succeeds exactly for an identity without an empty part: it never refuses
-- records that the journal holds.
pub begin_run-IsOk_iff :
    (sha256 : String → String) (snapshots : List JournalSnapshot) (journal : Journal)
    (steps : List JournalStep) (identity : JournalIdentity) (options : RunOptions)
    → new_journal snapshots ≡ ok journal
    → IsOk (begin_run identity options (journal_steps sha256 journal steps))
      ↔ ((identity.workflow_id ≢ "") × (identity.source_hash ≢ ""))
unfolding begin_run
begin_run-IsOk_iff sha256 snapshots journal steps identity options made = (
  (λ h.
      let (answer, done) =
        IsOk-value (begin_run identity options (journal_steps sha256 journal steps)) h in
      (guards-ok identity (start_rest identity options (journal_steps sha256 journal steps))
        done).0),
  (λ h.
      begin_run-IsOk identity options (journal_steps sha256 journal steps)
        (journal_steps-IsFineJournal sha256 journal steps
          (new_journal-IsFineJournal snapshots journal made))
        h.0 h.1),
)
