-- ===== src/Journal/Store/Gaps/Beginning.antt =====
-- The snapshots of a journal have proper gaps, and `beginRun` makes runs that do.
use workflow_mcp.Common.{
  ℕ, String, Bool, true, false, List, [], ◌∷◌, Option, none, some, ◌≡◌, ◌≢◌, refl, ap, subst, inl,
  inr, All, All-append, All-set, All-get_elem?, get_elem?, get_or_else, length, str_eq, str_eq-ne,
  other_text, Bool-cases, Option-cases, Result, ok, IsOk, throw_if-ok, >>-ok, ◌>>=◌, ◌>>◌,
  >>=-eq-ok, throw_if,
}
use workflow_mcp.Journal.{
  JournalIdentity, JournalRecord, started, finished, JournalSnapshot, JournalError, longest_prefix,
  bad_coverage_gap, empty_workflow_id, empty_source_hash, JournalRun,
}
use workflow_mcp.Journal.History.{assert_coverage_gap_record, bad_gap}
use workflow_mcp.Journal.Admission.{distinct_keys, run_of, new_run, sparse_reuse}
use workflow_mcp.Journal.Runs.{RunCall, run_call}
use workflow_mcp.Journal.Store.{
  Journal, Entry, stored, current, get_entry, set_entry, read_entry, get_snapshot, assert_records,
  RunOptions, start_run, with_run, begin_run, live_snapshot, previous_imports, change_run,
  inherited,
}
use workflow_mcp.Journal.Store.Gaps.{IsFine, IsFineRun}
use workflow_mcp.Journal.Store.Gaps.Replay.{historical_calls-IsFine}
use workflow_mcp.Journal.Store.Gaps.Runs.{run_call-IsFineRun}

abbrev pub IsFineEntry : Entry → Type 0
IsFineEntry (stored snapshot) = All IsFine snapshot.records
IsFineEntry (current number has_imports) = Unit {0}

abbrev pub FineEntries : List (String × Entry) → Type 0
FineEntries = All λ pair. IsFineEntry pair.1

pub record IsFineJournal (journal : Journal) : Type 0 where
  pub entries : FineEntries journal.snapshots
  pub runs : All IsFineRun journal.runs

pub set_entry-FineEntries :
    (id : String) (entry : Entry) (entries : List (String × Entry))
    → IsFineEntry entry
    → FineEntries entries
    → FineEntries (set_entry id entry entries)
unfolding set_entry
set_entry-FineEntries id entry [] fine h = (fine, tt)
set_entry-FineEntries id entry ((other, old) ∷ rest) fine h = elim (Bool-cases (str_eq other id)) [
  | inl same ↦ rw same (fine, h.1)
  | inr apart ↦ rw apart (h.0, set_entry-FineEntries id entry rest fine h.1)
]

get_entry-IsFineEntry :
    (id : String) (entries : List (String × Entry)) (entry : Entry)
    → FineEntries entries
    → get_entry id entries ≡ some entry
    → IsFineEntry entry
unfolding get_entry
get_entry-IsFineEntry id [] entry fine h = cc
get_entry-IsFineEntry id ((other, old) ∷ rest) entry fine h = elim (Bool-cases (str_eq other id)) [
  | inl same ↦ let it : old ≡ entry = cc (rw same at h) in subst IsFineEntry it fine.0
  | inr apart ↦ get_entry-IsFineEntry id rest entry fine.1 (rw apart at h)
]

read_entry-IsFine :
    (runs : List JournalRun) (entry : Entry) (snapshot : JournalSnapshot)
    → All IsFineRun runs
    → IsFineEntry entry
    → read_entry runs entry ≡ some snapshot
    → All IsFine snapshot.records
unfolding read_entry
read_entry-IsFine runs (stored other) snapshot fine h e =
    let same : other ≡ snapshot = cc in subst (λ s. All IsFine s.records) same h
read_entry-IsFine runs (current number has_imports) snapshot fine h e =
    elim (Option-cases (get_elem? runs number)) [
      | inl gone ↦ cc (rw (read_entry, gone) at e)
      | inr (run, at) ↦
          let same : live_snapshot has_imports run ≡ snapshot = cc (rw (read_entry, at) at e) in
          subst (λ s. All IsFine s.records) same
            (All-get_elem? IsFineRun runs number fine at).records
    ]

-- The snapshot that `getSnapshot` gives has proper gaps.
get_snapshot-IsFine :
    (id : String) (journal : Journal) (snapshot : JournalSnapshot)
    → IsFineJournal journal
    → get_snapshot id journal ≡ some snapshot
    → All IsFine snapshot.records
unfolding get_snapshot
get_snapshot-IsFine id journal snapshot fine h =
    elim (Option-cases (get_entry id journal.snapshots)) [
      | inl gone ↦ cc (rw (get_snapshot, gone) at h)
      | inr (entry, at) ↦
          read_entry-IsFine journal.runs entry snapshot fine.runs
            (get_entry-IsFineEntry id journal.snapshots entry fine.entries at)
            (rw (get_snapshot, at) at h)
    ]

pub assert_records-IsFine :
    (records : List JournalRecord) (done : Unit {0})
    → assert_records records ≡ ok done
    → All IsFine records
unfolding assert_coverage_gap_record
assert_records-IsFine [] done h = tt
assert_records-IsFine (started key agent_id ∷ records) done h =
    (tt, assert_records-IsFine records done h)
assert_records-IsFine (finished r ∷ records) done h =
    let (one, fine, rest) =
      >>=-eq-ok (throw_if (bad_gap r.coverage_gap r.successful r.result) bad_coverage_gap)
        (λ _. assert_records records) h in
    (
      throw_if-ok (bad_gap r.coverage_gap r.successful r.result) bad_coverage_gap one fine,
      assert_records-IsFine records done rest,
    )

inherited-IsFine :
    (retain : Bool) (previous : JournalSnapshot)
    → All IsFine previous.records
    → All IsFine (inherited retain (λ s. s.records) (some previous))
inherited-IsFine true previous h = h
inherited-IsFine false previous h = tt

-- The run that `beginRun` makes is always there, with proper gaps.
start_run-IsFine :
    (identity : JournalIdentity) (options : RunOptions) (found : Option JournalSnapshot)
    → ((previous : JournalSnapshot) → found ≡ some previous → All IsFine previous.records)
    → (run : JournalRun) × (start_run identity options found ≡ ok run) × IsFineRun run
unfolding start_run new_run
start_run-IsFine identity options none fine = (
  run_of identity none [] [] [] (get_or_else options.reuse_mode longest_prefix)
      (sparse_reuse (get_or_else options.reuse_mode longest_prefix) identity none)
      (get_or_else options.reuse_coverage_gaps false) [],
  refl,
  record { records = tt; historical = tt },
)
start_run-IsFine identity options (some previous) fine =
    let mode = get_or_else options.reuse_mode longest_prefix in
    let retain = sparse_reuse mode identity (some previous) in
    let (calls, done, fine_calls) = historical_calls-IsFine previous (fine previous refl) in
    let run =
      run_of identity (some previous) (inherited retain (λ s. s.records) (some previous))
        (inherited retain (λ s. get_or_else s.sessions []) (some previous))
        (inherited retain (λ s. get_or_else s.imported_calls []) (some previous)) mode retain
        (get_or_else options.reuse_coverage_gaps false) calls in
    let fine_run : IsFineRun run = record {
      records = inherited-IsFine retain previous (fine previous refl);
      historical = fine_calls;
    } in
    (
      run,
      ap
          (λ m. m >>= λ historical. ok (record run {
            historical = historical;
            historical_keys = "" ∷ distinct_keys [] historical;
          }))
          done,
      fine_run,
    )

-- The two guards of `beginRun`, and what it does behind them.
abbrev pub start_rest : JournalIdentity → RunOptions → Journal → Result JournalError (Journal × ℕ)
start_rest identity options journal =
    let previous = get_snapshot identity.workflow_id journal in
    start_run identity options previous >>= λ run. ok (with_run identity previous journal run)

pub guards-ok :
    (identity : JournalIdentity) (rest : Result JournalError (Journal × ℕ)) {end : Journal × ℕ}
    → (throw_if (str_eq identity.workflow_id "") empty_workflow_id
        >> throw_if (str_eq identity.source_hash "") empty_source_hash
        >> rest)
      ≡ ok end
    → ((identity.workflow_id ≢ "") × (identity.source_hash ≢ "")) × (rest ≡ ok end)
guards-ok identity rest h =
    let named = throw_if (str_eq identity.workflow_id "") empty_workflow_id in
    let hashed = throw_if (str_eq identity.source_hash "") empty_source_hash in
    let (both, end) = >>-ok (named >> hashed) rest h in
    let (first, second) = >>-ok named hashed both in
    (
      (
        other_text identity.workflow_id ""
            (throw_if-ok (str_eq identity.workflow_id "") empty_workflow_id tt first),
        other_text identity.source_hash ""
            (throw_if-ok (str_eq identity.source_hash "") empty_source_hash tt second),
      ),
      end,
    )

pub begin_run-IsOk :
    (identity : JournalIdentity) (options : RunOptions) (journal : Journal)
    → IsFineJournal journal
    → identity.workflow_id ≢ ""
    → identity.source_hash ≢ ""
    → IsOk (begin_run identity options journal)
unfolding begin_run
begin_run-IsOk identity options journal fine named hashed =
    let (run, done, _) =
      start_run-IsFine identity options (get_snapshot identity.workflow_id journal)
        (λ previous. get_snapshot-IsFine identity.workflow_id journal previous fine) in
    rw
      (
        begin_run,
        str_eq-ne identity.workflow_id "" named,
        str_eq-ne identity.source_hash "" hashed,
        done,
      )
      tt

pub begin_run-IsFineJournal :
    (identity : JournalIdentity) (options : RunOptions) (journal after : Journal) (number : ℕ)
    → IsFineJournal journal
    → begin_run identity options journal ≡ ok (after, number)
    → IsFineJournal after
unfolding begin_run
begin_run-IsFineJournal identity options journal after number fine h =
    let (run, done, fine_run) =
      start_run-IsFine identity options (get_snapshot identity.workflow_id journal)
        (λ previous. get_snapshot-IsFine identity.workflow_id journal previous fine) in
    let (_, end) = guards-ok identity (start_rest identity options journal) h in
    let previous = get_snapshot identity.workflow_id journal in
    let made : with_run identity previous journal run ≡ (after, number) = cc (rw done at end) in
    subst IsFineJournal (ap (λ p. p.0) made) (record {
      entries =
          set_entry-FineEntries identity.workflow_id
            (current (length journal.runs) (previous_imports previous)) journal.snapshots tt
            fine.entries;
      runs = All-append IsFineRun journal.runs (run ∷ []) fine.runs (fine_run, tt);
    })

pub change_run-IsFineJournal :
    (sha256 : String → String) (number : ℕ) (call : RunCall) (journal : Journal)
    → IsFineJournal journal
    → IsFineJournal (change_run number (λ run. run_call sha256 run call) journal)
unfolding change_run
change_run-IsFineJournal sha256 number call journal fine =
    elim (Option-cases (get_elem? journal.runs number)) [
      | inl gone ↦ rw (change_run, gone) fine
      | inr (run, at) ↦
          rw (change_run, at)
            (record {
              entries = fine.entries;
              runs = All-set IsFineRun journal.runs number (run_call sha256 run call) fine.runs (
                  run_call-IsFineRun sha256 run call
                    (All-get_elem? IsFineRun journal.runs number fine.runs at));
            })
    ]
