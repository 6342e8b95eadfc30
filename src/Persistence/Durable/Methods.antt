-- ===== src/Persistence/Durable/Methods.antt =====
-- `PersistentWorkflowJournalRun`: when a method returns, and what a reader of the file finds then.
use workflow_mcp.Common.{
  Bool-cases, ℕ, String, Bool, true, false, none, some, ◌≡◌, ◌↔◌, sym, subst, refl, ◌∙◌, ap, inl,
  inr, All, Option-cases, Result-cases, ok,
}
use workflow_mcp.Js.{JsValue}
use workflow_mcp.Js.Passage.{Written, written, through_json}
use workflow_mcp.Journal.{JournalRun}
use workflow_mcp.Journal.Runs.{RunCall, run_call}
use workflow_mcp.Journal.Store.{get_snapshots, change_run}
use workflow_mcp.Persistence.{stored_form, journal_version}
use workflow_mcp.Persistence.Validation.{validate_snapshot_collection}
use workflow_mcp.Persistence.Parsing.{parse_stored_journal}
use workflow_mcp.Persistence.RoundTrip.{IsStorable}
use workflow_mcp.Persistence.Carried.{parse_stored_journal-through_json}
use workflow_mcp.Persistence.Durable.{Persistent, write_file, persist_all, run_error, call_method}

-- The file has what the journal has, as it is read.
abbrev pub IsDurable : Persistent → Type 0
IsDurable p =
    (file : JsValue) × (p.file ≡ some file)
    × (parse_stored_journal file
        ≡ ok (record { version = journal_version; snapshots = get_snapshots p.journal }))

write_file-journal :
    (writes : Bool) (w : Written) (p : Persistent) → (write_file writes w p).0.journal ≡ p.journal
write_file-journal true (written value) p = refl
write_file-journal false (written value) p = refl
write_file-journal writes w p = refl

write_file-written :
    (writes : Bool) (value : JsValue) (p after : Persistent)
    → write_file writes (written value) p ≡ (after, none)
    → record p { file = some value } ≡ after
write_file-written true value p after h = ap (λ a. a.0) h
write_file-written false value p after h = cc (ap (λ a. a.1) h)

persist_all-journal :
    (writes : Bool) (p : Persistent) → (persist_all writes p).0.journal ≡ p.journal
unfolding persist_all
persist_all-journal writes p =
    elim (Result-cases (validate_snapshot_collection (get_snapshots p.journal))) [
      | inr (e, invalid) ↦ rw (persist_all, invalid) refl
      | inl (done, valid) ↦
          rw (persist_all, valid)
            (write_file-journal writes (through_json (stored_form (get_snapshots p.journal))) p)
    ]

persist_all-IsDurable :
    (writes : Bool) (p after : Persistent)
    → persist_all writes p ≡ (after, none)
    → All IsStorable (get_snapshots after.journal)
    → IsDurable after
unfolding persist_all
persist_all-IsDurable writes p after h storable =
    elim (Result-cases (validate_snapshot_collection (get_snapshots p.journal))) [
      | inr (e, invalid) ↦ cc (ap (λ a. a.1) (rw (persist_all, invalid) at h))
      | inl (done, valid) ↦
          let journals : get_snapshots p.journal ≡ get_snapshots after.journal =
            ap get_snapshots (sym (persist_all-journal writes p) ∙ ap (λ a. a.0.journal) h) in
          let (file, made, read) =
            parse_stored_journal-through_json (get_snapshots p.journal) valid
              (subst (All IsStorable) (sym journals) storable) in
          let wrote : write_file writes (through_json (stored_form (get_snapshots p.journal))) p
              ≡ (after, none) =
            rw (persist_all, valid) at h in
          let same : record p { file = some file } ≡ after =
            write_file-written writes file p after
              (ap (λ w. write_file writes w p) (sym made) ∙ wrote) in
          (
            file,
            sym (ap (λ q. q.file) same),
            read
                ∙ ap (λ snapshots. ok (record { version = journal_version; snapshots = snapshots }))
                    journals,
          )
    ]

-- A journal whose results JSON carries is written exactly if it is valid and the file can be replaced.
persist_all-returns :
    (writes : Bool) (p : Persistent)
    → All IsStorable (get_snapshots p.journal)
    → ((persist_all writes p).1 ≡ none)
      ↔ ((writes ≡ true) × (validate_snapshot_collection (get_snapshots p.journal) ≡ ok tt))
unfolding persist_all
persist_all-returns writes p storable =
    elim (Result-cases (validate_snapshot_collection (get_snapshots p.journal))) [
      | inr (e, invalid) ↦ ((λ h. cc (rw (persist_all, invalid) at h)), (λ h. cc (invalid, h.1)))
      | inl (done, valid) ↦
          let (file, made, read) =
            parse_stored_journal-through_json (get_snapshots p.journal) valid storable in
          elim (Bool-cases writes) [
            | inl succeeds ↦
                ((λ h. (succeeds, valid)), (λ h. rw (persist_all, valid, made, succeeds) refl))
            | inr fails ↦
                ((λ h. cc (rw (persist_all, valid, made, fails) at h)), (λ h. cc (fails, h.0)))
          ]
    ]

-- The journal in memory behind a method of a run.
abbrev pub changed : (String → String) → ℕ → RunCall → JournalRun → Persistent → Persistent
changed sha256 number call run p = record p {
  journal = change_run number (λ r. run_call sha256 r call) p.journal;
}

-- Where the records, sessions and imported calls that the journal has behind a method are of proper form
-- and JSON carries their results: the method returns exactly if the run in memory did not throw, the file
-- can be replaced and the snapshots are valid; and then a reader of the file finds exactly the snapshots
-- that the journal has in memory, whatever the file was before.
pub call_method-IsDurable :
    (sha256 : String → String) (writes : Bool) (number : ℕ) (call : RunCall) (run : JournalRun)
    (p : Persistent)
    → All IsStorable (get_snapshots (changed sha256 number call run p).journal)
    → ((call_method sha256 writes number call run p).1 ≡ none) ↔ (
        ((run_error sha256 run call ≡ none)
          × (writes ≡ true)
          × (validate_snapshot_collection (get_snapshots (changed sha256 number call run p).journal)
              ≡ ok tt))
        × IsDurable (call_method sha256 writes number call run p).0)
unfolding call_method
call_method-IsDurable sha256 writes number call run p storable =
    elim (Option-cases (run_error sha256 run call)) [
      | inr (e, thrown) ↦ ((λ h. cc (rw (call_method, thrown) at h)), (λ h. cc (thrown, h.0.0)))
      | inl none_thrown ↦
          let next = changed sha256 number call run p in
          let exact = persist_all-returns writes next storable in
          let same : call_method sha256 writes number call run p ≡ persist_all writes next =
            rw (call_method, none_thrown) refl in
          (
            (λ h.
                let done : (persist_all writes next).1 ≡ none = sym (ap (λ a. a.1) same) ∙ h in
                let durable =
                  persist_all-IsDurable writes next (persist_all writes next).0
                    (ap (λ e. ((persist_all writes next).0, e)) done)
                    (subst (λ j. All IsStorable (get_snapshots j))
                      (sym (persist_all-journal writes next)) storable) in
                (
                  (none_thrown, (exact.0 done).0, (exact.0 done).1),
                  subst (λ a. IsDurable a.0) (sym same) durable,
                )),
            (λ h. ap (λ a. a.1) same ∙ exact.1 (h.0.1, h.0.2)),
          )
    ]
