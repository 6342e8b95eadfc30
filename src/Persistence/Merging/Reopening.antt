-- ===== src/Persistence/Merging/Reopening.antt =====
-- A second merge with the same fallback, as each recovery does one.
use mathlib.Core.List.{append-nil}
use workflow_mcp.Common.{
  String, true, false, List, [], ◌++◌, Option, none, some, ◌≡◌, refl, ◌∙◌, ap, arith, map, filter,
  All-map, All-intro, get_or_else,
}
use workflow_mcp.Journal.{JournalImportedCall, JournalSnapshot}
use workflow_mcp.Journal.Admission.Admit.{record_key}
use workflow_mcp.Persistence.Merging.{
  has, session_identity, imported_identity, prompt_key_in, supersedes, superseded, is_left,
  merge_list, record_call, session_call, merge_imported, merge_optional, merge_snapshots,
}
use workflow_mcp.Persistence.Merging.Sets.{
  has-map_append, has-filter, has-wider, has-none, filter-none,
}

-- What a list that is merged again adds: nothing, as each entry of the fallback is of a name that
-- stands there, or of a call that was superseded and still is.
merged_again {ℓ} :
    {A : Type ℓ} (name call : A → String) (gone still_gone : List String)
    (primary fallback : List A)
    → ((t : String) → has gone t ≡ true → has still_gone t ≡ true)
    → merge_list name call still_gone (merge_list name call gone primary fallback) fallback
      ≡ merge_list name call gone primary fallback
merged_again name call gone still_gone primary fallback later =
    ap (◌++◌ (merge_list name call gone primary fallback)) (
      filter-none (is_left name call still_gone (merge_list name call gone primary fallback))
        fallback
        (All-map
          (λ x
              (h : is_left name call gone primary x ≡ true
                → has (map name (filter (is_left name call gone primary) fallback)) (name x)
                  ≡ true).
            ground (
              arith,
              has-map_append name primary (filter (is_left name call gone primary) fallback)
                  (name x),
              h,
              later (call x),
            ))
          fallback (has-filter name (is_left name call gone primary) fallback)))
    ∙ append-nil (merge_list name call gone primary fallback)

-- A call that was superseded still is after the merge.
supersedes_still :
    (primary fallback : List JournalImportedCall) (r : JournalImportedCall)
    → has (superseded primary fallback) (imported_identity r) ≡ true
    → supersedes primary r ≡ true
    → supersedes (merge_imported (superseded primary fallback) primary fallback) r ≡ true
supersedes_still primary fallback r known h =
    let gone = superseded primary fallback in
    let rest = filter (is_left imported_identity imported_identity gone primary) fallback in
    let apart : has (map imported_identity rest) (imported_identity r) ≡ false =
      has-none imported_identity (is_left imported_identity imported_identity gone primary) gone
        (imported_identity r) fallback
        (All-intro
          (λ c (left : is_left imported_identity imported_identity gone primary c ≡ true).
            ground arith)
          fallback)
        known in
    ground (
      arith,
      h,
      apart,
      has-map_append prompt_key_in primary rest r.prompt_key,
      has-map_append imported_identity primary rest (imported_identity r),
    )

superseded_still :
    (primary fallback : List JournalImportedCall) (t : String)
    → has (superseded primary fallback) t ≡ true
    → has (superseded (merge_imported (superseded primary fallback) primary fallback) fallback) t
      ≡ true
superseded_still primary fallback t =
    has-wider imported_identity (supersedes primary)
      (supersedes (merge_imported (superseded primary fallback) primary fallback)) t fallback
      (All-map
        {Q = λ r.
          supersedes primary r ≡ true
          → supersedes (merge_imported (superseded primary fallback) primary fallback) r ≡ true}
        (λ r
            (known : supersedes primary r ≡ true
              → has (superseded primary fallback) (imported_identity r) ≡ true)
            h.
          supersedes_still primary fallback r (known h) h)
        fallback (has-filter imported_identity (supersedes primary) fallback))

merge_optional-again :
    (primary fallback : Option (List JournalImportedCall))
    → let gone = superseded (get_or_else primary []) (get_or_else fallback []) in
      (get_or_else (merge_optional gone primary fallback) []
        ≡ merge_imported gone (get_or_else primary []) (get_or_else fallback []))
      × (merge_optional
            (superseded
              (get_or_else (merge_optional gone primary fallback) [])
              (get_or_else fallback []))
            (merge_optional gone primary fallback)
            fallback
          ≡ merge_optional gone primary fallback)
merge_optional-again none none = (refl, refl)
merge_optional-again none (some fallback) = (
  refl,
  ap some (
      merged_again imported_identity imported_identity _ _ [] fallback
        (superseded_still [] fallback)),
)
merge_optional-again (some primary) fallback = (
  refl,
  ap some (
      merged_again imported_identity imported_identity _ _ primary (get_or_else fallback [])
        (superseded_still primary (get_or_else fallback []))),
)

-- Merging a snapshot with the same fallback once more changes nothing: a journal does not grow when it
-- is opened again and again with the history that it inherited.
pub merge_snapshots-again :
    (primary fallback : JournalSnapshot)
    → merge_snapshots (merge_snapshots primary fallback) fallback ≡ merge_snapshots primary fallback
unfolding merge_snapshots
merge_snapshots-again primary fallback =
    let own = get_or_else primary.imported_calls [] in
    let others = get_or_else fallback.imported_calls [] in
    let gone = superseded own others in
    let merged = merge_optional gone primary.imported_calls fallback.imported_calls in
    let still_gone = superseded (get_or_else merged []) others in
    let (imports, again) = merge_optional-again primary.imported_calls fallback.imported_calls in
    let later : (t : String) → has gone t ≡ true → has still_gone t ≡ true = λ t h.
      ap (λ calls. has (superseded calls others) t) imports ∙ superseded_still own others t h in
    let records =
      merged_again record_key record_call gone still_gone primary.records fallback.records later in
    let sessions =
      merged_again session_identity session_call gone still_gone (get_or_else primary.sessions [])
        (get_or_else fallback.sessions []) later in
    λ i. record {
      identity = primary.identity;
      records = records i;
      sessions = some (sessions i);
      imported_calls = again i;
    }
