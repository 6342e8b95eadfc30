-- ===== src/Journal/Admission/Retained.antt =====
-- Which records of the journal an admission of src/workflowJournal.ts removes.
use workflow_mcp.Common.{
  ℕ, String, Bool, true, false, not, ◌&&◌, List, Option, none, some, ◌≡◌, ◌≢◌, refl, sym, ◌∙◌, ap,
  subst, ◌⊎◌, inl, inr, arith, Any, Any-map, Any-filter_of, Any-append_left, get_elem?, filter,
  str_eq, str_eq-ne, eq_iff, Bool-cases, ok,
}
use workflow_mcp.Journal.{
  JournalCall, JournalRecord, JournalDecision, miss, hit, HistoricalCall, JournalRun,
}
use workflow_mcp.Journal.Keys.{journal_key}
use workflow_mcp.Journal.Admission.Admit.{
  Search, search, call_at, replaced_at, record_key, record_agent, is_record_of, compact,
  drop_replaced, consume, begin_call, finish_call, admit_found, admit_keyed, admit,
}
use workflow_mcp.Journal.Admission.Donors.{
  Finds, search-Finds, admit-ok, consume_self, finish_call-historical,
}

abbrev pub IsKept : JournalRecord → List JournalRecord → Type 0
IsKept r = Any λ s. s ≡ r

keeps-filter :
    (p : JournalRecord → Bool) (r : JournalRecord) (records : List JournalRecord)
    → p r ≡ true
    → IsKept r records
    → IsKept r (filter p records)
keeps-filter p r records passes h =
    Any-filter_of (λ s. s ≡ r) p records
      (Any-map (λ s (e : s ≡ r). (e, subst (λ q. p q ≡ true) (sym e) passes)) records h)

keeps-compact :
    (retain : Bool) (key : String) (r : JournalRecord) (records : List JournalRecord)
    → record_key r ≢ key
    → IsKept r records
    → IsKept r (compact retain key records)
keeps-compact false key r records other h = h
keeps-compact true key r records other h =
    keeps-filter (λ s. not (str_eq (record_key s) key)) r records
      (rw (str_eq-ne (record_key r) key other) refl) h

keeps-drop_replaced :
    (retain : Bool) (key : String) (source : HistoricalCall) (r : JournalRecord)
    (records : List JournalRecord)
    → is_record_of source.key source.agent_id r ≡ false
    → IsKept r records
    → IsKept r (drop_replaced retain key (some source) records)
keeps-drop_replaced retain key source r records other h =
    elim (Bool-cases (retain && not (str_eq source.key key))) [
      | inl drops ↦ rw drops (
          keeps-filter (λ s. not (is_record_of source.key source.agent_id s)) r records
            (rw other refl) h)
      | inr keeps ↦ rw keeps h
    ]

keeps-finish_call :
    (run : JournalRun) (call : JournalCall) (key : String) (source : Option HistoricalCall)
    (begun : JournalRun) (r : JournalRecord)
    → IsKept r begun.records
    → IsKept r (finish_call run call key source begun).0.records
keeps-finish_call run call key none begun r h = h
keeps-finish_call run call key (some source) begun r h =
    Any-append_left (λ s. s ≡ r) begun.records _ h

abbrev pub key_of : JournalDecision → String
key_of (miss decision) = decision.key
key_of (hit taken) = taken.key

-- The record is of a historical call that was not consumed before an admission, and is after it.
abbrev pub IsReplaced : JournalRun → JournalRun → JournalRecord → Type 0
IsReplaced run after r =
    (i : ℕ) × (source : HistoricalCall) × (get_elem? run.historical i ≡ some source)
    × (source.consumed ≡ false)
    × (get_elem? after.historical i ≡ some (record source { consumed = true }))
    × (record_key r ≡ source.key)
    × (record_agent r ≡ source.agent_id)

finish_call-key :
    (run : JournalRun) (call : JournalCall) (key : String) (source : Option HistoricalCall)
    (begun : JournalRun)
    → key_of (finish_call run call key source begun).1 ≡ key
finish_call-key run call key none begun = refl
finish_call-key run call key (some source) begun = refl

module _ (sha256 : String → String) where
  admit_found-retains :
      (run : JournalRun) (call : JournalCall) (key canonical : String) (found : Search)
      (r : JournalRecord)
      → Finds sha256 run key call.prompt canonical found
      → record_key r ≢ key
      → IsKept r run.records
      → IsKept r (admit_found sha256 run call key found).0.records
        ⊎ IsReplaced run (admit_found sha256 run call key found).0 r
  unfolding begin_call
  admit_found-retains run call key canonical found r (inl (gone, nothing)) other h = inl (
      keeps-finish_call run call key (call_at run found.reused)
        (begin_call sha256 run call key found) r
        (Any-append_left (λ s. s ≡ r) _ _
          (subst
            (λ place. IsKept r (
              drop_replaced run.retain_sparse_history key (call_at run place)
                (compact run.retain_sparse_history key run.records)))
            (sym nothing) (keeps-compact run.retain_sparse_history key r run.records other h))))
  admit_found-retains run call key canonical found r
        (inr (i, source, at, free, linked, replaced, reused)) other h =
      let found_call : call_at run (replaced_at found) ≡ some source =
        ap (call_at run) replaced ∙ at in
      elim (Bool-cases (is_record_of source.key source.agent_id r)) [
        | inl its ↦ inr (
          i,
          source,
          at,
          free,
          ap (λ calls. get_elem? calls i)
                (finish_call-historical run call key (call_at run found.reused)
                    (begin_call sha256 run call key found)
                  ∙ ap (λ place. consume place run.historical) replaced)
              ∙ consume_self run.historical i source at,
          (eq_iff (record_key r) source.key).0 (ground arith),
          (eq_iff (record_agent r) source.agent_id).0 (ground arith),
        )
        | inr not_its ↦ inl (
            keeps-finish_call run call key (call_at run found.reused)
              (begin_call sha256 run call key found) r
              (Any-append_left (λ s. s ≡ r) _ _
                (subst
                  (λ c. IsKept r (
                    drop_replaced run.retain_sparse_history key c
                      (compact run.retain_sparse_history key run.records)))
                  (sym found_call)
                  (keeps-drop_replaced run.retain_sparse_history key source r _ not_its
                    (keeps-compact run.retain_sparse_history key r run.records other h)))))
      ]

  -- An admission keeps every record of another key than its own, except those of a historical call that
  -- it consumes and that was not consumed before: after a crash the calls that were not yet visited can
  -- still be reused.
  pub admit-retains :
      (run : JournalRun) (call : JournalCall) (decision : JournalDecision) (r : JournalRecord)
      → (admit sha256 run call).1 ≡ ok decision
      → record_key r ≢ key_of decision
      → IsKept r run.records
      → IsKept r (admit sha256 run call).0.records ⊎ IsReplaced run (admit sha256 run call).0 r
  unfolding admit_keyed
  admit-retains run call decision r h other kept =
      let (canonical, made, keyed) = admit-ok sha256 run call decision h in
      let key = journal_key sha256 run.previous_key call.prompt canonical in
      let found = search sha256 run key call.prompt canonical in
      let own : key_of decision ≡ key =
        ap key_of (sym (ap (λ p. p.1) keyed))
        ∙ finish_call-key run call key (call_at run found.reused)
            (begin_call sha256 run call key found) in
      subst (λ after. IsKept r after.records ⊎ IsReplaced run after r) (ap (λ p. p.0) keyed)
        (admit_found-retains run call key canonical found r
          (search-Finds sha256 run key call.prompt canonical) (λ same. other (same ∙ sym own)) kept)
