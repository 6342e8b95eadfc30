-- ===== src/Journal/Admission/Donors.antt =====
-- Which historical call an admission of src/workflowJournal.ts takes its result from.
use Prim.Native.String.{len}
use workflow_mcp.Common.{
  ℕ, String, Bool, true, false, List, [], ◌∷◌, Option, none, some, ◌≡◌, refl, subst, ◌∙◌, ap, ◌⊎◌,
  inl, inr, arith, get_elem?, get_elem?-set, Any, find_index-some, str_eq, eq_iff, if◌then◌else◌,
  Bool-cases, Option-cases, ◌+◌, Result, ok, err,
}
use workflow_mcp.Journal.{
  JournalCall, JournalError, JournalHit, JournalDecision, hit, HistoricalCall, JournalRun,
}
use workflow_mcp.Journal.Keys.{canonical_options, journal_key}
use workflow_mcp.Journal.Admission.{
  Budget, spend, may_reuse, is_reusable, is_candidate, keyed_hit, try_predecessors,
  imported_options_match,
}
use workflow_mcp.Journal.Admission.Admit.{
  Search, search, run_budget, search_import, search_prompt, sole_import, call_at, replaced_at,
  consume, begin_call, admit_keyed, admit_found, admit_ok, admit, proven, nothing, reusable_at,
  prompt_key_of, finish_call,
}

-- The call found is consumed.
pub consume_self :
    (calls : List HistoricalCall) (i : ℕ) (call : HistoricalCall)
    → get_elem? calls i ≡ some call
    → get_elem? (consume (some i) calls) i ≡ some (record call { consumed = true })
unfolding consume
consume_self calls i call at =
    rw (consume, at) (get_elem?-set calls i (record call { consumed = true }) call at)

pub finish_call-historical :
    (run : JournalRun) (call : JournalCall) (key : String) (source : Option HistoricalCall)
    (begun : JournalRun)
    → (finish_call run call key source begun).0.historical ≡ begun.historical
finish_call-historical run call key none begun = refl
finish_call-historical run call key (some source) begun = refl

module _ (sha256 : String → String) where
  -- A key of the journal from which the call's own prompt and options lead to the key `target`.
  abbrev pub IsProven : String → String → List String → String → Type 0
  IsProven prompt canonical keys target =
      Any (λ key. journal_key sha256 key prompt canonical ≡ target) keys

  try_predecessors-IsProven :
      (target prompt canonical : String) (keys : List String) (budget : Budget)
      → (try_predecessors sha256 target prompt canonical keys budget).0 ≡ true
      → IsProven prompt canonical keys target
  unfolding try_predecessors
  try_predecessors-IsProven target prompt canonical [] budget h = cc
  try_predecessors-IsProven target prompt canonical (key ∷ keys) budget h =
      elim (Bool-cases (str_eq (journal_key sha256 key prompt canonical) target)) [
        | inl same ↦ inl ((eq_iff (journal_key sha256 key prompt canonical) target).0 same)
        | inr other ↦ inr (
            try_predecessors-IsProven target prompt canonical keys
              (spend (len prompt + len canonical + 2 + len key) budget) (ground (arith, other, h)))
      ]

  -- How a historical call belongs to an admission: by the key, or by proven options under a sparse
  -- history.
  abbrev pub IsLinked : JournalRun → String → String → String → HistoricalCall → Type 0
  IsLinked run key prompt canonical source =
      (source.key ≡ key)
      ⊎ (run.exact_source_sparse ≡ true) × IsProven prompt canonical run.historical_keys source.key

  -- What a search found: nothing, or one call, that is reused where it can be.
  abbrev pub Finds : JournalRun → String → String → String → Search → Type 0
  Finds run key prompt canonical found =
      ((found.reused ≡ none) × (replaced_at found ≡ none))
      ⊎ (i : ℕ) × (source : HistoricalCall) × (get_elem? run.historical i ≡ some source)
        × (source.consumed ≡ false)
        × IsLinked run key prompt canonical source
        × (replaced_at found ≡ some i)
        × (found.reused ≡ reusable_at run i (some source))

  keyed_hit-Finds :
      (run : JournalRun) (key prompt canonical : String) (i : ℕ)
      → keyed_hit run key ≡ some i
      → Finds run key prompt canonical
          (record { reused = some i; imported = none; budget = run_budget run })
  unfolding keyed_hit
  keyed_hit-Finds run key prompt canonical i h =
      let may : may_reuse run ≡ true = ground arith in
      let (source, at, fits) =
        find_index-some (is_candidate run key) run.historical i (rw may at h) in
      let fit : is_reusable run source ≡ true = ground arith in
      inr (
        i,
        source,
        at,
        ground arith,
        inl ((eq_iff source.key key).0 (ground arith)),
        refl,
        rw fit refl,
      )

  proven-Finds :
      (run : JournalRun) (key prompt canonical : String) (i : ℕ) (source : HistoricalCall)
      (answer : Bool × Budget)
      → get_elem? run.historical i ≡ some source
      → source.consumed ≡ false
      → (answer.0 ≡ true → IsLinked run key prompt canonical source)
      → Finds run key prompt canonical (proven run i source answer)
  proven-Finds run key prompt canonical i source (true, budget) at free matches =
      inr (i, source, at, free, matches refl, replaced, refl)
    where
      replaced : replaced_at (proven run i source (true, budget)) ≡ some i
      replaced = elim (Bool-cases (is_reusable run source)) [
        | inl fits ↦ rw fits refl
        | inr unfit ↦ rw unfit refl
      ]
  proven-Finds run key prompt canonical i source (false, budget) at free matches = inl (refl, refl)

  search_import-Finds :
      (run : JournalRun) (key prompt canonical : String) (place : Option ℕ)
      → run.exact_source_sparse ≡ true
      → Finds run key prompt canonical (search_import sha256 run prompt canonical place)
  unfolding search_import imported_options_match
  search_import-Finds run key prompt canonical none sparse = inl (refl, refl)
  search_import-Finds run key prompt canonical (some i) sparse =
      elim (Option-cases (get_elem? run.historical i)) [
        | inl gone ↦ rw (search_import, gone) (inl (refl, refl))
        | inr (source, at) ↦ elim (Bool-cases source.consumed) [
          | inl taken ↦ rw (search_import, at, taken) (inl (refl, refl))
          | inr free ↦
              rw (search_import, at, free)
                (proven-Finds run key prompt canonical i source
                  (imported_options_match sha256 run source prompt canonical) at free
                  (λ matches. inr (
                    sparse,
                    try_predecessors-IsProven source.key prompt canonical run.historical_keys
                        (run_budget run) matches,
                  )))
        ]
      ]

  search_prompt-Finds :
      (run : JournalRun) (key prompt canonical : String) (prompt_key : Option String)
      → Finds run key prompt canonical (search_prompt sha256 run prompt canonical prompt_key)
  search_prompt-Finds run key prompt canonical none = inl (refl, refl)
  search_prompt-Finds run key prompt canonical (some prompt_key) =
      where_sparse run.exact_source_sparse _
        (search_import-Finds run key prompt canonical (sole_import run prompt_key))
    where
      where_sparse :
          (b : Bool) (found : Search)
          → (b ≡ true → Finds run key prompt canonical found)
          → Finds run key prompt canonical (if b then found else nothing run)
      where_sparse true found finds = finds refl
      where_sparse false found finds = inl (refl, refl)

  pub search-Finds :
      (run : JournalRun) (key prompt canonical : String)
      → Finds run key prompt canonical (search sha256 run key prompt canonical)
  unfolding search
  search-Finds run key prompt canonical = elim (Option-cases (keyed_hit run key)) [
    | inl gone ↦
        rw (search, gone)
          (search_prompt-Finds run key prompt canonical (prompt_key_of sha256 run prompt))
    | inr (i, at) ↦ rw (search, at) (keyed_hit-Finds run key prompt canonical i at)
  ]

  admit_ok-ok :
      (run : JournalRun) (call : JournalCall) (made : Result JournalError String)
      (decision : JournalDecision)
      → (admit_ok sha256 run call made).1 ≡ ok decision
      → (canonical : String) × (made ≡ ok canonical)
        × (admit_keyed sha256 run call
              (journal_key sha256 run.previous_key call.prompt canonical)
              canonical
            ≡ ((admit_ok sha256 run call made).0, decision))
  admit_ok-ok run call (err e) decision h = cc
  admit_ok-ok run call (ok canonical) decision h =
      let keyed =
        admit_keyed sha256 run call (journal_key sha256 run.previous_key call.prompt canonical)
          canonical in
      let same : keyed.1 ≡ decision = cc in (canonical, refl, ap (λ d. (keyed.0, d)) same)

  -- An admission whose key could be made, and what it decided.
  pub admit-ok :
      (run : JournalRun) (call : JournalCall) (decision : JournalDecision)
      → (admit sha256 run call).1 ≡ ok decision
      → (canonical : String) × (canonical_options call.options ≡ ok canonical)
        × (admit_keyed sha256 run call
              (journal_key sha256 run.previous_key call.prompt canonical)
              canonical
            ≡ ((admit sha256 run call).0, decision))
  unfolding admit
  admit-ok run call = admit_ok-ok run call (canonical_options call.options)

  -- The source of a hit, before the admission and after it.
  abbrev pub IsTaken :
      JournalRun → JournalRun → String → String → String → JournalHit → ℕ → HistoricalCall → Type 0
  IsTaken run after key prompt canonical taken i source =
      (get_elem? run.historical i ≡ some source)
      × (source.consumed ≡ false)
      × (get_elem? after.historical i ≡ some (record source { consumed = true }))
      × (is_reusable run source ≡ true)
      × IsLinked run key prompt canonical source
      × (taken.key ≡ key)
      × (taken.result ≡ source.result)
      × (taken.coverage_gap ≡ source.coverage_gap)
      × (taken.source_agent_id ≡ source.agent_id)

  admit_found-hit :
      (run : JournalRun) (call : JournalCall) (key canonical : String) (found : Search)
      (taken : JournalHit)
      → Finds run key call.prompt canonical found
      → (admit_found sha256 run call key found).1 ≡ hit taken
      → (i : ℕ) × (source : HistoricalCall) × IsTaken run
          (admit_found sha256 run call key found).0
          key
          call.prompt
          canonical
          taken
          i
          source
  unfolding begin_call
  admit_found-hit run call key canonical found taken (inl (gone, _)) h = cc (rw gone at h)
  admit_found-hit run call key canonical found taken
        (inr (i, source, at, free, linked, replaced, reused)) h =
      elim (Bool-cases (is_reusable run source)) [
        | inr unfit ↦
            let not_reused : found.reused ≡ none = reused ∙ rw unfit refl in cc (rw not_reused at h)
        | inl fits ↦
            let is_reused : found.reused ≡ some i = reused ∙ rw fits refl in
            let chosen : call_at run found.reused ≡ some source = ap (call_at run) is_reused ∙ at in
            let decided = rw chosen at h in
            (
              i,
              source,
              (
                at,
                free,
                rw chosen (
                    ap (λ place. get_elem? (consume place run.historical) i) replaced
                    ∙ consume_self run.historical i source at),
                fits,
                linked,
                cc,
                cc,
                cc,
                cc,
              ),
            )
      ]

  -- A hit hands on the result, the gap and the agent of one historical call that had a reusable
  -- result and was not consumed; the admission consumes it. The call has the key of the admission, or,
  -- with a sparse history of the same source, a key to which some key of the journal leads with the
  -- prompt and the execution options of the admission.
  pub admit-hit :
      (run : JournalRun) (call : JournalCall) (taken : JournalHit)
      → (admit sha256 run call).1 ≡ ok (hit taken)
      → (canonical : String) × (canonical_options call.options ≡ ok canonical)
        × ((i : ℕ) × (source : HistoricalCall) × IsTaken run
              (admit sha256 run call).0
              (journal_key sha256 run.previous_key call.prompt canonical)
              call.prompt
              canonical
              taken
              i
              source)
  unfolding admit_keyed
  admit-hit run call taken h =
      let (canonical, made, keyed) = admit-ok run call (hit taken) h in
      let key = journal_key sha256 run.previous_key call.prompt canonical in
      let (i, source, is_taken) =
        admit_found-hit run call key canonical (search sha256 run key call.prompt canonical) taken
          (search-Finds run key call.prompt canonical) (ap (λ p. p.1) keyed) in
      (
        canonical,
        made,
        (
          i,
          source,
          subst (λ after. IsTaken run after key call.prompt canonical taken i source)
              (ap (λ p. p.0) keyed) is_taken,
        ),
      )
