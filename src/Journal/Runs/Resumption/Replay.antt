-- ===== src/Journal/Runs/Resumption/Replay.antt =====
-- The resumed run: its historical calls, and what it gives for the same calls.
use mathlib.Core.List.{append_assoc, append-nil}
use workflow_mcp.Common.{
  ℕ, String, Bool, true, false, List, [], ◌∷◌, ◌++◌, Option, none, some, ◌≡◌, ◌≢◌, refl, sym, ◌∙◌,
  ap, subst, All, All-map, All-append, Pairwise, eq_refl, str_eq-ne, if◌then◌else◌, length,
  get_elem?, set, find_index, ok, update_first, update_first-skip, map,
}
use workflow_mcp.Js.{JsValue}
use workflow_mcp.Journal.{
  JournalIdentity, JournalCall, JournalRecord, started, finished, longest_prefix, HistoricalCall,
  PendingCall, JournalRun,
}
use workflow_mcp.Journal.History.{
  not_null, new_call, settle, record_id, is_pending_call, assert_coverage_gap_record, bad_gap,
  replay_records, historical_calls, add_sessions, add_prompt_keys,
}
use workflow_mcp.Journal.Keys.{canonical_options, journal_key}
use workflow_mcp.Journal.Admission.{run_of, new_run, may_reuse, keyed_hit, is_candidate}
use workflow_mcp.Journal.Admission.Admit.{
  Search, call_at, run_budget, search, begin_call, consume, admit_keyed, admit,
}
use workflow_mcp.Journal.Results.{run_snapshot}
use workflow_mcp.Journal.Runs.Resumption.{
  Work, chain, chain-cons, perform, answer_of, answers, generated, donors, donor, result_record,
}
use workflow_mcp.Journal.Runs.Resumption.Generation.{
  first_run, perform-first_run, create_journal_key-ok,
}

HasResult : HistoricalCall → Type 0
HasResult call = call.has_result ≡ true

-- The records of one call settle it.
replay-donor :
    (key : String) (work : Work) (records : List JournalRecord) (calls : List HistoricalCall)
    → All (λ call. is_pending_call (record_id key work.0.agent_id) call ≡ false) calls
    → replay_records
        (started key work.0.agent_id ∷ finished (result_record key work) ∷ records)
        calls
      ≡ replay_records records (calls ++ donor key work ∷ [])
unfolding replay_records assert_coverage_gap_record bad_gap update_first
replay-donor key work records calls h = ap (replay_records records) (
    update_first-skip (is_pending_call (record_id key work.0.agent_id))
      (settle (result_record key work)) calls (new_call key work.0.agent_id ∷ []) h
    ∙ ap (◌++◌ calls) (rw (eq_refl (record_id key work.0.agent_id)) refl))

replay_records-generated :
    (keys : List String) (works : List Work) (calls : List HistoricalCall)
    → All HasResult calls
    → replay_records (generated keys works) calls ≡ ok (calls ++ donors keys works)
unfolding replay_records generated donors HasResult
replay_records-generated [] works calls h = rw append-nil refl
replay_records-generated (key ∷ keys) [] calls h = rw append-nil refl
replay_records-generated (key ∷ keys) (work ∷ works) calls h =
    replay-donor key work (generated keys works) calls
      (All-map (λ call (e : call.has_result ≡ true). rw e refl) calls h)
    ∙ replay_records-generated keys works (calls ++ donor key work ∷ [])
        (All-append HasResult calls (donor key work ∷ []) h (refl, tt))
    ∙ ap ok (append_assoc calls (donor key work ∷ []) (donors keys works))

-- The run that resumes a generation: it may reuse its prefix, and nothing else.
record Resumes (run : JournalRun) : Type 0 where
  may : run.can_reuse_prefix ≡ true
  prefix : run.exact_source_sparse ≡ false

-- The calls of other keys.
abbrev Others : List String → HistoricalCall → Type 0
Others keys call = All (λ key. call.key ≢ key) keys

find_index-donor :
    (run : JournalRun) (key : String) (work : Work) (used rest : List HistoricalCall)
    → not_null work.1 ≡ true
    → All (λ call. call.key ≢ key) used
    → find_index (is_candidate run key) (used ++ donor key work ∷ rest) ≡ some (length used)
unfolding find_index
find_index-donor run key work [] rest given others = rw (eq_refl key, given) refl
find_index-donor run key work (call ∷ used) rest given others =
    rw (str_eq-ne call.key key others.0, find_index-donor run key work used rest given others.1)
      refl

get_elem?-middle {ℓ} :
    {A : Type ℓ} (xs ys : List A) (x : A) → get_elem? (xs ++ x ∷ ys) (length xs) ≡ some x
get_elem?-middle [] ys x = refl
get_elem?-middle (y ∷ xs) ys x = get_elem?-middle xs ys x

set-middle {ℓ} :
    {A : Type ℓ} (xs ys : List A) (x v : A) → set (xs ++ x ∷ ys) (length xs) v ≡ xs ++ v ∷ ys
set-middle [] ys x v = refl
set-middle (y ∷ xs) ys x v = ap (◌∷◌ y) (set-middle xs ys x v)

when_true {ℓ} : {A : Type ℓ} (b : Bool) (x y : A) → b ≡ true → (if b then x else y) ≡ x
when_true true x y h = refl
when_true false x y h = cc

module _ (sha256 : String → String) (run : JournalRun) (key canonical : String) (work : Work)
    (used rest : List HistoricalCall) (resumes : Resumes run) (given : not_null work.1 ≡ true)
    (others : All (λ call. call.key ≢ key) used)
    (previous : run.historical ≡ used ++ donor key work ∷ rest) where
  keyed_hit-donor : keyed_hit run key ≡ some (length used)
  unfolding keyed_hit
  keyed_hit-donor =
      let may : may_reuse run ≡ true = rw resumes.may refl in
      when_true (may_reuse run) (find_index (is_candidate run key) run.historical) none may
      ∙ ap (find_index (is_candidate run key)) previous
      ∙ find_index-donor run key work used rest given others

  search-donor :
      search sha256 run key work.0.prompt canonical
      ≡ record { reused = some (length used); imported = none; budget = run_budget run }
  unfolding search
  search-donor = rw (search, keyed_hit-donor) refl

  abbrev found_donor : Search
  found_donor = record { reused = some (length used); imported = none; budget = run_budget run }

  call_at-donor : call_at run (some (length used)) ≡ some (donor key work)
  call_at-donor =
      ap (λ calls. get_elem? calls (length used)) previous
      ∙ get_elem?-middle used rest (donor key work)

  consume-donor :
      consume (some (length used)) run.historical
      ≡ (used ++ record (donor key work) { consumed = true } ∷ []) ++ rest
  unfolding consume
  consume-donor =
      ap (consume (some (length used))) previous
      ∙ rw (consume, get_elem?-middle used rest (donor key work))
          (set-middle used rest (donor key work) (record (donor key work) { consumed = true })
            ∙ sym (append_assoc used (record (donor key work) { consumed = true } ∷ []) rest))

  -- An admission takes over the next historical call.
  admit_keyed-donor :
      (answer_of (ok (admit_keyed sha256 run work.0 key canonical).1) ≡ some work.1)
      × ((admit_keyed sha256 run work.0 key canonical).0.previous_key ≡ key)
      × ((admit_keyed sha256 run work.0 key canonical).0.historical
          ≡ (used ++ record (donor key work) { consumed = true } ∷ []) ++ rest)
      × Resumes (admit_keyed sha256 run work.0 key canonical).0
  unfolding admit_keyed begin_call
  admit_keyed-donor =
      rw (admit_keyed, search-donor, call_at-donor)
        (refl, refl, consume-donor, record { may = resumes.may; prefix = resumes.prefix })

abbrev pub results : List Work → List (Option JsValue)
results = map λ work. some work.1

module _ (sha256 : String → String) where
  admit-keyed :
      (run : JournalRun) (call : JournalCall) (key canonical : String)
      → canonical_options call.options ≡ ok canonical
      → journal_key sha256 run.previous_key call.prompt canonical ≡ key
      → admit sha256 run call ≡ (
        (admit_keyed sha256 run call key canonical).0,
        ok (admit_keyed sha256 run call key canonical).1,
      )
  unfolding admit
  admit-keyed run call key canonical made same =
      rw (admit, made)
        (ap
          (λ k. (
            (admit_keyed sha256 run call k canonical).0,
            ok (admit_keyed sha256 run call k canonical).1,
          ))
          same)

  answers-donors :
      (run : JournalRun) (before : String) (used : List HistoricalCall) (keys : List String)
      (works : List Work)
      → Resumes run
      → run.previous_key ≡ before
      → run.historical ≡ used ++ donors keys works
      → chain sha256 before works ≡ ok keys
      → Pairwise (λ k l. k ≢ l) keys
      → All (λ key. All (λ call. call.key ≢ key) used) keys
      → All (λ work. not_null work.1 ≡ true) works
      → answers sha256 run works ≡ results works
  unfolding answers donors
  answers-donors run before used keys [] resumes at previous chained distinct others given = refl
  answers-donors run before used keys (work ∷ works) resumes at previous chained distinct others
        given =
      let (key, rest, made, follow, same) = chain-cons sha256 before work works keys chained in
      let (canonical, options, keyed) = create_journal_key-ok sha256 before work.0 key made in
      let apart = subst (Pairwise λ k l. k ≢ l) same distinct in
      let unused = subst (All λ k. All (λ call. call.key ≢ k) used) same others in
      let (answer, next, historical, still) =
        admit_keyed-donor sha256 run key canonical work used (donors rest works) resumes given.0
          unused.0 (previous ∙ ap (λ ks. used ++ donors ks (work ∷ works)) same) in
      let admitted =
        admit-keyed run work.0 key canonical options
          (ap (λ k. journal_key sha256 k work.0.prompt canonical) at ∙ keyed) in
      let tail =
        answers-donors (admit_keyed sha256 run work.0 key canonical).0 key
          (used ++ record (donor key work) { consumed = true } ∷ []) rest works still next
          historical follow apart.1 (both key work used rest apart.0 unused.1) given.1 in
      ap (λ p. answer_of p.1 ∷ answers sha256 p.0 works) admitted
      ∙ ap (λ a. a ∷ answers sha256 (admit_keyed sha256 run work.0 key canonical).0 works) answer
      ∙ ap (λ tail. some work.1 ∷ tail) tail
    where
      both :
          (key : String) (work : Work) (used : List HistoricalCall) (rest : List String)
          → All (λ l. key ≢ l) rest
          → All (λ k. All (λ call. call.key ≢ k) used) rest
          → All
              (λ k.
                All
                  (λ call. call.key ≢ k)
                  (used ++ record (donor key work) { consumed = true } ∷ []))
              rest
      both key work used [] h g = tt
      both key work used (k ∷ rest) h g =
          (All-append (λ call. call.key ≢ k) used _ g.0 (h.0, tt), both key work used rest h.1 g.1)

  historical_calls-generated :
      (identity : JournalIdentity) (count : ℕ) (last : String) (keys : List String)
      (works : List Work) (calls : List PendingCall)
      → historical_calls (run_snapshot (first_run identity count last (generated keys works) calls))
        ≡ ok (donors keys works)
  unfolding historical_calls run_snapshot add_sessions add_prompt_keys
  historical_calls-generated identity count last keys works calls =
      rw (historical_calls, replay_records-generated keys works [] tt) refl

  -- The calls of a generation, one after the other with results that are not null, all leave their
  -- results in the journal; a run that resumes its snapshot, of whatever source, gives each of the
  -- same calls the recorded result, where the chained keys of the calls are all different.
  pub perform-answers :
      (identity edited : JournalIdentity) (works : List Work) (keys : List String)
      → chain sha256 "" works ≡ ok keys
      → Pairwise (λ k l. k ≢ l) keys
      → All (λ work. not_null work.1 ≡ true) works
      → (first done resumed : JournalRun) × (new_run identity none [] [] [] longest_prefix false
            false
          ≡ ok first)
        × (perform sha256 first works ≡ ok done)
        × (new_run edited (some (run_snapshot done)) [] [] [] longest_prefix false false
            ≡ ok resumed)
        × (answers sha256 resumed works ≡ results works)
  unfolding new_run
  perform-answers identity edited works keys chained distinct given =
      let (end, last, calls, done) =
        perform-first_run sha256 identity 0 "" [] [] works keys tt chained in
      let snapshot = run_snapshot (first_run identity end last (generated keys works) calls) in
      let resumed =
        run_of edited (some snapshot) [] [] [] longest_prefix false false (donors keys works) in
      (
        first_run identity 0 "" [] [],
        first_run identity end last (generated keys works) calls,
        resumed,
        refl,
        done,
        rw (new_run, historical_calls-generated identity end last keys works calls) refl,
        answers-donors resumed "" [] keys works (record { may = refl; prefix = refl }) refl refl
            chained distinct (nothing_used keys) given,
      )
    where
      nothing_used :
          (keys : List String)
          → All (λ key. All (λ (call : HistoricalCall). call.key ≢ key) []) keys
      nothing_used [] = tt
      nothing_used (key ∷ keys) = (tt, nothing_used keys)
