-- ===== src/Journal/Samples.antt =====
-- Two calls and their resumption, in the model of src/workflowJournal.ts. The digest is the text itself.
use workflow_mcp.Common.{
  ℕ, String, true, false, List, [], ◌∷◌, none, some, ◌≡◌, ◌≢◌, refl, ap, ◌↔◌, ◌⊎◌, inl, inr, arith,
  All, eq_iff, find, ok, err, IsOk, ◌+◌, ◌≤◌, find_index,
}
use workflow_mcp.Value
use workflow_mcp.Js
use workflow_mcp.Js.{JsValue, JsProperties, own_property, get_property}
use workflow_mcp.Js.Units.{units, char_units, sort_keys}
use workflow_mcp.Js.Json.{json, enumerate_one}
use workflow_mcp.Events.Failure.{is_workflow_agent_failure_placeholder}
use workflow_mcp.Journal
use workflow_mcp.Journal.{
  JournalIdentity, JournalCall, JournalRecord, JournalSnapshot, JournalError, JournalMiss,
  JournalHit, JournalDecision, HistoricalCall, PendingCall, JournalRun, longest_prefix,
  exact_source_sparse, started, not_unfinished,
}
use workflow_mcp.Journal.Canonical.{canonicalize, canonicalize_journal_value}
use workflow_mcp.Journal.Canonical.Reordering
use workflow_mcp.Journal.Canonical.Reordering.{Reordered, canonicalize_journal_value-Reordered}
use workflow_mcp.Journal.Keys.{
  execution_options, canonical_options, journal_key, create_journal_key, execution_option_keys,
}
use workflow_mcp.Journal.Keys.Options.{SameOption, create_journal_key-options}
use workflow_mcp.Journal.History.{bad_gap, assert_coverage_gap_record, assert_imported_calls}
use workflow_mcp.Journal.Admission.{Budget, run_of, new_run, keyed_hit, try_predecessors}
use workflow_mcp.Journal.Admission.Admit.{search, consume, begin_call, admit_keyed, admit}
use workflow_mcp.Journal.Admission.Donors.{IsTaken, admit-hit}
use workflow_mcp.Journal.Admission.Payment.{Pays, Ends, try_predecessors-Pays}
use workflow_mcp.Journal.Admission.Retained.{IsKept, IsReplaced, admit-retains}
use workflow_mcp.Journal.Results.{
  ResultOptions, is_index, unfinished, settle_call, record_result, run_snapshot, is_session_of,
}
use workflow_mcp.Journal.Results.Settlement.{
  IsUnfinished, IsProperGap, record_result-IsOk_iff, record_result-once, record_result-gap,
}
use workflow_mcp.Journal.Runs.{RunCall, run_calls}
use workflow_mcp.Journal.Runs.Donations.{unconsumed, hits, hits-le}
use workflow_mcp.Journal.Runs.Prefix.{run_calls-prefix}
use workflow_mcp.Journal.Runs.Resumption.{Work, chain, perform, answers, donors, generated}
use workflow_mcp.Journal.Runs.Resumption.Replay.{results, perform-answers}
use workflow_mcp.Journal.Store
use workflow_mcp.Journal.Store.{set_entry, Journal, RunOptions, new_journal, begin_run}
use workflow_mcp.Journal.Store.Gaps.Histories.{JournalStep, journal_steps, begin_run-IsOk_iff}

abbrev digest : String → String
digest text = text

abbrev identity : JournalIdentity
identity = record { workflow_id = "review"; source_hash = "h1" }

abbrev edited : JournalIdentity
edited = record { workflow_id = "review"; source_hash = "h2" }

abbrev call_a : JournalCall
call_a = record {
  agent_id = "a";
  prompt = "Find";
  options = some (
      Js.property "model" (Js.text "small")
        (Js.property "label" (Js.text "first") Js.no_properties));
}

abbrev call_b : JournalCall
call_b = record { agent_id = "b"; prompt = "Fix"; options = none }

abbrev works : List Work
works = (call_a, Js.text "bug") ∷ (call_b, Js.boolean true) ∷ []

abbrev key_a : String
key_a = "v2:\0Find\0{\"model\":\"small\"}"

abbrev key_b : String
key_b = "v2:v2:\0Find\0{\"model\":\"small\"}\0Fix\0{}"

chained : chain digest "" works ≡ ok (key_a ∷ key_b ∷ [])
unfolding chain create_journal_key canonical_options execution_options own_property
    canonicalize_journal_value canonicalize sort_keys json enumerate_one journal_key
chained = refl

perform-answers_example :
    (first done resumed : JournalRun) × (new_run identity none [] [] [] longest_prefix false false
      ≡ ok first)
    × (perform digest first works ≡ ok done)
    × (new_run edited (some (run_snapshot done)) [] [] [] longest_prefix false false ≡ ok resumed)
    × (answers digest resumed works ≡ results works)
perform-answers_example =
    perform-answers digest identity edited works (key_a ∷ key_b ∷ []) chained
      ((ground (arith, eq_iff key_a key_b), tt), (tt, tt)) (refl, (refl, tt))

-- The run that resumes the two calls.
abbrev snapshot : JournalSnapshot
snapshot = record {
  identity = identity;
  records = generated (key_a ∷ key_b ∷ []) works;
  sessions = none;
  imported_calls = none;
}

abbrev resumed : JournalRun
resumed =
    run_of edited (some snapshot) [] [] [] longest_prefix false false
      (donors (key_a ∷ key_b ∷ []) works)

abbrev hit_a : JournalHit
hit_a = record {
  call_index = 0;
  key = key_a;
  agent_id = "a";
  source_agent_id = "a";
  result = Js.text "bug";
  coverage_gap = false;
}

reuses : (admit digest resumed call_a).1 ≡ ok (Journal.hit hit_a)
unfolding admit admit_keyed search keyed_hit find_index begin_call consume canonical_options
    execution_options own_property canonicalize_journal_value canonicalize sort_keys json
    enumerate_one journal_key donors generated
reuses = refl

admit-hit_example :
    (canonical : String) × (canonical_options call_a.options ≡ ok canonical)
    × ((i : ℕ) × (source : HistoricalCall) × IsTaken digest resumed
          (admit digest resumed call_a).0
          (journal_key digest resumed.previous_key "Find" canonical)
          "Find"
          canonical
          hit_a
          i
          source)
admit-hit_example = admit-hit digest resumed call_a hit_a reuses

-- The first call was edited.
abbrev call_c : JournalCall
call_c = record { agent_id = "c"; prompt = "Look"; options = none }

abbrev key_c : String
key_c = "v2:\0Look\0{}"

abbrev miss_c : JournalMiss
miss_c = record { call_index = 0; key = key_c; agent_id = "c"; provider_session = none }

misses : (admit digest resumed call_c).1 ≡ ok (Journal.miss miss_c)
unfolding admit admit_keyed search keyed_hit find_index begin_call consume canonical_options
    execution_options own_property canonicalize_journal_value canonicalize sort_keys json
    enumerate_one journal_key donors generated
misses = refl

run_calls-prefix_example :
    (admit digest
      (run_calls digest resumed (RunCall.admits call_c ∷ RunCall.admits call_b ∷ []))
      call_a).1
    ≢ ok (Journal.hit hit_a)
run_calls-prefix_example =
    run_calls-prefix digest resumed call_c miss_c (RunCall.admits call_b ∷ []) call_a hit_a refl
      misses

hits-le_example :
    hits digest resumed (RunCall.admits call_a ∷ RunCall.discards_session miss_c ∷ [])
      + unconsumed
          (run_calls digest resumed
            (RunCall.admits call_a ∷ RunCall.discards_session miss_c ∷ [])).historical
    ≤ unconsumed resumed.historical
hits-le_example =
    hits-le digest resumed (RunCall.admits call_a ∷ RunCall.discards_session miss_c ∷ [])

-- A casualty, and the options that record it.
abbrev casualty : JsValue
casualty = Js.object (Js.property "__workflowAgentFailure" (Js.object marker) Js.no_properties)
  where
    marker : JsProperties
    marker = Js.property "schemaVersion" (Js.number (Js.finite (Value.natural 1))) (
        Js.property "agentId" (Js.text "c") (
          Js.property "label" (Js.text "") (
            Js.property "status" (Js.text "failed") (
              Js.property "message" (Js.text "lost") (
                Js.property "attempts" (Js.number (Js.finite (Value.natural 0)))
                  (Js.property "coverageGap" (Js.boolean true) Js.no_properties))))))

abbrev gap_options : ResultOptions
gap_options = record { successful = some false; coverage_gap = some true }

abbrev pending_c : PendingCall
pending_c = record { decision = miss_c; completed = false }

-- The call is pending, with a session.
abbrev running : JournalRun
running = record resumed {
  pending = pending_c ∷ [];
  sessions =
      record { key = key_c; agent_id = "c"; session = record { provider = "codex"; id = "t" } }
      ∷ [];
}

abbrev settled : JournalRun
settled = settle_call running casualty gap_options pending_c

accepts : record_result running miss_c casualty gap_options ≡ ok settled
unfolding record_result unfinished bad_gap is_workflow_agent_failure_placeholder own_property
    get_property
accepts = refl

record_result-IsOk_iff_example : IsOk (record_result running miss_c casualty gap_options) ↔ (
    ((call : PendingCall) × (find (is_index 0) running.pending ≡ some call)
      × IsUnfinished miss_c call)
    × IsProperGap (some true) (some false) casualty)
record_result-IsOk_iff_example = record_result-IsOk_iff running miss_c casualty gap_options

record_result-once_example : record_result settled miss_c casualty gap_options ≡ err not_unfinished
record_result-once_example =
    record_result-once running settled miss_c casualty casualty gap_options gap_options accepts

record_result-gap_example : All (λ session. is_session_of miss_c session ≡ false) settled.sessions
unfolding settle_call
record_result-gap_example =
    record_result-gap running settled miss_c casualty gap_options refl accepts

-- The journal of the two calls, in which a run of the edited source was begun.
abbrev journal : Journal
journal = record { snapshots = ("review", Store.stored snapshot) ∷ []; runs = [] }

abbrev plain : RunOptions
plain = record { reuse_mode = none; reuse_coverage_gaps = none }

opens : new_journal (snapshot ∷ []) ≡ ok journal
unfolding new_journal assert_coverage_gap_record assert_imported_calls set_entry bad_gap generated
opens = refl

abbrev steps : List JournalStep
steps = JournalStep.begins edited plain ∷ JournalStep.calls_run 0 (RunCall.admits call_a) ∷ []

begin_run-IsOk_iff_example :
    IsOk (begin_run identity plain (journal_steps digest journal steps))
    ↔ ((identity.workflow_id ≢ "") × (identity.source_hash ≢ ""))
begin_run-IsOk_iff_example =
    begin_run-IsOk_iff digest (snapshot ∷ []) journal steps identity plain opens

abbrev small_budget : Budget
small_budget = record { hashes = 1; bytes = 100 }

try_predecessors-Pays_example :
    (count : ℕ) × Pays "Fix" "{}"
      ("" ∷ key_a ∷ [])
      small_budget
      (try_predecessors digest key_b "Fix" "{}" ("" ∷ key_a ∷ []) small_budget).1
      count
    × Ends digest key_b "Fix" "{}"
        (try_predecessors digest key_b "Fix" "{}" ("" ∷ key_a ∷ []) small_budget).0
        ("" ∷ key_a ∷ [])
        (try_predecessors digest key_b "Fix" "{}" ("" ∷ key_a ∷ []) small_budget).1
        count
try_predecessors-Pays_example =
    try_predecessors-Pays digest key_b "Fix" "{}" ("" ∷ key_a ∷ []) small_budget

-- The same source again, with the history kept.
abbrev sparse : JournalRun
sparse =
    run_of identity (some snapshot) (generated (key_a ∷ key_b ∷ []) works) [] [] exact_source_sparse
      true false (donors (key_a ∷ key_b ∷ []) works)

reuses_sparse : (admit digest sparse call_a).1 ≡ ok (Journal.hit hit_a)
unfolding admit admit_keyed search keyed_hit find_index begin_call consume canonical_options
    execution_options own_property canonicalize_journal_value canonicalize sort_keys json
    enumerate_one journal_key donors generated
reuses_sparse = refl

key_b_other : ◌≢◌ {A = String} key_b key_a
key_b_other = ground (arith, eq_iff key_b key_a)

keeps_b : IsKept (started key_b "b") sparse.records
unfolding generated
keeps_b = inr (inr (inl refl))

admit-retains_example :
    IsKept (started key_b "b") (admit digest sparse call_a).0.records
    ⊎ IsReplaced sparse (admit digest sparse call_a).0 (started key_b "b")
admit-retains_example =
    admit-retains digest sparse call_a (Journal.hit hit_a) (started key_b "b") reuses_sparse
      key_b_other keeps_b

-- Options in two orders.
abbrev flag : JsValue
flag = Js.boolean true

abbrev one_order : JsProperties
one_order = Js.property "model" flag (Js.property "effort" flag Js.no_properties)

abbrev other_order : JsProperties
other_order = Js.property "effort" flag (Js.property "model" flag Js.no_properties)

abbrev first_unit : List ℕ → ℕ
first_unit [] = 0
first_unit (u ∷ us) = u

names_differ : units "model" ≢ units "effort"
unfolding units char_units
names_differ e = let heads : ◌≡◌ {A = ℕ} 109 101 = ap first_unit e in absurd (omega arith)

swapped : Reordered (Js.object one_order) (Js.object other_order)
swapped =
    Reordering.in_object one_order other_order
      (Reordering.swap "model" "effort" flag flag Js.no_properties names_differ)

canonicalize_journal_value-Reordered_example :
    canonicalize_journal_value (Js.object one_order)
    ≡ canonicalize_journal_value (Js.object other_order)
canonicalize_journal_value-Reordered_example =
    canonicalize_journal_value-Reordered (Js.object one_order) (Js.object other_order) swapped

same_options :
    All
      (λ key. SameOption (own_property key one_order) (own_property key other_order))
      execution_option_keys
unfolding own_property
same_options = (
  SameOption.neither,
  (
    SameOption.given flag flag (Reordering.unchanged flag),
    (
      SameOption.given flag flag (Reordering.unchanged flag),
      (SameOption.neither, (SameOption.neither, tt)),
    ),
  ),
)

create_journal_key-options_example :
    create_journal_key digest key_a "Fix" (some one_order)
    ≡ create_journal_key digest key_a "Fix" (some other_order)
create_journal_key-options_example =
    create_journal_key-options digest key_a "Fix" one_order other_order same_options
