-- ===== src/Journal/Admission/Admit.antt =====
-- `admit` of `InMemoryWorkflowJournalRun`, in the order of its text.
use workflow_mcp.Common.{
  ℕ, suc, String, Bool, true, false, not, ◌&&◌, ◌||◌, List, [], ◌∷◌, ◌++◌, Option, none, some,
  filter, length, get_elem?, set, find, find_index, str_eq, ◌==◌, if◌then◌else◌, Result, ok, err,
}
use workflow_mcp.Events.{ProviderSessionReference}
use workflow_mcp.Journal.{
  JournalCall, JournalRecord, started, finished, JournalSessionRecord, JournalImportedCall,
  JournalError, JournalMiss, JournalDecision, miss, hit, HistoricalCall, JournalRun,
}
use workflow_mcp.Journal.Keys.{canonical_options, journal_key, create_imported_prompt_key}
use workflow_mcp.Journal.Admission.{
  Budget, may_reuse, is_reusable, is_some, keyed_hit, imported_options_match,
}

abbrev pub has_prompt_key : String → HistoricalCall → Bool
has_prompt_key prompt_key call = elim call.imported_prompt_key [
  | none ↦ false
  | some own ↦ str_eq own prompt_key
]

-- The one historical call of the prompt, where there is no other.
unfoldable pub sole_import : JournalRun → String → Option ℕ
sole_import run prompt_key =
    if length (filter (has_prompt_key prompt_key) run.historical) == 1
    then find_index (has_prompt_key prompt_key) run.historical
    else none

abbrev pub call_at : JournalRun → Option ℕ → Option HistoricalCall
call_at run none = none
call_at run (some i) = get_elem? run.historical i

abbrev pub run_budget : JournalRun → Budget
run_budget run = record { hashes = run.remaining_hashes; bytes = run.remaining_bytes }

-- The historical calls that an admission found, by their indices: the one whose result it reuses, and
-- the one that the imported prompt identifies.
pub record Search : Type 0 where
  pub reused : Option ℕ
  pub imported : Option ℕ
  pub budget : Budget

abbrev pub reusable_at : JournalRun → ℕ → Option HistoricalCall → Option ℕ
reusable_at run i none = none
reusable_at run i (some call) = if is_reusable run call then some i else none

abbrev pub proven : JournalRun → ℕ → HistoricalCall → Bool × Budget → Search
proven run i call (true, budget) = record {
  reused = reusable_at run i (some call);
  imported = some i;
  budget = budget;
}
proven run i call (false, budget) = record { reused = none; imported = none; budget = budget }

abbrev pub nothing : JournalRun → Search
nothing run = record { reused = none; imported = none; budget = run_budget run }

module _ (sha256 : String → String) where
  unfoldable pub search_import : JournalRun → String → String → Option ℕ → Search
  search_import run prompt canonical none = nothing run
  search_import run prompt canonical (some i) = elim (get_elem? run.historical i) [
    | none ↦ nothing run
    | some call ↦
        if call.consumed
        then nothing run
        else proven run i call (imported_options_match sha256 run call prompt canonical)
  ]

  abbrev pub prompt_key_of : JournalRun → String → Option String
  prompt_key_of run prompt =
      if run.track_imported_prompts then some (create_imported_prompt_key sha256 prompt) else none

  abbrev pub search_prompt : JournalRun → String → String → Option String → Search
  search_prompt run prompt canonical none = nothing run
  search_prompt run prompt canonical (some prompt_key) =
      if run.exact_source_sparse
      then search_import run prompt canonical (sole_import run prompt_key)
      else nothing run

  unfoldable pub search : JournalRun → String → String → String → Search
  search run key prompt canonical = elim (keyed_hit run key) [
    | none ↦ search_prompt run prompt canonical (prompt_key_of run prompt)
    | some i ↦ record { reused = some i; imported = none; budget = run_budget run }
  ]

-- `historicalResult ?? importedMatch`
abbrev pub replaced_at : Search → Option ℕ
replaced_at found = elim found.reused [ none ↦ found.imported | some i ↦ some i ]

abbrev pub record_key : JournalRecord → String
record_key (started key agent_id) = key
record_key (finished r) = r.key

abbrev pub record_agent : JournalRecord → String
record_agent (started key agent_id) = agent_id
record_agent (finished r) = r.agent_id

-- The records of the visited key go, with a sparse history.
abbrev pub compact : Bool → String → List JournalRecord → List JournalRecord
compact retain key records =
    if retain then filter (λ r. not (str_eq (record_key r) key)) records else records

abbrev pub compact_sessions : Bool → String → List JournalSessionRecord → List JournalSessionRecord
compact_sessions retain key sessions =
    if retain then filter (λ r. not (str_eq r.key key)) sessions else sessions

abbrev pub is_record_of : String → String → JournalRecord → Bool
is_record_of key agent_id r = str_eq (record_key r) key && str_eq (record_agent r) agent_id

-- The records of the call that is replaced go, where its key is another one.
abbrev pub drop_replaced :
    Bool → String → Option HistoricalCall → List JournalRecord → List JournalRecord
drop_replaced retain key none records = records
drop_replaced retain key (some call) records =
    if retain && not (str_eq call.key key)
    then filter (λ r. not (is_record_of call.key call.agent_id r)) records
    else records

-- `#consumedHistorical.add`
unfoldable pub consume : Option ℕ → List HistoricalCall → List HistoricalCall
consume none calls = calls
consume (some i) calls = elim (get_elem? calls i) [
  | none ↦ calls
  | some call ↦ set calls i (record call { consumed = true })
]

abbrev is_replaced_import : String → Option HistoricalCall → JournalImportedCall → Bool
is_replaced_import key none imported = str_eq imported.key key
is_replaced_import key (some call) imported =
    str_eq imported.key key
    || (str_eq imported.key call.key && str_eq imported.agent_id call.agent_id)

abbrev pub note_import :
    String
    → String
    → Option HistoricalCall
    → Option String
    → List JournalImportedCall
    → List JournalImportedCall
note_import key agent_id replaced none imported_calls = imported_calls
note_import key agent_id replaced (some prompt_key) imported_calls =
    filter (λ call. not (is_replaced_import key replaced call)) imported_calls
    ++ record { key = key; agent_id = agent_id; prompt_key = prompt_key } ∷ []

abbrev pub copied_record : String → String → HistoricalCall → JournalRecord
copied_record key agent_id source = finished (record {
  key = key;
  agent_id = agent_id;
  result = source.result;
  successful = some (not source.coverage_gap);
  coverage_gap = if source.coverage_gap then some true else none;
})

abbrev session_of : Option HistoricalCall → Option ProviderSessionReference
session_of none = none
session_of (some call) = call.provider_session

abbrev has_session : String → HistoricalCall → Bool
has_session key call = str_eq call.key key && is_some call.provider_session

abbrev pub found_session : JournalRun → String → Option ProviderSessionReference
found_session run key =
    session_of (if may_reuse run then find (has_session key) run.historical else none)

-- The decision, from the historical call whose result is reused.
abbrev pub finish_call :
    JournalRun
    → JournalCall
    → String
    → Option HistoricalCall
    → JournalRun
    → JournalRun × JournalDecision
finish_call run call key (some source) begun = (
  record begun { records = begun.records ++ copied_record key call.agent_id source ∷ [] },
  hit (record {
    call_index = run.next_call_index;
    key = key;
    agent_id = call.agent_id;
    source_agent_id = source.agent_id;
    result = source.result;
    coverage_gap = source.coverage_gap;
  }),
)
finish_call run call key none begun =
    let decision : JournalMiss = record {
      call_index = run.next_call_index;
      key = key;
      agent_id = call.agent_id;
      provider_session = found_session run key;
    } in
    (
      record begun {
        can_reuse_prefix = run.exact_source_sparse && run.can_reuse_prefix;
        pending = begun.pending ++ record { decision = decision; completed = false } ∷ [];
      },
      miss decision,
    )

module _ (sha256 : String → String) where
  -- The run behind an admission up to the record of the start.
  unfoldable pub begin_call : JournalRun → JournalCall → String → Search → JournalRun
  begin_call run call key found =
      let replaced = call_at run (replaced_at found) in
      record run {
        next_call_index = suc run.next_call_index;
        previous_key = key;
        remaining_hashes = found.budget.hashes;
        remaining_bytes = found.budget.bytes;
        sessions = compact_sessions run.retain_sparse_history key run.sessions;
        historical = consume (replaced_at found) run.historical;
        imported_calls =
            note_import key call.agent_id replaced (prompt_key_of sha256 run call.prompt)
              run.imported_calls;
        records =
            drop_replaced run.retain_sparse_history key replaced
              (compact run.retain_sparse_history key run.records)
            ++ started key call.agent_id ∷ [];
      }

  -- The rest of an admission, behind the search.
  abbrev pub admit_found : JournalRun → JournalCall → String → Search → JournalRun × JournalDecision
  admit_found run call key found =
      finish_call run call key (call_at run found.reused) (begin_call run call key found)

  -- An admission whose key could be made.
  unfoldable pub admit_keyed :
      JournalRun → JournalCall → String → String → JournalRun × JournalDecision
  admit_keyed run call key canonical =
      admit_found run call key (search sha256 run key call.prompt canonical)

  abbrev pub admit_ok :
      JournalRun
      → JournalCall
      → Result JournalError String
      → JournalRun × Result JournalError JournalDecision
  admit_ok run call (err e) = (record run { next_call_index = suc run.next_call_index }, err e)
  admit_ok run call (ok canonical) =
      let (after, decision) =
        admit_keyed run call (journal_key sha256 run.previous_key call.prompt canonical)
          canonical in
      (after, ok decision)

  unfoldable pub admit : JournalRun → JournalCall → JournalRun × Result JournalError JournalDecision
  admit run call = admit_ok run call (canonical_options call.options)
