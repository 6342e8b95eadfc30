-- ===== src/Journal/Admission.antt =====
-- `InMemoryWorkflowJournalRun`: its constructor and `admit`. A throw leaves the run as it was changed
-- up to there.
pub mod Admit
pub mod Donors
pub mod Payment
pub mod Retained
use Prim.Native.String.{len}
use workflow_mcp.Common.{
  ℕ, zero, suc, ◌+◌, ◌-◌, String, Bool, true, false, not, ◌&&◌, ◌||◌, List, [], ◌∷◌, ◌++◌, Option,
  none, some, any, filter, length, get_elem?, set, find, find_index, str_eq, ltb, ◌==◌,
  if◌then◌else◌, get_or_else, Result, ok, err, ◌>>=◌,
}
use workflow_mcp.Events.{ProviderSessionReference}
use workflow_mcp.Journal
use workflow_mcp.Journal.{
  JournalIdentity, JournalCall, JournalRecord, started, finished, JournalSessionRecord,
  JournalImportedCall, JournalSnapshot, JournalError, JournalMiss, JournalDecision,
  JournalReuseMode, longest_prefix, exact_source_sparse, HistoricalCall, PendingCall, JournalRun,
}
use workflow_mcp.Journal.Keys.{
  canonical_options, journal_key, create_journal_key, create_imported_prompt_key,
}
use workflow_mcp.Journal.History.{historical_calls, record_id}

abbrev pub max_imported_option_proof_hashes : ℕ
max_imported_option_proof_hashes = 100000

-- 128 * 1024 * 1024
abbrev pub max_imported_option_proof_bytes : ℕ
max_imported_option_proof_bytes = 134217728

-- `new Set(keys)`, in the order of the first occurrences; `seen` are the keys before.
abbrev pub distinct_keys : List String → List HistoricalCall → List String
distinct_keys seen [] = []
distinct_keys seen (call ∷ calls) = elim (any (str_eq call.key) seen) [
  | true ↦ distinct_keys seen calls
  | false ↦ call.key ∷ distinct_keys (call.key ∷ seen) calls
]

abbrev is_sparse : JournalReuseMode → Bool
is_sparse longest_prefix = false
is_sparse exact_source_sparse = true

-- The predecessor is of the same source.
abbrev pub same_source : JournalIdentity → Option JournalSnapshot → Bool
same_source identity none = false
same_source identity (some previous) = str_eq previous.identity.source_hash identity.source_hash

abbrev pub sparse_reuse : JournalReuseMode → JournalIdentity → Option JournalSnapshot → Bool
sparse_reuse mode identity previous = is_sparse mode && same_source identity previous

abbrev pub is_some {ℓ} : {A : Type ℓ} → Option A → Bool
is_some none = false
is_some (some a) = true

abbrev previous_calls : Option JournalSnapshot → Result JournalError (List HistoricalCall)
previous_calls none = ok []
previous_calls (some previous) = historical_calls previous

abbrev tracks_prompts : Option JournalSnapshot → Bool
tracks_prompts none = false
tracks_prompts (some previous) = is_some previous.imported_calls

-- The run of a constructor, from the historical calls.
abbrev pub run_of :
    JournalIdentity
    → Option JournalSnapshot
    → List JournalRecord
    → List JournalSessionRecord
    → List JournalImportedCall
    → JournalReuseMode
    → Bool
    → Bool
    → List HistoricalCall
    → JournalRun
run_of identity previous records sessions imported_calls mode retain reuse_gaps historical =
    record {
      identity = identity;
      historical = historical;
      historical_keys = "" ∷ distinct_keys [] historical;
      records = records;
      sessions = sessions;
      imported_calls = imported_calls;
      pending = [];
      previous_key = "";
      next_call_index = 0;
      can_reuse_prefix = is_some previous;
      exact_source_sparse = sparse_reuse mode identity previous;
      retain_sparse_history = retain;
      reuse_coverage_gaps = reuse_gaps;
      track_imported_prompts = tracks_prompts previous;
      remaining_hashes = max_imported_option_proof_hashes;
      remaining_bytes = max_imported_option_proof_bytes;
    }

-- The constructor.
unfoldable pub new_run :
    JournalIdentity
    → Option JournalSnapshot
    → List JournalRecord
    → List JournalSessionRecord
    → List JournalImportedCall
    → JournalReuseMode
    → Bool
    → Bool
    → Result JournalError JournalRun
new_run identity previous records sessions imported_calls mode retain reuse_gaps =
    previous_calls previous >>= λ historical.
    ok (run_of identity previous records sessions imported_calls mode retain reuse_gaps historical)

abbrev pub may_reuse : JournalRun → Bool
may_reuse run = run.can_reuse_prefix || run.exact_source_sparse

-- A result that this run may take over.
abbrev pub is_reusable : JournalRun → HistoricalCall → Bool
is_reusable run call =
    call.has_result && (call.reusable || (run.reuse_coverage_gaps && call.coverage_gap))

abbrev pub is_candidate : JournalRun → String → HistoricalCall → Bool
is_candidate run key call = str_eq call.key key && (not call.consumed && is_reusable run call)

-- The index of the historical call of the key whose result is reused.
unfoldable pub keyed_hit : JournalRun → String → Option ℕ
keyed_hit run key = if may_reuse run then find_index (is_candidate run key) run.historical else none

-- What is left to prove the options of imported calls with.
pub record Budget : Type 0 where
  pub hashes : ℕ
  pub bytes : ℕ

abbrev pub spend : ℕ → Budget → Budget
spend cost budget = record { hashes = budget.hashes - 1; bytes = budget.bytes - cost }

module _ (sha256 : String → String) where
  -- The loop over the keys of the journal: whether one of them is the predecessor, and the budget
  -- left.
  unfoldable pub try_predecessors : String → String → String → List String → Budget → Bool × Budget
  try_predecessors target prompt canonical [] budget = (false, budget)
  try_predecessors target prompt canonical (key ∷ keys) budget =
      let cost = len prompt + len canonical + 2 + len key in
      let rest = try_predecessors target prompt canonical keys (spend cost budget) in
      if budget.hashes == 0
      then (false, budget)
      else if ltb budget.bytes cost
      then (false, budget)
      else if str_eq (journal_key sha256 key prompt canonical) target
      then (true, spend cost budget)
      else rest

  unfoldable pub imported_options_match :
      JournalRun → HistoricalCall → String → String → Bool × Budget
  imported_options_match run candidate prompt canonical =
      try_predecessors candidate.key prompt canonical run.historical_keys
        (record { hashes = run.remaining_hashes; bytes = run.remaining_bytes })
