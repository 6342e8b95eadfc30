-- ===== src/Persistence/Carried.antt =====
-- What is written of a journal whose results JSON carries is read back.
use workflow_mcp.Common.{String, List, [], ◌∷◌, Option, none, some, ◌≡◌, All, ok}
use workflow_mcp.Js.{JsValue, JsProperties, boolean}
use workflow_mcp.Js.Passage.{
  written, through_json, IsJson, IsJsonProperties, IsJsonElements, through_json-IsJson,
}
use workflow_mcp.Journal.{
  JournalRecord, started, finished, JournalSessionRecord, JournalImportedCall, JournalSnapshot,
}
use workflow_mcp.Persistence.{
  journal_version, list_form, optional_field, record_form, session_form, imported_form,
  sessions_form, imports_form, snapshot_form, stored_form,
}
use workflow_mcp.Persistence.Validation.{validate_snapshot_collection}
use workflow_mcp.Persistence.Parsing.{parse_stored_journal}
use workflow_mcp.Persistence.RoundTrip.{IsRecord, IsStorable, parse_stored_journal-form}

list_form-IsJson {ℓ} :
    {A : Type ℓ} (P : A → Type 0) (form : A → JsValue)
    → ((x : A) → P x → IsJson (form x))
    → (xs : List A) → All P xs
    → IsJsonElements (list_form form xs)
unfolding IsJson
list_form-IsJson P form f [] h = tt
list_form-IsJson P form f (x ∷ xs) h = (f x h.0, list_form-IsJson P form f xs h.1)

every {ℓ} : {A : Type ℓ} (P : A → Type 0) → ((x : A) → P x) → (xs : List A) → All P xs
every P f [] = tt
every P f (x ∷ xs) = (f x, every P f xs)

optional_field-IsJson {ℓ} :
    {A : Type ℓ} (name : String) (form : A → JsValue) (o : Option A) (rest : JsProperties)
    → ((x : A) → IsJson (form x))
    → IsJsonProperties rest
    → IsJsonProperties (optional_field name form o rest)
unfolding IsJson
optional_field-IsJson name form none rest f h = h
optional_field-IsJson name form (some x) rest f h = (f x, h)

record_form-IsJson : (r : JournalRecord) → IsRecord r → IsJson (record_form r)
unfolding IsJson
record_form-IsJson (started key agent_id) h = (tt, (tt, (tt, tt)))
record_form-IsJson (finished r) h =
    let flags =
      optional_field-IsJson "successful" boolean r.successful _ (λ b. tt)
        (optional_field-IsJson "coverageGap" boolean r.coverage_gap _ (λ b. tt) tt) in
    (tt, (tt, (tt, (h.3, flags))))

session_form-IsJson : (r : JournalSessionRecord) → IsJson (session_form r)
unfolding IsJson
session_form-IsJson r = (tt, (tt, ((tt, (tt, tt)), tt)))

imported_form-IsJson : (r : JournalImportedCall) → IsJson (imported_form r)
unfolding IsJson
imported_form-IsJson r = (tt, (tt, (tt, tt)))

snapshot_form-IsJson : (s : JournalSnapshot) → IsStorable s → IsJson (snapshot_form s)
unfolding IsJson
snapshot_form-IsJson s h =
    let records = list_form-IsJson IsRecord record_form record_form-IsJson s.records h.records in
    let lists =
      optional_field-IsJson "sessions" sessions_form s.sessions _
        (λ xs. every_form session_form session_form-IsJson xs)
        (optional_field-IsJson "importedCalls" imports_form s.imported_calls _
          (λ xs. every_form imported_form imported_form-IsJson xs) tt) in
    (tt, (tt, (records, lists)))
  where
    every_form :
        {A : Type 0} (form : A → JsValue)
        → ((x : A) → IsJson (form x))
        → (xs : List A) → IsJsonElements (list_form form xs)
    every_form form f xs = list_form-IsJson (λ x. IsJson (form x)) form (λ x h. h) xs (every _ f xs)

stored_form-IsJson :
    (snapshots : List JournalSnapshot) → All IsStorable snapshots → IsJson (stored_form snapshots)
unfolding IsJson stored_form
stored_form-IsJson snapshots h =
    (tt, (tt, (list_form-IsJson IsStorable snapshot_form snapshot_form-IsJson snapshots h, tt)))

-- A collection that passes the validation before it is written is written as JSON, and read back from
-- what is written as it was, where its records, sessions and imported calls have the forms that the
-- journal gives them and its results are values that JSON carries: objects, arrays, texts, finite numbers
-- other than -0, booleans and null.
pub parse_stored_journal-through_json :
    (snapshots : List JournalSnapshot)
    → validate_snapshot_collection snapshots ≡ ok tt
    → All IsStorable snapshots
    → (file : JsValue) × (through_json (stored_form snapshots) ≡ written file)
      × (parse_stored_journal file
          ≡ ok (record { version = journal_version; snapshots = snapshots }))
parse_stored_journal-through_json snapshots valid h = (
  stored_form snapshots,
  through_json-IsJson (stored_form snapshots) (stored_form-IsJson snapshots h),
  parse_stored_journal-form snapshots valid h,
)
