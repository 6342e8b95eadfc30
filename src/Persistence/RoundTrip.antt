-- ===== src/Persistence/RoundTrip.antt =====
-- What was written is read back.
use workflow_mcp.Common.{
  ℕ, suc, String, Bool, true, false, List, [], ◌∷◌, Option, none, some, ◌≡◌, refl, ap, arith, All,
  any, ◌+◌, length, str_eq, ltb, Result, ok, ◌>>◌, throw_if, >>-ok, throw_if-ok, get_or_else,
}
use workflow_mcp.Js.{
  JsValue, JsProperties, undefined, array, text, boolean, property, no_properties, own_property,
  get_property,
}
use workflow_mcp.Js.Passage.{IsJson}
use workflow_mcp.Journal.{
  JournalRecord, started, finished, JournalResultRecord, JournalSessionRecord, JournalImportedCall,
  JournalSnapshot,
}
use workflow_mcp.Journal.Keys.{is_journal_key, is_prompt_key}
use workflow_mcp.Journal.History.{bad_gap}
use workflow_mcp.Persistence.{
  PersistentJournalError, invalid_snapshot, duplicate_workflow, too_many_records,
  too_many_imported_calls, invalid_sessions, invalid_imported_calls, max_records, journal_version,
  list_form, optional_field, record_form, session_form, imported_form, sessions_form, imports_form,
  snapshot_form, stored_form,
}
use workflow_mcp.Persistence.Validation.{
  is_oversized, validate_imported_call_references, sessions_of, imports_of, validate_from,
  validate_snapshot_collection,
}
use workflow_mcp.Persistence.Parsing.{
  parse_all, parse_list, parse_result, parse_record, parse_session, parse_imported_call,
  snapshot_of, parse_snapshot, parse_stored_journal, count_elements,
}

-- Records, sessions and imported calls in the form that the journal's own methods give them, and with
-- results that JSON carries.
abbrev pub IsRecord : JournalRecord → Type 0
IsRecord (started key agent_id) = (is_journal_key key ≡ true) × (str_eq agent_id "" ≡ false)
IsRecord (finished r) =
    (is_journal_key r.key ≡ true)
    × (str_eq r.agent_id "" ≡ false)
    × (bad_gap r.coverage_gap r.successful r.result ≡ false)
    × IsJson r.result

abbrev pub IsSession : JournalSessionRecord → Type 0
IsSession r =
    (is_journal_key r.key ≡ true)
    × (str_eq r.agent_id "" ≡ false)
    × (str_eq r.session.provider "" ≡ false)
    × (str_eq r.session.id "" ≡ false)

abbrev pub IsImported : JournalImportedCall → Type 0
IsImported r =
    (is_journal_key r.key ≡ true)
    × (str_eq r.agent_id "" ≡ false)
    × (is_prompt_key r.prompt_key ≡ true)

pub record IsStorable (s : JournalSnapshot) : Type 0 where
  pub records : All IsRecord s.records
  pub sessions : All IsSession (get_or_else s.sessions [])
  pub imported_calls : All IsImported (get_or_else s.imported_calls [])

-- The fields of a result, with its flags left out where they are undefined.
abbrev result_fields : JournalResultRecord → Option Bool → Option Bool → JsProperties
result_fields r successful coverage_gap = property "type" (text "result") (
    property "key" (text r.key) (
      property "agentId" (text r.agent_id) (
        property "result" r.result (
          optional_field "successful" boolean successful
            (optional_field "coverageGap" boolean coverage_gap no_properties)))))

flags_form :
    (r : JournalResultRecord) (successful coverage_gap : Option Bool)
    → bad_gap coverage_gap successful r.result ≡ false
    → parse_result r.key r.agent_id (result_fields r successful coverage_gap) (some r.result)
      ≡ ok (finished (record r { successful = successful; coverage_gap = coverage_gap }))
unfolding get_property own_property
flags_form r none none fine = rw fine refl
flags_form r none (some c) fine = rw fine refl
flags_form r (some b) none fine = rw fine refl
flags_form r (some b) (some c) fine = rw fine refl

parse_record-form : (r : JournalRecord) → IsRecord r → parse_record (record_form r) ≡ ok r
unfolding parse_record get_property own_property
parse_record-form (started key agent_id) h = rw (h.0, h.1) refl
parse_record-form (finished r) h = rw (h.0, h.1) (flags_form r r.successful r.coverage_gap h.2)

parse_session-form :
    (r : JournalSessionRecord) → IsSession r → parse_session (session_form r) ≡ ok r
unfolding parse_session get_property own_property
parse_session-form r h = rw (h.0, h.1, h.2, h.3) refl

parse_imported_call-form :
    (r : JournalImportedCall) → IsImported r → parse_imported_call (imported_form r) ≡ ok r
unfolding parse_imported_call get_property own_property
parse_imported_call-form r h = rw (h.0, h.1, h.2) refl

parse_all-form {ℓ} :
    {A : Type ℓ} {P : A → Type 0} (parse : JsValue → Result PersistentJournalError A)
    (form : A → JsValue)
    → ((x : A) → P x → parse (form x) ≡ ok x)
    → (xs : List A) → All P xs
    → parse_all parse (list_form form xs) ≡ ok xs
parse_all-form parse form f [] h = refl
parse_all-form parse form f (x ∷ xs) h = rw (f x h.0, parse_all-form parse form f xs h.1) refl

count_elements-form {ℓ} :
    {A : Type ℓ} (form : A → JsValue) (xs : List A) → count_elements (list_form form xs) ≡ length xs
count_elements-form form [] = refl
count_elements-form form (x ∷ xs) = ap suc (count_elements-form form xs)

abbrev optional_form {ℓ} : {A : Type ℓ} → (A → JsValue) → Option (List A) → JsValue
optional_form form none = undefined
optional_form form (some xs) = array (list_form form xs)

-- A list of at most the permitted length, or none.
parse_list-form {ℓ} :
    {A : Type ℓ} {P : A → Type 0} (invalid : PersistentJournalError)
    (parse : JsValue → Result PersistentJournalError A) (form : A → JsValue)
    → ((x : A) → P x → parse (form x) ≡ ok x)
    → (o : Option (List A)) → All P (get_or_else o [])
    → ltb max_records (length (get_or_else o [])) ≡ false
    → parse_list invalid parse (optional_form form o) ≡ ok o
parse_list-form invalid parse form f none h few = refl
parse_list-form invalid parse form f (some xs) h few =
    rw (count_elements-form form xs, few, parse_all-form parse form f xs h) refl

abbrev snapshot_fields :
    String
    → String
    → List JournalRecord
    → Option (List JournalSessionRecord)
    → Option (List JournalImportedCall)
    → JsProperties
snapshot_fields workflow_id source_hash records sessions imported_calls =
    property "workflowId" (text workflow_id) (
      property "sourceHash" (text source_hash) (
        property "records" (array (list_form record_form records)) (
          optional_field "sessions" sessions_form sessions
            (optional_field "importedCalls" imports_form imported_calls no_properties))))

get_sessions :
    (id hash : String) (records : List JournalRecord) (o : Option (List JournalSessionRecord))
    (c : Option (List JournalImportedCall))
    → get_property "sessions" (snapshot_fields id hash records o c) ≡ optional_form session_form o
unfolding get_property own_property
get_sessions id hash records none none = refl
get_sessions id hash records none (some c) = refl
get_sessions id hash records (some o) c = refl

get_imports :
    (id hash : String) (records : List JournalRecord) (o : Option (List JournalSessionRecord))
    (c : Option (List JournalImportedCall))
    → get_property "importedCalls" (snapshot_fields id hash records o c)
      ≡ optional_form imported_form c
unfolding get_property own_property
get_imports id hash records none none = refl
get_imports id hash records none (some c) = refl
get_imports id hash records (some o) none = refl
get_imports id hash records (some o) (some c) = refl

parse_fields :
    (s : JournalSnapshot)
    → IsStorable s
    → is_oversized s ≡ false
    → snapshot_of
        (snapshot_fields s.identity.workflow_id s.identity.source_hash s.records s.sessions
          s.imported_calls)
        (text s.identity.workflow_id)
        (text s.identity.source_hash)
        (array (list_form record_form s.records))
      ≡ ok s
parse_fields s h fits =
    let id = s.identity.workflow_id in
    let hash = s.identity.source_hash in
    let named : str_eq id "" ≡ false = ground arith in
    let hashed : str_eq hash "" ≡ false = ground arith in
    let few : ltb max_records (length s.records) ≡ false = ground arith in
    let few_sessions : ltb max_records (sessions_of s) ≡ false = ground arith in
    let few_imports : ltb max_records (imports_of s) ≡ false = ground arith in
    rw
      (
        named,
        hashed,
        count_elements-form record_form s.records,
        few,
        parse_all-form parse_record record_form parse_record-form s.records h.records,
        get_sessions id hash s.records s.sessions s.imported_calls,
        parse_list-form invalid_sessions parse_session session_form parse_session-form s.sessions
            h.sessions few_sessions,
        get_imports id hash s.records s.sessions s.imported_calls,
        parse_list-form invalid_imported_calls parse_imported_call imported_form
            parse_imported_call-form s.imported_calls h.imported_calls few_imports,
      )
      refl

parse_snapshot-form :
    (s : JournalSnapshot)
    → IsStorable s × (is_oversized s ≡ false)
    → parse_snapshot (snapshot_form s) ≡ ok s
unfolding parse_snapshot get_property own_property
parse_snapshot-form s h = parse_fields s h.0 h.1

-- The first guard and what is behind the last.
guards-ok :
    (a b c d e rest : Result PersistentJournalError (Unit {0}))
    → (a >> b >> c >> d >> e >> rest) ≡ ok tt
    → (a ≡ ok tt) × (rest ≡ ok tt)
guards-ok a b c d e rest h =
    let (all, end) = >>-ok (a >> b >> c >> d >> e) rest h in
    let (most, _) = >>-ok (a >> b >> c >> d) e all in
    let (some_of, _) = >>-ok (a >> b >> c) d most in
    let (two, _) = >>-ok (a >> b) c some_of in ((>>-ok a b two).0, end)

validate_from-fits :
    (ids : List String) (entries imported : ℕ) (snapshots : List JournalSnapshot)
    → validate_from ids entries imported snapshots ≡ ok tt
    → All IsStorable snapshots
    → All (λ s. IsStorable s × (is_oversized s ≡ false)) snapshots
validate_from-fits ids entries imported [] valid h = tt
validate_from-fits ids entries imported (s ∷ snapshots) valid h =
    let more = entries + (length s.records + sessions_of s) in
    let more_imported = imported + imports_of s in
    let (first, rest) =
      guards-ok (throw_if (is_oversized s) invalid_snapshot)
        (throw_if (any (str_eq s.identity.workflow_id) ids)
          (duplicate_workflow s.identity.workflow_id))
        (validate_imported_call_references s) (throw_if (ltb max_records more) too_many_records)
        (throw_if (ltb max_records more_imported) too_many_imported_calls)
        (validate_from (s.identity.workflow_id ∷ ids) more more_imported snapshots) valid in
    (
      (h.0, throw_if-ok (is_oversized s) invalid_snapshot tt first),
      validate_from-fits (s.identity.workflow_id ∷ ids) more more_imported snapshots rest h.1,
    )

-- The object of a valid collection is parsed to the collection.
pub parse_stored_journal-form :
    (snapshots : List JournalSnapshot)
    → validate_snapshot_collection snapshots ≡ ok tt
    → All IsStorable snapshots
    → parse_stored_journal (stored_form snapshots)
      ≡ ok (record { version = journal_version; snapshots = snapshots })
unfolding parse_stored_journal validate_snapshot_collection stored_form get_property own_property
parse_stored_journal-form snapshots valid h =
    rw
      (
        parse_all-form parse_snapshot snapshot_form parse_snapshot-form snapshots
            (validate_from-fits [] 0 0 snapshots valid h),
        valid,
      )
      refl
