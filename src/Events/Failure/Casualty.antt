-- ===== src/Events/Failure/Casualty.antt =====
-- The values that src/workflowEvents.ts recognizes as failure placeholders, described by their fields.
use mathlib.Core.Bool.{true≢false}
use workflow_mcp.Common.{
  ℕ, String, Bool, true, false, not, ◌&&◌, ==_iff, str_eq, str_eq-ne, eq_iff, ◌≡◌, ◌≢◌, ◌⊎◌, ◌↔◌,
  inl, inr, refl, sym, ap, ◌∙◌, Bool-cases,
}
use workflow_mcp.Value.{natural, fraction}
use workflow_mcp.Js.{
  JsValue, JsProperties, object, text, number, boolean, undefined, finite, negative_zero,
  get_property,
}
use workflow_mcp.Events.Failure.{
  is_text, is_nonempty_text, is_optional_text, is_one, is_casualty_status, is_large_integer,
  is_attempt_count, is_true_value, is_failure_marker, is_workflow_agent_failure_placeholder,
}

abbrev pub IsText : JsValue → Type 0
IsText v = (s : String) × (v ≡ text s)

abbrev pub IsNonemptyText : JsValue → Type 0
IsNonemptyText v = (s : String) × (v ≡ text s) × (s ≢ "")

abbrev pub IsCasualtyStatus : JsValue → Type 0
IsCasualtyStatus v = (v ≡ text "failed") ⊎ (v ≡ text "recovery_required") ⊎ (v ≡ text "skipped")

-- A number from 0 on without a fraction.
abbrev pub IsCount : JsValue → Type 0
IsCount v =
    ((n : ℕ) × (v ≡ number (finite (natural n))))
    ⊎ (v ≡ number negative_zero)
    ⊎ ((t : String) × (v ≡ number (finite (fraction t))) × (is_large_integer t ≡ true))

-- The marker of version one, with all its fields.
pub record IsMarker (m : JsProperties) : Type 0 where
  pub schema_version : get_property "schemaVersion" m ≡ number (finite (natural 1))
  pub agent_id : IsNonemptyText (get_property "agentId" m)
  pub label : IsText (get_property "label" m)
  pub status : IsCasualtyStatus (get_property "status" m)
  pub message : IsText (get_property "message" m)
  pub code : (get_property "code" m ≡ undefined) ⊎ IsText (get_property "code" m)
  pub attempts : IsCount (get_property "attempts" m)
  pub coverage_gap : get_property "coverageGap" m ≡ boolean true

-- An object with such a marker.
abbrev pub IsPlaceholder : JsValue → Type 0
IsPlaceholder v =
    (ps : JsProperties) × (m : JsProperties) × (v ≡ object ps)
    × (get_property "__workflowAgentFailure" ps ≡ object m)
    × IsMarker m

both : (b c : Bool) → (b && c) ≡ true → (b ≡ true) × (c ≡ true)
both true true h = (refl, refl)
both true false h = cc
both false c h = cc

negated : (b : Bool) → not b ≡ true → b ≡ false
negated true h = cc
negated false h = refl

is_text-IsText : (v : JsValue) → is_text v ≡ true → IsText v
is_text-IsText (text s) h = (s, refl)
is_text-IsText v h = cc

is_nonempty_text-IsNonemptyText : (v : JsValue) → is_nonempty_text v ≡ true → IsNonemptyText v
is_nonempty_text-IsNonemptyText (text s) h =
    (s, refl, (λ same. true≢false (sym ((eq_iff s "").1 same) ∙ negated (str_eq s "") h)))
is_nonempty_text-IsNonemptyText v h = cc

is_optional_text-IsText : (v : JsValue) → is_optional_text v ≡ true → (v ≡ undefined) ⊎ IsText v
is_optional_text-IsText undefined h = inl refl
is_optional_text-IsText (text s) h = inr (s, refl)
is_optional_text-IsText v h = cc

is_one-eq : (v : JsValue) → is_one v ≡ true → v ≡ number (finite (natural 1))
is_one-eq (number (finite (natural n))) h = ap (λ m. number (finite (natural m))) ((==_iff n 1).0 h)
is_one-eq v h = cc

is_casualty_status-IsCasualtyStatus :
    (v : JsValue) → is_casualty_status v ≡ true → IsCasualtyStatus v
is_casualty_status-IsCasualtyStatus (text s) h = elim (Bool-cases (str_eq s "failed")) [
  | inl failed ↦ inl (ap text ((eq_iff s "failed").0 failed))
  | inr other ↦ elim (Bool-cases (str_eq s "recovery_required")) [
    | inl required ↦ inr (inl (ap text ((eq_iff s "recovery_required").0 required)))
    | inr neither ↦ inr (inr (ap text ((eq_iff s "skipped").0 (rw (other, neither) at h))))
  ]
]
is_casualty_status-IsCasualtyStatus v h = cc

is_attempt_count-IsCount : (v : JsValue) → is_attempt_count v ≡ true → IsCount v
is_attempt_count-IsCount (number (finite (natural n))) h = inl (n, refl)
is_attempt_count-IsCount (number negative_zero) h = inr (inl refl)
is_attempt_count-IsCount (number (finite (fraction t))) h = inr (inr (t, refl, h))
is_attempt_count-IsCount v h = cc

is_true_value-eq : (v : JsValue) → is_true_value v ≡ true → v ≡ boolean true
is_true_value-eq (boolean b) h = ap boolean h
is_true_value-eq v h = cc

is_failure_marker-IsMarker :
    (v : JsValue) → is_failure_marker v ≡ true → (m : JsProperties) × (v ≡ object m) × IsMarker m
unfolding is_failure_marker
is_failure_marker-IsMarker (object m) h =
    let (version, h1) = both _ _ h in
    let (agent, h2) = both _ _ h1 in
    let (label, h3) = both _ _ h2 in
    let (status, h4) = both _ _ h3 in
    let (message, h5) = both _ _ h4 in
    let (code, h6) = both _ _ h5 in
    let (attempts, gap) = both _ _ h6 in
    (
      m,
      refl,
      record {
        schema_version = is_one-eq _ version;
        agent_id = is_nonempty_text-IsNonemptyText _ agent;
        label = is_text-IsText _ label;
        status = is_casualty_status-IsCasualtyStatus _ status;
        message = is_text-IsText _ message;
        code = is_optional_text-IsText _ code;
        attempts = is_attempt_count-IsCount _ attempts;
        coverage_gap = is_true_value-eq _ gap;
      },
    )
is_failure_marker-IsMarker v h = cc

IsText-is_text : (v : JsValue) → IsText v → is_text v ≡ true
IsText-is_text v (s, h) = rw h refl

IsCount-is_attempt_count : (v : JsValue) → IsCount v → is_attempt_count v ≡ true
IsCount-is_attempt_count v (inl (n, h)) = rw h refl
IsCount-is_attempt_count v (inr (inl h)) = rw h refl
IsCount-is_attempt_count v (inr (inr (t, h, large))) = rw h large

IsNonemptyText-is_nonempty_text : (v : JsValue) → IsNonemptyText v → is_nonempty_text v ≡ true
IsNonemptyText-is_nonempty_text v (s, h, some_of) = rw (h, str_eq-ne s "" some_of) refl

IsText-is_optional_text : (v : JsValue) → (v ≡ undefined) ⊎ IsText v → is_optional_text v ≡ true
IsText-is_optional_text v (inl h) = rw h refl
IsText-is_optional_text v (inr (s, h)) = rw h refl

IsCasualtyStatus-is_casualty_status :
    (v : JsValue) → IsCasualtyStatus v → is_casualty_status v ≡ true
IsCasualtyStatus-is_casualty_status v (inl h) = rw h refl
IsCasualtyStatus-is_casualty_status v (inr (inl h)) = rw h refl
IsCasualtyStatus-is_casualty_status v (inr (inr h)) = rw h refl

IsMarker-is_failure_marker : (m : JsProperties) → IsMarker m → is_failure_marker (object m) ≡ true
unfolding is_failure_marker
IsMarker-is_failure_marker m h =
    rw
      (
        ap is_one h.schema_version,
        IsNonemptyText-is_nonempty_text _ h.agent_id,
        IsText-is_text _ h.label,
        IsCasualtyStatus-is_casualty_status _ h.status,
        IsText-is_text _ h.message,
        IsText-is_optional_text _ h.code,
        IsCount-is_attempt_count _ h.attempts,
        ap is_true_value h.coverage_gap,
      )
      refl

-- The test of the code recognizes exactly the placeholders.
pub is_workflow_agent_failure_placeholder_iff :
    (v : JsValue) → (is_workflow_agent_failure_placeholder v ≡ true) ↔ IsPlaceholder v
unfolding is_workflow_agent_failure_placeholder
is_workflow_agent_failure_placeholder_iff v = (recognized v, λ placeholder. found v placeholder)
  where
    recognized : (v : JsValue) → is_workflow_agent_failure_placeholder v ≡ true → IsPlaceholder v
    recognized (object ps) h =
        let (m, marker, fields) =
          is_failure_marker-IsMarker (get_property "__workflowAgentFailure" ps) h in
        (ps, m, refl, marker, fields)
    recognized v h = cc

    found : (v : JsValue) → IsPlaceholder v → is_workflow_agent_failure_placeholder v ≡ true
    found v (ps, m, object_of, marker, fields) =
        rw object_of (ap is_failure_marker marker ∙ IsMarker-is_failure_marker m fields)
