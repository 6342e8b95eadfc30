-- ===== src/Events/Failure.antt =====
-- src/workflowEvents.ts: `isWorkflowAgentFailurePlaceholder`.
pub mod Casualty
use workflow_mcp.Common.{String, Bool, true, false, not, ◌&&◌, ◌||◌, ◌==◌, str_eq}
use Prim.Native.Char.{code}
use Prim.Native.String
use workflow_mcp.Value.{natural, fraction}
use workflow_mcp.Js.{
  JsValue, object, text, number, boolean, undefined, finite, negative_zero, get_property,
}

abbrev pub is_text : JsValue → Bool
is_text (text s) = true
is_text other = false

abbrev pub is_nonempty_text : JsValue → Bool
is_nonempty_text (text s) = not (str_eq s "")
is_nonempty_text other = false

abbrev pub is_optional_text : JsValue → Bool
is_optional_text undefined = true
is_optional_text other = is_text other

abbrev pub is_one : JsValue → Bool
is_one (number (finite (natural n))) = n == 1
is_one other = false

abbrev pub is_casualty_status : JsValue → Bool
is_casualty_status (text s) =
    str_eq s "failed" || (str_eq s "recovery_required" || str_eq s "skipped")
is_casualty_status other = false

abbrev has_plus : String → Bool
has_plus String.[] = false
has_plus (String.◌∷◌ c s) = code c == 43 || has_plus s

abbrev is_negative : String → Bool
is_negative String.[] = false
is_negative (String.◌∷◌ c s) = code c == 45

-- Of the texts of a `fraction`, those of the integers from 10^21 on: "1e+21", but neither "1e-7" nor
-- "-1e+21".
abbrev pub is_large_integer : String → Bool
is_large_integer t = has_plus t && not (is_negative t)

-- An integer that is at least 0.
abbrev pub is_attempt_count : JsValue → Bool
is_attempt_count (number (finite (natural n))) = true
is_attempt_count (number (finite (fraction t))) = is_large_integer t
is_attempt_count (number negative_zero) = true
is_attempt_count other = false

abbrev pub is_true_value : JsValue → Bool
is_true_value (boolean b) = b
is_true_value other = false

unfoldable pub is_failure_marker : JsValue → Bool
is_failure_marker (object candidate) =
    is_one (get_property "schemaVersion" candidate)
    && (is_nonempty_text (get_property "agentId" candidate)
        && (is_text (get_property "label" candidate)
            && (is_casualty_status (get_property "status" candidate)
                && (is_text (get_property "message" candidate)
                    && (is_optional_text (get_property "code" candidate)
                        && (is_attempt_count (get_property "attempts" candidate)
                            && is_true_value (get_property "coverageGap" candidate)))))))
is_failure_marker other = false

unfoldable pub is_workflow_agent_failure_placeholder : JsValue → Bool
unfolding is_failure_marker
is_workflow_agent_failure_placeholder (object properties) =
    is_failure_marker (get_property "__workflowAgentFailure" properties)
is_workflow_agent_failure_placeholder other = false
