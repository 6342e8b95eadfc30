-- ===== src/Journal/Canonical.antt =====
-- `canonicalize` and `canonicalizeJournalValue`.
pub mod Reordering
use workflow_mcp.Common.{String, Bool, List, [], ◌∷◌, Option, none, some, Result, ok, err, ◌>>=◌}
use workflow_mcp.Value.{Value, Properties, Elements}
use workflow_mcp.Value
use workflow_mcp.Js.{JsNumber, JsValue, JsProperties, JsElements}
use workflow_mcp.Js
use workflow_mcp.Js.Units.{sort_keys}
use workflow_mcp.Js.Json.{json, enumerate_one}
use workflow_mcp.Journal.{JournalError, bigint_value, circular_value, no_json}

abbrev pub canonical_number : JsNumber → Value
canonical_number (JsNumber.finite n) = Value.number n
canonical_number JsNumber.non_finite = Value.null
canonical_number JsNumber.negative_zero = Value.number (Value.natural 0)

abbrev pub null_if_omitted : Option Value → Value
null_if_omitted none = Value.null
null_if_omitted (some value) = value

-- What an object holds under a key, once it is canonical, or what that throws.
abbrev pub Entry : Type 0
Entry = String × Result JournalError (Option Value)

abbrev pub keep : String → Option Value → Properties → Properties
keep key none built = built
keep key (some value) built = enumerate_one key value built

-- The loop over the sorted keys: `built` is the object so far.
abbrev pub collect : Properties → List Entry → Result JournalError Properties
collect built [] = ok built
collect built (entry ∷ rest) = entry.1 >>= λ item. collect (keep entry.0 item built) rest

abbrev pub canonical_object : List Entry → Result JournalError (Option Value)
canonical_object entries =
    collect Value.no_properties (sort_keys entries) >>= λ built. ok (some (Value.object built))

-- `none` is `OMIT`.
unfoldable mutual
  pub canonicalize : JsValue → Result JournalError (Option Value)
  canonicalize JsValue.null = ok (some Value.null)
  canonicalize (JsValue.text s) = ok (some (Value.text s))
  canonicalize (JsValue.boolean b) = ok (some (Value.boolean b))
  canonicalize (JsValue.number n) = ok (some (canonical_number n))
  canonicalize JsValue.undefined = ok none
  canonicalize JsValue.function = ok none
  canonicalize JsValue.symbol = ok none
  canonicalize JsValue.bigint = err bigint_value
  canonicalize JsValue.enclosing = err circular_value
  canonicalize (JsValue.array items) =
      canonicalize_elements items >>= λ built. ok (some (Value.array built))
  canonicalize (JsValue.object properties) = canonical_object (canonicalize_properties properties)

  pub canonicalize_elements : JsElements → Result JournalError Elements
  canonicalize_elements JsElements.no_elements = ok Value.no_elements
  canonicalize_elements (JsElements.element item items) = canonicalize item >>= λ normalized.
      canonicalize_elements items >>= λ built. ok (Value.element (null_if_omitted normalized) built)

  pub canonicalize_properties : JsProperties → List Entry
  canonicalize_properties JsProperties.no_properties = []
  canonicalize_properties (JsProperties.property key value rest) =
      (key, canonicalize value) ∷ canonicalize_properties rest

abbrev pub json_or_throw : Option Value → Result JournalError String
json_or_throw none = err no_json
json_or_throw (some value) = ok (json value)

unfoldable pub canonicalize_journal_value : JsValue → Result JournalError String
unfolding canonicalize
canonicalize_journal_value value = canonicalize value >>= json_or_throw
