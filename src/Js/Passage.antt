-- ===== src/Js/Passage.antt =====
-- JSON.stringify followed by JSON.parse. A `toJSON` method is not modelled.
use workflow_mcp.Common.{Option, none, some, ◌≡◌, refl, ap}
use workflow_mcp.Value.{natural}
use workflow_mcp.Js.{
  JsValue, JsProperties, JsElements, JsNumber, object, array, text, number, boolean, null,
  undefined, function, symbol, bigint, enclosing, finite, non_finite, negative_zero, no_properties,
  property, no_elements, element,
}

-- What JSON.stringify does with a value: it throws, it gives undefined, or it gives a text; `written` has
-- the value that JSON.parse gives of the text.
pub data Written : Type 0 where
  throws omitted : Written
  written : JsValue → Written

abbrev parsed_number : JsNumber → JsValue
parsed_number (finite n) = number (finite n)
parsed_number non_finite = null
parsed_number negative_zero = number (finite (natural 0))

-- A property whose value has no text is left out, and an element is written as null.
abbrev put_property :
    Written → (JsValue → JsProperties → JsProperties) → Option JsProperties → Option JsProperties
put_property throws put rest = none
put_property omitted put rest = rest
put_property (written v) put none = none
put_property (written v) put (some ps) = some (put v ps)

abbrev put_element : Written → Option JsElements → Option JsElements
put_element throws rest = none
put_element w none = none
put_element omitted (some es) = some (element null es)
put_element (written v) (some es) = some (element v es)

abbrev put_object : Option JsProperties → Written
put_object none = throws
put_object (some ps) = written (object ps)

abbrev put_array : Option JsElements → Written
put_array none = throws
put_array (some es) = written (array es)

unfoldable mutual
  pub through_json : JsValue → Written
  through_json (object ps) = put_object (through_properties ps)
  through_json (array es) = put_array (through_elements es)
  through_json (text s) = written (text s)
  through_json (number n) = written (parsed_number n)
  through_json (boolean b) = written (boolean b)
  through_json null = written null
  through_json undefined = omitted
  through_json function = omitted
  through_json symbol = omitted
  through_json bigint = throws
  through_json enclosing = throws

  pub through_properties : JsProperties → Option JsProperties
  through_properties no_properties = some no_properties
  through_properties (property k v ps) =
      put_property (through_json v) (property k) (through_properties ps)

  pub through_elements : JsElements → Option JsElements
  through_elements no_elements = some no_elements
  through_elements (element v es) = put_element (through_json v) (through_elements es)

abbrev IsFinite : JsNumber → Type 0
IsFinite (finite n) = Unit {0}
IsFinite n = ⊥

-- A value that JSON carries: of objects, arrays, texts, finite numbers other than -0, booleans and null.
unfoldable mutual
  pub IsJson : JsValue → Type 0
  IsJson (object ps) = IsJsonProperties ps
  IsJson (array es) = IsJsonElements es
  IsJson (text s) = Unit {0}
  IsJson (number n) = IsFinite n
  IsJson (boolean b) = Unit {0}
  IsJson null = Unit {0}
  IsJson v = ⊥

  pub IsJsonProperties : JsProperties → Type 0
  IsJsonProperties no_properties = Unit {0}
  IsJsonProperties (property k v ps) = IsJson v × IsJsonProperties ps

  pub IsJsonElements : JsElements → Type 0
  IsJsonElements no_elements = Unit {0}
  IsJsonElements (element v es) = IsJson v × IsJsonElements es

parsed_number-IsFinite : (n : JsNumber) → IsFinite n → parsed_number n ≡ number n
parsed_number-IsFinite (finite n) h = refl
parsed_number-IsFinite non_finite h = absurd h
parsed_number-IsFinite negative_zero h = absurd h

mutual
  unfolding through_json IsJson

  pub through_json-IsJson : (v : JsValue) → IsJson v → through_json v ≡ written v
  through_json-IsJson (object ps) h = ap put_object (through_properties-IsJson ps h)
  through_json-IsJson (array es) h = ap put_array (through_elements-IsJson es h)
  through_json-IsJson (text s) h = refl
  through_json-IsJson (number n) h = ap written (parsed_number-IsFinite n h)
  through_json-IsJson (boolean b) h = refl
  through_json-IsJson null h = refl
  through_json-IsJson v h = absurd h

  through_properties-IsJson :
      (ps : JsProperties) → IsJsonProperties ps → through_properties ps ≡ some ps
  through_properties-IsJson no_properties h = refl
  through_properties-IsJson (property k v ps) h =
      rw (through_json-IsJson v h.0, through_properties-IsJson ps h.1) refl

  through_elements-IsJson : (es : JsElements) → IsJsonElements es → through_elements es ≡ some es
  through_elements-IsJson no_elements h = refl
  through_elements-IsJson (element v es) h =
      rw (through_json-IsJson v h.0, through_elements-IsJson es h.1) refl
