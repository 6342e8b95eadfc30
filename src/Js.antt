-- ===== src/Js.antt =====
-- JavaScript values of type `unknown` as the journal meets them, and what it uses of the language:
-- the order of property names, the test for a name that is an array index, and JSON.stringify.
pub mod Units
pub mod Json
pub mod Passage
mod Samples
use workflow_mcp.Common.{String, Bool, List, [], ◌∷◌, Option, none, some, str_eq, if◌then◌else◌}
use workflow_mcp.Value.{Number}

pub data JsNumber : Type 0 where
  finite : Number → JsNumber
  non_finite negative_zero : JsNumber

-- The properties of an object are its own enumerable ones, in the order of Object.keys. `enclosing`
-- is a reference to an object or an array that the value is a part of.
mutual
  pub data JsValue : Type 0 where
    object : JsProperties → JsValue
    array : JsElements → JsValue
    text : String → JsValue
    number : JsNumber → JsValue
    boolean : Bool → JsValue
    null undefined function symbol bigint enclosing : JsValue

  pub data JsProperties : Type 0 where
    no_properties : JsProperties
    property : String → JsValue → JsProperties → JsProperties

  pub data JsElements : Type 0 where
    no_elements : JsElements
    element : JsValue → JsElements → JsElements

-- The property of a name, if the object has it.
unfoldable pub own_property : String → JsProperties → Option JsValue
own_property name no_properties = none
own_property name (property key value rest) =
    let later = own_property name rest in if str_eq key name then some value else later

-- `value[name]`.
unfoldable pub get_property : String → JsProperties → JsValue
unfolding own_property
get_property name properties = elim (own_property name properties) [
  | none ↦ undefined
  | some value ↦ value
]
