-- ===== src/Schema.antt =====
-- src/codexSchema.ts: how a result of Codex is brought back to the author's schema. A projection tells
-- which nulls stand for properties that are left out; the adaptation that makes it is not modelled.
pub mod Termination
pub mod Erasure
mod Samples
use workflow_mcp.Common.{
  ℕ, zero, suc, String, Bool, true, false, List, [], ◌∷◌, Option, none, some, any, length, str_eq,
  if◌then◌else◌,
}
use workflow_mcp.Js
use workflow_mcp.Js.{JsValue, JsProperties, JsElements, get_property}

mutual
  pub data Projection : Type 0 where
    identity : Projection
    in_object : List String → ProjectionMap → Projection
    in_array : Projection → Projection
    composite : Projections → Projection
    reference : String → Projection

  pub data Projections : Type 0 where
    no_projections : Projections
    projection : Projection → Projections → Projections

  -- The projections of properties, in the order of the map.
  pub data ProjectionMap : Type 0 where
    no_entries : ProjectionMap
    entry : String → Projection → ProjectionMap → ProjectionMap

abbrev active_ones : Projections → Projections
active_ones no_projections = no_projections
active_ones (projection identity rest) = active_ones rest
active_ones (projection p rest) = projection p (active_ones rest)

abbrev combined : Projections → Projection
combined no_projections = identity
combined (projection p no_projections) = p
combined (projection p (projection q rest)) = composite (projection p (projection q rest))

unfoldable pub combine_projections : Projections → Projection
combine_projections projections = combined (active_ones projections)

-- `delete value[key]`
abbrev pub delete_property : String → JsProperties → JsProperties
delete_property key Js.no_properties = Js.no_properties
delete_property key (Js.property name value rest) =
    let later = delete_property key rest in
    if str_eq name key then rest else Js.property name value later

abbrev pub is_null : JsValue → Bool
is_null Js.null = true
is_null other = false

abbrev pub delete_nulls : List String → JsProperties → JsProperties
delete_nulls [] properties = properties
delete_nulls (key ∷ keys) properties =
    delete_nulls keys
      (if is_null (get_property key properties) then delete_property key properties else properties)

-- The value under a key changed in place, if the object has it.
abbrev pub change_property : (JsValue → JsValue) → String → JsProperties → JsProperties
change_property change key Js.no_properties = Js.no_properties
change_property change key (Js.property name value rest) =
    let later = change_property change key rest in
    if str_eq name key then Js.property name (change value) rest else Js.property name value later

abbrev pub on_object : (JsProperties → JsProperties) → JsValue → JsValue
on_object change (Js.object properties) = Js.object (change properties)
on_object change other = other

abbrev pub change_elements : (JsValue → JsValue) → JsElements → JsElements
change_elements change Js.no_elements = Js.no_elements
change_elements change (Js.element v vs) = Js.element (change v) (change_elements change vs)

abbrev pub on_array : (JsElements → JsElements) → JsValue → JsValue
on_array change (Js.array elements) = Js.array (change elements)
on_array change other = other

-- `projectSyntheticNulls`, with what it does at a reference as an argument: the references that are
-- active do not change below one another.
module _ (resume : String → JsValue → JsValue) where
  unfoldable mutual
    pub project : Projection → JsValue → JsValue
    project identity value = value
    project (in_object keys entries) value =
        on_object (λ properties. project_entries entries (delete_nulls keys properties)) value
    project (in_array items) value = on_array (change_elements (project items)) value
    project (composite projections) value = project_all projections value
    project (reference name) value = resume name value

    pub project_all : Projections → JsValue → JsValue
    project_all no_projections value = value
    project_all (projection p rest) value = project_all rest (project p value)

    pub project_entries : ProjectionMap → JsProperties → JsProperties
    project_entries no_entries properties = properties
    project_entries (entry key p rest) properties =
        project_entries rest (change_property (project p) key properties)

-- `references.get(reference)`
unfoldable pub find_reference : String → List (String × Projection) → Option Projection
find_reference name [] = none
find_reference name ((other, target) ∷ rest) =
    let later = find_reference name rest in if str_eq other name then some target else later

-- A reference, where those in `active` are being followed. The fuel counts the references that can
-- still be followed.
unfoldable pub follow : List (String × Projection) → ℕ → List String → String → JsValue → JsValue
follow references zero active name value = value
follow references (suc fuel) active name value =
    if any (str_eq name) active then value else elim (find_reference name references) [
      | none ↦ value
      | some target ↦ project (follow references fuel (name ∷ active)) target value
    ]

-- `restore`: each reference is followed at most once at a time, so their number is fuel enough.
unfoldable pub restore : List (String × Projection) → Projection → JsValue → JsValue
restore references p value = project (follow references (length references) []) p value
