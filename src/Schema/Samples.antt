-- ===== src/Schema/Samples.antt =====
-- A schema of nodes that refer to themselves.
use workflow_mcp.Common.{◌+◌, String, List, [], ◌∷◌, ◌≡◌, refl, length}
use workflow_mcp.Js
use workflow_mcp.Js.{JsValue, JsProperties, get_property, own_property}
use workflow_mcp.Schema.{
  Projection, identity, in_object, in_array, reference, no_entries, entry, project, find_reference,
  follow, restore, combine_projections, no_projections, projection,
}
use workflow_mcp.Schema.Termination.{restore-fuel}
use workflow_mcp.Schema.Erasure.{Erases, restore-Erases}

-- `{type: 'object', properties: {next: {$ref: '#/$defs/node'}, note: {type: 'string'}}}`
abbrev node : Projection
node =
    in_object ("next" ∷ "note" ∷ [])
      (entry "next" (reference "#/$defs/node") (entry "note" identity no_entries))

abbrev nodes : List (String × Projection)
nodes = ("#/$defs/node", node) ∷ []

abbrev object_of : JsValue → JsValue → JsValue
object_of next note = Js.object (Js.property "next" next (Js.property "note" note Js.no_properties))

abbrev leaf : JsValue
leaf = object_of Js.null Js.null

leaf-restored : restore nodes (reference "#/$defs/node") leaf ≡ Js.object Js.no_properties
unfolding restore follow find_reference project get_property own_property
leaf-restored = refl

-- Below a node the same reference is still active, so the nulls of a node inside stay.
abbrev chain : JsValue
chain = object_of leaf Js.null

chain-restored :
    restore nodes (reference "#/$defs/node") chain
    ≡ Js.object (Js.property "next" leaf Js.no_properties)
unfolding restore follow find_reference project get_property own_property
chain-restored = refl

-- Without the reference, the same nodes written out lose them.
abbrev unrolled : Projection
unrolled = in_object ("next" ∷ "note" ∷ []) (entry "next" node no_entries)

chain-unrolled :
    restore nodes unrolled chain
    ≡ Js.object (Js.property "next" (Js.object Js.no_properties) Js.no_properties)
unfolding restore follow find_reference project get_property own_property
chain-unrolled = refl

one_active : combine_projections (projection identity (projection node no_projections)) ≡ node
unfolding combine_projections
one_active = refl

restore-fuel_example :
    restore nodes (in_array (reference "#/$defs/node")) (Js.array (Js.element chain Js.no_elements))
    ≡ project
        (follow nodes (3 + length nodes) [])
        (in_array (reference "#/$defs/node"))
        (Js.array (Js.element chain Js.no_elements))
restore-fuel_example =
    restore-fuel nodes (in_array (reference "#/$defs/node"))
      (Js.array (Js.element chain Js.no_elements)) 3

restore-Erases_example : Erases chain (restore nodes (reference "#/$defs/node") chain)
restore-Erases_example = restore-Erases nodes (reference "#/$defs/node") chain
