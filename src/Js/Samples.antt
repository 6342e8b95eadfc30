-- ===== src/Js/Samples.antt =====
-- Values and their JSON texts.
use workflow_mcp.Common.{◌≡◌, refl, true, [], ◌∷◌, none, some}
use workflow_mcp.Value.{Value}
use workflow_mcp.Value
use workflow_mcp.Js.Units.{units}
use workflow_mcp.Js.Json.{json, array_index}

abbrev sample : Value
sample = Value.object (
    Value.property "a\n\"b\"" (Value.number (Value.natural 1204)) (
      Value.property "c"
        (Value.array
          (Value.element Value.null (Value.element (Value.boolean true) Value.no_elements)))
        Value.no_properties))

prints : json sample ≡ "{\"a\\n\\\"b\\\"\":1204,\"c\":[null,true]}"
unfolding json
prints = refl

surrogates : units "a𐀀" ≡ 97 ∷ 55296 ∷ 56320 ∷ []
unfolding units
surrogates = refl

indices :
    (array_index "17" ≡ some 17) × (array_index "017" ≡ none) × (array_index "4294967295" ≡ none)
unfolding array_index
indices = (refl, refl, refl)
