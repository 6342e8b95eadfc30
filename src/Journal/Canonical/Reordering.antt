-- ===== src/Journal/Canonical/Reordering.antt =====
-- Values whose objects list the same properties in another order have the same canonical form: the
-- identity of a call in src/workflowJournal.ts does not depend on how its options were written.
use workflow_mcp.Common.{String, some, ◌≡◌, ◌≢◌, refl, ◌∙◌, ap, ok, ◌>>=◌}
use workflow_mcp.Value.{Value}
use workflow_mcp.Value
use workflow_mcp.Js.{JsValue, JsProperties, JsElements, object, array, property, element}
use workflow_mcp.Js.Units.{units, insert_key, sort_keys, insert_key_comm}
use workflow_mcp.Journal.Canonical.{
  collect, canonicalize, canonicalize_elements, canonicalize_properties, canonicalize_journal_value,
  json_or_throw, null_if_omitted,
}

-- Two values that differ in the order of properties, at any depth.
mutual
  pub data Reordered : JsValue → JsValue → Type 0 where
    unchanged : (v : JsValue) → Reordered v v
    in_object :
        (ps qs : JsProperties) → ReorderedProperties ps qs → Reordered (object ps) (object qs)
    in_array : (es fs : JsElements) → ReorderedElements es fs → Reordered (array es) (array fs)

  pub data ReorderedElements : JsElements → JsElements → Type 0 where
    no_more : ReorderedElements JsElements.no_elements JsElements.no_elements
    both :
        (v w : JsValue) (es fs : JsElements)
        → Reordered v w
        → ReorderedElements es fs
        → ReorderedElements (element v es) (element w fs)

  pub data ReorderedProperties : JsProperties → JsProperties → Type 0 where
    empty : ReorderedProperties JsProperties.no_properties JsProperties.no_properties
    keep :
        (key : String) (v w : JsValue) (ps qs : JsProperties)
        → Reordered v w
        → ReorderedProperties ps qs
        → ReorderedProperties (property key v ps) (property key w qs)
    swap :
        (j k : String) (v w : JsValue) (ps : JsProperties)
        → units j ≢ units k
        → ReorderedProperties (property j v (property k w ps)) (property k w (property j v ps))
    chain :
        (ps qs rs : JsProperties)
        → ReorderedProperties ps qs
        → ReorderedProperties qs rs
        → ReorderedProperties ps rs

mutual
  unfolding canonicalize sort_keys

  canonicalize-Reordered : (v w : JsValue) → Reordered v w → canonicalize v ≡ canonicalize w
  canonicalize-Reordered v w (unchanged u) = refl
  canonicalize-Reordered v w (in_object ps qs r) =
      ap
        (λ entries. collect Value.no_properties entries >>= λ built. ok (some (Value.object built)))
        (canonicalize_properties-ReorderedProperties ps qs r)
  canonicalize-Reordered v w (in_array es fs r) =
      ap (λ m. m >>= λ built. ok (some (Value.array built)))
        (canonicalize_elements-ReorderedElements es fs r)

  canonicalize_elements-ReorderedElements :
      (es fs : JsElements)
      → ReorderedElements es fs
      → canonicalize_elements es ≡ canonicalize_elements fs
  canonicalize_elements-ReorderedElements es fs no_more = refl
  canonicalize_elements-ReorderedElements es fs (both v w es' fs' r rs) =
      ap
        (λ m. m >>= λ normalized. canonicalize_elements es' >>= λ built.
          ok (Value.element (null_if_omitted normalized) built))
        (canonicalize-Reordered v w r)
      ∙ ap
          (λ m. canonicalize w >>= λ normalized.
            m >>= λ built. ok (Value.element (null_if_omitted normalized) built))
          (canonicalize_elements-ReorderedElements es' fs' rs)

  canonicalize_properties-ReorderedProperties :
      (ps qs : JsProperties)
      → ReorderedProperties ps qs
      → sort_keys (canonicalize_properties ps) ≡ sort_keys (canonicalize_properties qs)
  canonicalize_properties-ReorderedProperties ps qs empty = refl
  canonicalize_properties-ReorderedProperties ps qs (keep key v w ps' qs' r rs) =
      ap (λ item. insert_key (key, item) (sort_keys (canonicalize_properties ps')))
        (canonicalize-Reordered v w r)
      ∙ ap (insert_key (key, canonicalize w))
          (canonicalize_properties-ReorderedProperties ps' qs' rs)
  canonicalize_properties-ReorderedProperties ps qs (swap j k v w ps' n) =
      insert_key_comm (j, canonicalize v) (k, canonicalize w)
        (sort_keys (canonicalize_properties ps')) n
  canonicalize_properties-ReorderedProperties ps qs (chain p q s r t) =
      canonicalize_properties-ReorderedProperties p q r
      ∙ canonicalize_properties-ReorderedProperties q s t

-- Values that differ only in the order of the properties of their objects, at any depth, have the same
-- journal text, or throw the same error.
pub canonicalize_journal_value-Reordered :
    (v w : JsValue) → Reordered v w → canonicalize_journal_value v ≡ canonicalize_journal_value w
unfolding canonicalize_journal_value
canonicalize_journal_value-Reordered v w r =
    ap (λ m. m >>= json_or_throw) (canonicalize-Reordered v w r)
