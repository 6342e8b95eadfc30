-- ===== src/Schema/Erasure.antt =====
-- What a restored value may lack.
use workflow_mcp.Common.{
  ℕ, zero, suc, String, true, List, [], ◌∷◌, ◌≡◌, refl, inl, inr, any, length, str_eq, Bool-cases,
  Option-cases,
}
use workflow_mcp.Js
use workflow_mcp.Js.{JsValue, JsProperties, JsElements, get_property, own_property}
use workflow_mcp.Schema.{
  Projection, Projections, ProjectionMap, identity, in_object, in_array, composite, reference,
  no_projections, projection, no_entries, entry, delete_property, is_null, delete_nulls,
  change_property, on_object, on_array, change_elements, project, project_all, project_entries,
  find_reference, follow, restore,
}

-- The second value is the first without some properties that are null.
mutual
  pub data Erases : JsValue → JsValue → Type 0 where
    unchanged : (v : JsValue) → Erases v v
    object_part :
        (ps qs : JsProperties) → ErasesProperties ps qs → Erases (Js.object ps) (Js.object qs)
    array_part : (es fs : JsElements) → ErasesElements es fs → Erases (Js.array es) (Js.array fs)
    twice : (u v w : JsValue) → Erases u v → Erases v w → Erases u w

  pub data ErasesProperties : JsProperties → JsProperties → Type 0 where
    same : (ps : JsProperties) → ErasesProperties ps ps
    drop : (name : String) (ps : JsProperties) → ErasesProperties (Js.property name Js.null ps) ps
    keep :
        (name : String) (v w : JsValue) (ps qs : JsProperties)
        → Erases v w
        → ErasesProperties ps qs
        → ErasesProperties (Js.property name v ps) (Js.property name w qs)
    after :
        (ps qs rs : JsProperties)
        → ErasesProperties ps qs
        → ErasesProperties qs rs
        → ErasesProperties ps rs

  pub data ErasesElements : JsElements → JsElements → Type 0 where
    no_more : ErasesElements Js.no_elements Js.no_elements
    each :
        (v w : JsValue) (es fs : JsElements)
        → Erases v w
        → ErasesElements es fs
        → ErasesElements (Js.element v es) (Js.element w fs)

is_null-null : (v : JsValue) → is_null v ≡ true → v ≡ Js.null
is_null-null Js.null h = refl
is_null-null other h = cc

delete_null-Erases :
    (key : String) (ps : JsProperties)
    → is_null (get_property key ps) ≡ true
    → ErasesProperties ps (delete_property key ps)
unfolding get_property own_property
delete_null-Erases key Js.no_properties h = same Js.no_properties
delete_null-Erases key (Js.property name v ps) h = elim (Bool-cases (str_eq name key)) [
  | inl hit ↦
      let null = is_null-null v (rw (is_null, get_property, own_property, hit) at h) in
      rw (hit, null) (drop name ps)
  | inr miss ↦ rw miss (
      keep name v v ps (delete_property key ps) (unchanged v)
        (delete_null-Erases key ps (rw (is_null, get_property, own_property, miss) at h)))
]

delete_nulls-Erases :
    (keys : List String) (ps : JsProperties) → ErasesProperties ps (delete_nulls keys ps)
delete_nulls-Erases [] ps = same ps
delete_nulls-Erases (key ∷ keys) ps = elim (Bool-cases (is_null (get_property key ps))) [
  | inl gone ↦ rw gone (
      after ps (delete_property key ps) _ (delete_null-Erases key ps gone)
        (delete_nulls-Erases keys (delete_property key ps)))
  | inr kept ↦ rw kept (delete_nulls-Erases keys ps)
]

change_property-Erases :
    (change : JsValue → JsValue) (key : String) (ps : JsProperties)
    → ((v : JsValue) → Erases v (change v))
    → ErasesProperties ps (change_property change key ps)
change_property-Erases change key Js.no_properties f = same Js.no_properties
change_property-Erases change key (Js.property name v ps) f = elim (Bool-cases (str_eq name key)) [
  | inl hit ↦ rw hit (keep name v (change v) ps ps (f v) (same ps))
  | inr miss ↦ rw miss (
      keep name v v ps (change_property change key ps) (unchanged v)
        (change_property-Erases change key ps f))
]

change_elements-Erases :
    (change : JsValue → JsValue) (es : JsElements)
    → ((v : JsValue) → Erases v (change v))
    → ErasesElements es (change_elements change es)
change_elements-Erases change Js.no_elements f = no_more
change_elements-Erases change (Js.element v es) f =
    each v (change v) es (change_elements change es) (f v) (change_elements-Erases change es f)

on_object-Erases :
    (change : JsProperties → JsProperties) (v : JsValue)
    → ((ps : JsProperties) → ErasesProperties ps (change ps))
    → Erases v (on_object change v)
on_object-Erases change (Js.object ps) f = object_part ps (change ps) (f ps)
on_object-Erases change v f = unchanged v

on_array-Erases :
    (change : JsElements → JsElements) (v : JsValue)
    → ((es : JsElements) → ErasesElements es (change es))
    → Erases v (on_array change v)
on_array-Erases change (Js.array es) f = array_part es (change es) (f es)
on_array-Erases change v f = unchanged v

module _ (resume : String → JsValue → JsValue)
    (erases : (name : String) (v : JsValue) → Erases v (resume name v)) where
  mutual
    unfolding project

    project-Erases : (p : Projection) (v : JsValue) → Erases v (project resume p v)
    project-Erases identity v = unchanged v
    project-Erases (in_object keys entries) v =
        on_object-Erases
          (λ properties. project_entries resume entries (delete_nulls keys properties)) v
          (λ ps.
            after ps (delete_nulls keys ps) (project_entries resume entries (delete_nulls keys ps))
              (delete_nulls-Erases keys ps) (project_entries-Erases entries (delete_nulls keys ps)))
    project-Erases (in_array items) v =
        on_array-Erases (change_elements (project resume items)) v
          (λ es. change_elements-Erases (project resume items) es (project-Erases items))
    project-Erases (composite ps) v = project_all-Erases ps v
    project-Erases (reference name) v = erases name v

    project_all-Erases : (ps : Projections) (v : JsValue) → Erases v (project_all resume ps v)
    project_all-Erases no_projections v = unchanged v
    project_all-Erases (projection p rest) v =
        twice v (project resume p v) (project_all resume rest (project resume p v))
          (project-Erases p v) (project_all-Erases rest (project resume p v))

    project_entries-Erases :
        (entries : ProjectionMap) (ps : JsProperties)
        → ErasesProperties ps (project_entries resume entries ps)
    project_entries-Erases no_entries ps = same ps
    project_entries-Erases (entry key p rest) ps =
        after ps (change_property (project resume p) key ps) _
          (change_property-Erases (project resume p) key ps (project-Erases p))
          (project_entries-Erases rest (change_property (project resume p) key ps))

follow-Erases :
    (references : List (String × Projection)) (fuel : ℕ) (active : List String) (name : String)
    (v : JsValue)
    → Erases v (follow references fuel active name v)
unfolding follow
follow-Erases references zero active name v = unchanged v
follow-Erases references (suc fuel) active name v = elim (Bool-cases (any (str_eq name) active)) [
  | inl followed ↦ rw followed (unchanged v)
  | inr fresh ↦ elim (Option-cases (find_reference name references)) [
    | inl gone ↦ rw (fresh, gone) (unchanged v)
    | inr (target, at) ↦
        rw (fresh, at)
          (project-Erases (follow references fuel (name ∷ active))
            (follow-Erases references fuel (name ∷ active)) target v)
  ]
]

-- Restoring a value only leaves properties out, in any depth, and only properties that are null: no
-- other value, element or order of the model's answer changes.
pub restore-Erases :
    (references : List (String × Projection)) (p : Projection) (v : JsValue)
    → Erases v (restore references p v)
unfolding restore
restore-Erases references p v =
    project-Erases (follow references (length references) [])
      (follow-Erases references (length references) []) p v
