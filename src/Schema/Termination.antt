-- ===== src/Schema/Termination.antt =====
-- The references of a projection are followed to their ends.
use workflow_mcp.Common.{
  ℕ, zero, suc, ◌+◌, ◌≤◌, ◌<◌, String, false, List, [], ◌∷◌, some, ◌≡◌, refl, ◌∙◌, ap, arith, inl,
  inr, any, length, str_eq, eq_iff, if◌then◌else◌, Bool-cases, Option-cases,
}
use workflow_mcp.Js.{JsValue}
use workflow_mcp.Schema.{Projection, project, find_reference, follow, restore}

-- How many references are not active.
unfoldable pub idle : List (String × Projection) → List String → ℕ
idle [] active = 0
idle ((name, target) ∷ rest) active = (if any (str_eq name) active then 0 else 1) + idle rest active

idle-le :
    (references : List (String × Projection)) (active : List String) (name : String)
    → idle references (name ∷ active) ≤ idle references active
unfolding idle
idle-le [] active name = omega arith
idle-le ((other, target) ∷ rest) active name = ground (arith, idle-le rest active name)

-- A reference that is followed is not idle any more.
idle-lt :
    (references : List (String × Projection)) (active : List String) (name : String)
    (target : Projection)
    → find_reference name references ≡ some target
    → any (str_eq name) active ≡ false
    → idle references (name ∷ active) < idle references active
unfolding idle find_reference
idle-lt [] active name target h fresh = cc
idle-lt ((other, first) ∷ rest) active name target h fresh = elim (Bool-cases (str_eq other name)) [
  | inl same ↦
      let fresh_other : any (str_eq other) active ≡ false =
        ap (λ n. any (str_eq n) active) ((eq_iff other name).0 same) ∙ fresh in
      rw (same, fresh_other) (omega (arith, idle-le rest active name))
  | inr apart ↦ rw apart (
      ground
        (arith, idle-le rest active name, idle-lt rest active name target (rw apart at h) fresh))
]

idle-length : (references : List (String × Projection)) → idle references [] ≡ length references
unfolding idle
idle-length [] = refl
idle-length ((name, target) ∷ rest) = omega (arith, idle-length rest)

-- Where the fuel counts the idle references, more of it changes nothing.
follow-suc :
    (references : List (String × Projection)) (fuel : ℕ) (active : List String)
    → idle references active ≤ fuel
    → (name : String) (value : JsValue)
    → follow references fuel active name value ≡ follow references (suc fuel) active name value
unfolding follow
follow-suc references zero active few name value = elim (Bool-cases (any (str_eq name) active)) [
  | inl followed ↦ rw followed refl
  | inr fresh ↦ elim (Option-cases (find_reference name references)) [
    | inl gone ↦ rw (fresh, gone) refl
    | inr (target, at) ↦ absurd (omega (arith, idle-lt references active name target at fresh))
  ]
]
follow-suc references (suc fuel) active few name value =
    elim (Bool-cases (any (str_eq name) active)) [
      | inl followed ↦ rw followed refl
      | inr fresh ↦ elim (Option-cases (find_reference name references)) [
        | inl gone ↦ rw (fresh, gone) refl
        | inr (target, at) ↦
            let fewer = idle-lt references active name target at fresh in
            let inner = follow-suc references fuel (name ∷ active) (omega (arith, fewer)) in
            rw (fresh, at) (ap (λ resume. project resume target value) (λ i n v. inner n v i))
      ]
    ]

-- The number of references is fuel enough: with any more the same value is restored, so the recursion
-- through references ends by itself.
pub restore-fuel :
    (references : List (String × Projection)) (p : Projection) (value : JsValue) (more : ℕ)
    → restore references p value ≡ project (follow references (more + length references) []) p value
unfolding restore
restore-fuel references p value zero =
    ap (λ n. project (follow references n []) p value) (omega arith)
restore-fuel references p value (suc more) =
    restore-fuel references p value more
    ∙ ap (λ resume. project resume p value)
        (λ i n v.
          follow-suc references (more + length references) []
            (omega (arith, idle-length references)) n v i)
    ∙ ap (λ n. project (follow references n []) p value) (omega arith)
