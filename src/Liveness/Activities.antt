-- ===== src/Liveness/Activities.antt =====
-- src/executionReliability.ts: the set of open activities and the map of their details agree.
use workflow_mcp.Common.{
  ◌<◌, ◌≡◌, refl, sym, ap, subst, ◌∙◌, inl, inr, String, true, false, not, some, List, [], ◌∷◌, map,
  arith, length, filter, any, find, str_eq, eq_iff, eq_refl, Bool-cases, Option-cases,
}
use workflow_mcp.Liveness.{
  AgentProviderActivity, ActivityChange, AgentProviderEvent, LivenessPhase, Monitor, has_id,
  add_open, put_activity, patch_activity, patch_found, track, phase, latest, activity_at,
  uncertain_activity,
}

abbrev pub ids : List AgentProviderActivity → List String
ids = map λ a. a.id

add_open-miss :
    (id x : String) (xs : List String)
    → str_eq x id ≡ false
    → add_open id (x ∷ xs) ≡ x ∷ add_open id xs
add_open-miss id x xs miss = elim (Bool-cases (any (λ i. str_eq i id) xs)) [
  | inl p ↦ rw (miss, p) refl
  | inr p ↦ rw (miss, p) refl
]

ids-put_activity :
    (a : AgentProviderActivity) (xs : List AgentProviderActivity)
    → ids (put_activity a xs) ≡ add_open a.id (ids xs)
unfolding put_activity
ids-put_activity a [] = refl
ids-put_activity a (x ∷ xs) = elim (Bool-cases (has_id a.id x)) [
  | inl hit ↦ rw hit (ap (λ i. i ∷ ids xs) (sym ((eq_iff x.id a.id).0 hit)))
  | inr miss ↦
      let put : ids (put_activity a (x ∷ xs)) ≡ x.id ∷ add_open a.id (ids xs) =
        rw miss (ap (◌∷◌ x.id) (ids-put_activity a xs)) in
      put ∙ sym (add_open-miss a.id x.id (ids xs) miss)
]

find-ids :
    (id : String) (xs : List AgentProviderActivity) (a : AgentProviderActivity)
    → find (has_id id) xs ≡ some a
    → (a.id ≡ id) × (any (λ i. str_eq i id) (ids xs) ≡ true)
find-ids id [] a h = cc
find-ids id (x ∷ xs) a h = elim (Bool-cases (has_id id x)) [
  | inl hit ↦
      let same : x ≡ a = ground arith in
      (ap (λ (b : AgentProviderActivity). b.id) (sym same) ∙ (eq_iff x.id id).0 hit, rw hit refl)
  | inr miss ↦ let (e, p) = find-ids id xs a (rw miss at h) in (e, rw (miss, p) refl)
]

ids-patch_found :
    (id : String) (change : ActivityChange) (xs : List AgentProviderActivity)
    → ids (patch_found change (find (has_id id) xs) xs) ≡ ids xs
ids-patch_found id change xs = elim (Option-cases (find (has_id id) xs)) [
  | inl gone ↦ rw gone refl
  | inr (a, found) ↦
      let (e, p) = find-ids id xs a found in
      rw found (ids-put_activity (patch_activity change a) xs ∙ rw (e, p) refl)
]

ids-filter :
    (id : String) (xs : List AgentProviderActivity)
    → ids (filter (λ a. not (has_id id a)) xs) ≡ filter (λ i. not (str_eq i id)) (ids xs)
ids-filter id [] = refl
ids-filter id (x ∷ xs) = elim (Bool-cases (has_id id x)) [
  | inl hit ↦ rw hit (ids-filter id xs)
  | inr miss ↦ rw miss (ap (◌∷◌ x.id) (ids-filter id xs))
]

-- The map has a value for each open activity, in the same order, and for no other.
abbrev pub IsKeyed : Monitor → Type 0
IsKeyed m = ids m.activities ≡ m.open_activities

pub track-IsKeyed : (event : AgentProviderEvent) (m : Monitor) → IsKeyed m → IsKeyed (track event m)
unfolding track
track-IsKeyed (AgentProviderEvent.activity_started activity) m k =
    ids-put_activity activity m.activities ∙ ap (add_open activity.id) k
track-IsKeyed (AgentProviderEvent.activity_updated id change) m k =
    ids-patch_found id change m.activities ∙ k
track-IsKeyed (AgentProviderEvent.activity_completed activity) m k =
    ids-filter activity.id m.activities ∙ ap (filter (λ i. not (str_eq i activity.id))) k
track-IsKeyed _ m k = k

find-any :
    (id : String) (xs : List AgentProviderActivity)
    → any (λ i. str_eq i id) (ids xs) ≡ true
    → (a : AgentProviderActivity) × (find (has_id id) xs ≡ some a)
find-any id [] h = cc
find-any id (x ∷ xs) h = elim (Bool-cases (has_id id x)) [
  | inl hit ↦ (x, rw hit refl)
  | inr miss ↦ let (a, e) = find-any id xs (rw miss at h) in (a, rw miss e)
]

latest-any :
    (x : String) (xs : List String)
    → (id : String) × (latest (x ∷ xs) ≡ some id) × (any (λ i. str_eq i id) (x ∷ xs) ≡ true)
latest-any x [] = (x, refl, rw (eq_refl x) refl)
latest-any x (y ∷ ys) =
    let (id, e, p) = latest-any y ys in
    (id, e, elim (Bool-cases (str_eq x id)) [ inl q ↦ rw q refl | inr q ↦ rw q p ])

-- An activity is known to be in flight whenever one is open.
activity_at-open :
    (open_ids : List String) (xs : List AgentProviderActivity)
    → ids xs ≡ open_ids
    → 0 < length open_ids
    → (a : AgentProviderActivity) × (activity_at (latest open_ids) xs ≡ some a)
activity_at-open [] xs k h = absurd (omega (arith, h))
activity_at-open (x ∷ rest) xs k h =
    let (id, e, p) = latest-any x rest in
    let (a, found) = find-any id xs (subst (λ is. any (λ i. str_eq i id) is ≡ true) (sym k) p) in
    (a, rw e found)

pub phase-active_operation :
    (m : Monitor)
    → IsKeyed m
    → phase m ≡ LivenessPhase.active_operation
    → (a : AgentProviderActivity) × (uncertain_activity m ≡ some a)
unfolding phase uncertain_activity
phase-active_operation m k h = activity_at-open m.open_activities m.activities k (ground arith)
