-- ===== src/State/Members.antt =====
-- src/workflowState.ts: the members of a phase are the agents admitted to it, in call order.
pub mod Steps
pub mod Listed
pub mod Projection
pub mod History
use workflow_mcp.Common.{
  ℕ, zero, suc, ◌≡◌, refl, sym, ◌∙◌, ap, subst, ◌≢◌, ◌<◌, String, Bool, true, false, Option, none,
  some, List, [], ◌∷◌, ◌++◌, map, filter, arith, All, Any, Pairwise, All-map, All-append,
  All-get_elem?, get_elem?, set, find, str_eq, eq_iff, str_eq-ne, eq_refl, All-filter, Bool-cases,
  inl, inr, if◌then◌else◌, Along, Ascending, sort_by, insert_by, Pairwise-append_one,
  filter-sort_by, map-sort_by,
}
use workflow_mcp.State.Snapshot.{WorkflowAgentSnapshot, WorkflowPhaseSnapshot, WorkflowSnapshot}
use workflow_mcp.State.Update.{has_agent_id}
use workflow_mcp.State.Handlers.Admission.{sort_agents, call_index_of, add_member}
use workflow_mcp.State.Agents.{Evolves, Evolved, AgentsWell}
use workflow_mcp.State.Isolation.{find-sort_agents}

abbrev pub is_named : String → Option String → Bool
is_named phase_id none = false
is_named phase_id (some id) = str_eq id phase_id

-- The identities of the agents that were admitted to a phase, in the order of the agents.
abbrev pub members : String → List WorkflowAgentSnapshot → List String
members phase_id agents = map (λ a. a.id) (filter (λ a. is_named phase_id a.phase_id) agents)

pub members-Evolved :
    (phase_id : String) (xs ys : List WorkflowAgentSnapshot)
    → Evolved xs ys
    → members phase_id ys ≡ members phase_id xs
members-Evolved phase_id [] [] e = refl
members-Evolved phase_id (x ∷ xs) (y ∷ ys) e = elim (Bool-cases (is_named phase_id x.phase_id)) [
  | inl p ↦
      rw (e.0.phase_id, p)
        (ap (λ i. i ∷ members phase_id ys) e.0.id
          ∙ ap (◌∷◌ x.id) (members-Evolved phase_id xs ys e.1))
  | inr p ↦ rw (e.0.phase_id, p) (members-Evolved phase_id xs ys e.1)
]
members-Evolved phase_id [] (y ∷ ys) e = absurd e
members-Evolved phase_id (x ∷ xs) [] e = absurd e

filter-append_one :
    (q : WorkflowAgentSnapshot → Bool) (xs : List WorkflowAgentSnapshot) (x : WorkflowAgentSnapshot)
    → filter q (xs ++ x ∷ []) ≡ (if q x then filter q xs ++ x ∷ [] else filter q xs)
filter-append_one q [] x = refl
filter-append_one q (y ∷ ys) x = ground (arith, filter-append_one q ys x)

sort_agents-Ascending :
    (xs : List WorkflowAgentSnapshot) → Ascending (λ a. a.call_index) xs → sort_agents xs ≡ xs
unfolding sort_by
sort_agents-Ascending [] h = refl
sort_agents-Ascending (x ∷ xs) h =
    ap (insert_by (λ a. a.call_index) x) (sort_agents-Ascending xs h.1) ∙ first xs h.0
  where
    first :
        (ys : List WorkflowAgentSnapshot)
        → All (λ y. x.call_index < y.call_index) ys
        → insert_by (λ a. a.call_index) x ys ≡ x ∷ ys
    first [] k = refl
    first (y ∷ ys) k = ground arith

-- An agent that is admitted elsewhere does not change the members of a phase.
pub members-admit_other :
    (phase_id : String) (xs : List WorkflowAgentSnapshot) (agent : WorkflowAgentSnapshot)
    → AgentsWell xs
    → is_named phase_id agent.phase_id ≡ false
    → members phase_id (sort_agents (xs ++ agent ∷ [])) ≡ members phase_id xs
members-admit_other phase_id xs agent w other =
    let q = λ (a : WorkflowAgentSnapshot). is_named phase_id a.phase_id in
    let plain : filter q (xs ++ agent ∷ []) ≡ filter q xs =
      filter-append_one q xs agent ∙ rw other refl in
    ap (map (λ a. a.id)) (
      filter-sort_by (λ a. a.call_index) q (xs ++ agent ∷ [])
      ∙ ap sort_agents plain
      ∙ sym (filter-sort_by (λ a. a.call_index) q xs)
      ∙ ap (filter q) (sort_agents-Ascending xs w.order))

All-both :
    (P Q : WorkflowAgentSnapshot → Type 0) (zs : List WorkflowAgentSnapshot)
    → All P zs
    → All Q zs
    → All (λ a. P a × Q a) zs
All-both P Q [] f g = tt
All-both P Q (z ∷ zs) f g = ((f.0, g.0), All-both P Q zs f.1 g.1)

map-append_one :
    (xs : List WorkflowAgentSnapshot) (x : WorkflowAgentSnapshot)
    → map (λ a. a.id) (xs ++ x ∷ []) ≡ map (λ a. a.id) xs ++ x.id ∷ []
map-append_one [] x = refl
map-append_one (y ∷ ys) x = ap (◌∷◌ y.id) (map-append_one ys x)

-- In a list of distinct agents each is found under its identity.
found_in :
    (zs : List WorkflowAgentSnapshot)
    → Pairwise (λ a b. a.id ≢ b.id) zs
    → All (λ a. find (has_agent_id a.id) zs ≡ some a) zs
found_in [] d = tt
found_in (z ∷ zs) d = (
  rw (eq_refl z.id) refl,
  All-map {Q = λ a. find (has_agent_id a.id) (z ∷ zs) ≡ some a}
      (λ a (h : (z.id ≢ a.id) × (find (has_agent_id a.id) zs ≡ some a)).
        rw (str_eq-ne z.id a.id h.0) h.1)
      zs
      (All-both (λ a. z.id ≢ a.id) (λ a. find (has_agent_id a.id) zs ≡ some a) zs d.0
        (found_in zs d.1)),
)

call_index_of-found :
    (zs : List WorkflowAgentSnapshot)
    → Pairwise (λ a b. a.id ≢ b.id) zs
    → All (λ a. call_index_of (sort_agents zs) a.id ≡ a.call_index) zs
unfolding call_index_of
call_index_of-found zs d =
    All-map
      (λ a (h : find (has_agent_id a.id) zs ≡ some a). rw (find-sort_agents a.id zs d, h) refl) zs
      (found_in zs d)

-- An agent that is admitted to a phase becomes its member, at the place of its call.
pub members-admit :
    (phase_id : String) (xs : List WorkflowAgentSnapshot) (agent : WorkflowAgentSnapshot)
    → AgentsWell xs
    → All (λ a. a.id ≢ agent.id) xs
    → is_named phase_id agent.phase_id ≡ true
    → members phase_id (sort_agents (xs ++ agent ∷ []))
      ≡ sort_by
          (call_index_of (sort_agents (xs ++ agent ∷ [])))
          (members phase_id xs ++ agent.id ∷ [])
members-admit phase_id xs agent w fresh named =
    let q = λ (a : WorkflowAgentSnapshot). is_named phase_id a.phase_id in
    let zs = xs ++ agent ∷ [] in
    let plain : filter q zs ≡ filter q xs ++ agent ∷ [] =
      filter-append_one q xs agent ∙ rw named refl in
    let distinct = Pairwise-append_one (λ a b. a.id ≢ b.id) xs agent w.ids fresh in
    ap (map (λ a. a.id)) (filter-sort_by (λ a. a.call_index) q zs)
    ∙ map-sort_by (λ a. a.id) (λ a. a.call_index) (call_index_of (sort_agents zs)) (filter q zs)
        (All-filter _ q zs (call_index_of-found zs distinct))
    ∙ ap (sort_by (call_index_of (sort_agents zs)))
        (ap (map (λ a. a.id)) plain ∙ map-append_one (filter q xs) agent)
