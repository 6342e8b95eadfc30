-- ===== src/State/Members/Listed.antt =====
-- src/workflowState.ts: in every projected snapshot a phase lists the agents admitted to it.
use workflow_mcp.Common.{
  ℕ, zero, suc, ◌≡◌, refl, sym, ◌∙◌, ap, subst, ◌≢◌, String, Option, none, some, List, [], ◌∷◌,
  ◌++◌, arith, All, Any, Pairwise, All-map, All-append, All-get_elem?, All-sort_by, get_elem?, set,
  eq_refl, str_eq-ne, inl, inr,
}
use workflow_mcp.State.Snapshot.{WorkflowAgentSnapshot, WorkflowPhaseSnapshot}
use workflow_mcp.State.Handlers.Admission.{sort_agents, add_member}
use workflow_mcp.State.Agents.{AgentsWell}
use workflow_mcp.State.Members.{members-admit_other, members-admit}
use workflow_mcp.State.Members.Steps.{IsListed, InPhase, Listed}

InPhase-set :
    (ps : List WorkflowPhaseSnapshot) (i : ℕ) (p q : WorkflowPhaseSnapshot) (id : Option String)
    → get_elem? ps i ≡ some p
    → q.id ≡ p.id
    → InPhase ps id
    → InPhase (set ps i q) id
InPhase-set ps i p q none found same h = h
InPhase-set ps i p q (some id) found same h = at_index ps i found h
  where
    at_index :
        (rs : List WorkflowPhaseSnapshot) (j : ℕ)
        → get_elem? rs j ≡ some p
        → Any (λ r. r.id ≡ id) rs
        → Any (λ r. r.id ≡ id) (set rs j q)
    at_index [] j e k = k
    at_index (r ∷ rs) zero e (inl k) = inl (same ∙ (ground (arith, k)))
    at_index (r ∷ rs) zero e (inr k) = inr k
    at_index (r ∷ rs) (suc j) e (inl k) = inl k
    at_index (r ∷ rs) (suc j) e (inr k) = inr (at_index rs j e k)

-- One phase is replaced; the agents of the others are the same as before.
lists-set :
    (xs ys : List WorkflowAgentSnapshot) (ps : List WorkflowPhaseSnapshot) (i : ℕ)
    (p q : WorkflowPhaseSnapshot)
    → Pairwise (λ r s. r.id ≢ s.id) ps
    → get_elem? ps i ≡ some p
    → ((r : WorkflowPhaseSnapshot) → r.id ≢ p.id → IsListed xs r → IsListed ys r)
    → IsListed ys q
    → All (IsListed xs) ps
    → All (IsListed ys) (set ps i q)
lists-set xs ys [] i p q d found keep new h = tt
lists-set xs ys (r ∷ rs) zero p q d found keep new h =
    let same : r ≡ p = ground arith in
    (
      new,
      All-map {P = λ s. (r.id ≢ s.id) × IsListed xs s} {Q = IsListed ys}
          (λ s k. keep s (λ e. k.0 (ap (λ (u : WorkflowPhaseSnapshot). u.id) same ∙ sym e)) k.1) rs
          (both rs d.0 h.1),
    )
  where
    both :
        (ss : List WorkflowPhaseSnapshot)
        → All (λ s. r.id ≢ s.id) ss
        → All (IsListed xs) ss
        → All (λ s. (r.id ≢ s.id) × IsListed xs s) ss
    both [] f g = tt
    both (s ∷ ss) f g = ((f.0, g.0), both ss f.1 g.1)
lists-set xs ys (r ∷ rs) (suc i) p q d found keep new h = (
  keep r (All-get_elem? (λ s. r.id ≢ s.id) rs i d.0 found) h.0,
  lists-set xs ys rs i p q d.1 found keep new h.1,
)

admit-known :
    (xs : List WorkflowAgentSnapshot) (agent : WorkflowAgentSnapshot)
    (ps : List WorkflowPhaseSnapshot)
    → All (λ a. InPhase ps a.phase_id) xs
    → InPhase ps agent.phase_id
    → All (λ a. InPhase ps a.phase_id) (sort_agents (xs ++ agent ∷ []))
admit-known xs agent ps h k =
    All-sort_by _ (λ a. InPhase ps a.phase_id) (xs ++ agent ∷ [])
      (All-append (λ a. InPhase ps a.phase_id) xs (agent ∷ []) h (k, tt))

pub admit_alone-Listed :
    (xs : List WorkflowAgentSnapshot) (agent : WorkflowAgentSnapshot)
    (ps : List WorkflowPhaseSnapshot)
    → AgentsWell xs
    → agent.phase_id ≡ none
    → Listed xs ps
    → Listed (sort_agents (xs ++ agent ∷ [])) ps
admit_alone-Listed xs agent ps w alone l = record {
  lists =
      All-map {P = IsListed xs} {Q = IsListed (sort_agents (xs ++ agent ∷ []))}
        (λ p h. h ∙ sym (members-admit_other p.id xs agent w (rw alone refl))) ps l.lists;
  known = admit-known xs agent ps l.known (subst (InPhase ps) (sym alone) tt);
}

pub admit_to-Listed :
    (xs : List WorkflowAgentSnapshot) (agent : WorkflowAgentSnapshot)
    (ps : List WorkflowPhaseSnapshot) (i : ℕ) (p : WorkflowPhaseSnapshot)
    → AgentsWell xs
    → Pairwise (λ r s. r.id ≢ s.id) ps
    → All (λ a. a.id ≢ agent.id) xs
    → get_elem? ps i ≡ some p
    → agent.phase_id ≡ some p.id
    → Listed xs ps
    → Listed
        (sort_agents (xs ++ agent ∷ []))
        (set ps i (add_member (sort_agents (xs ++ agent ∷ [])) agent.id p))
admit_to-Listed xs agent ps i p w d fresh found named l =
    let ys = sort_agents (xs ++ agent ∷ []) in
    record {
      lists =
          lists-set xs ys ps i p (add_member ys agent.id p) d found
            (λ r n h.
              h
              ∙ sym (
                  members-admit_other r.id xs agent w
                    (rw named (str_eq-ne p.id r.id (λ e. n (sym e))))))
            (ap (λ is. (add_member ys agent.id (record p { agent_ids = is })).agent_ids)
                (All-get_elem? (IsListed xs) ps i l.lists found)
              ∙ sym (members-admit p.id xs agent w fresh (rw named (eq_refl p.id))))
            l.lists;
      known =
          All-map {P = λ a. InPhase ps a.phase_id}
            {Q = λ a. InPhase (set ps i (add_member ys agent.id p)) a.phase_id}
            (λ a. InPhase-set ps i p (add_member ys agent.id p) a.phase_id found refl) ys
            (admit-known xs agent ps l.known (subst (InPhase ps) (sym named) (there ps i found)));
    }
  where
    there :
        (rs : List WorkflowPhaseSnapshot) (j : ℕ)
        → get_elem? rs j ≡ some p
        → Any (λ r. r.id ≡ p.id) rs
    there [] j e = cc
    there (r ∷ rs) zero e = inl (ground arith)
    there (r ∷ rs) (suc j) e = inr (there rs j e)
