-- ===== src/State/Members/Steps.antt =====
-- src/workflowState.ts: the lists of members across one event, and in every projected snapshot.
use workflow_mcp.Common.{
  ◌≡◌, refl, sym, ◌∙◌, ap, subst, ◌≢◌, String, false, Option, none, some, List, [], ◌∷◌, ◌++◌, All,
  Any, All-map, All-append, str_eq-ne, inl, inr, Along, All-Along, Any-append_left, Any-Along,
}
use workflow_mcp.State.Snapshot.{WorkflowAgentSnapshot, WorkflowPhaseSnapshot}
use workflow_mcp.State.Agents.{Evolves, Evolved}
use workflow_mcp.State.Phases.{SamePhase}
use workflow_mcp.State.Members.{is_named, members, members-Evolved}

-- The list of a phase is what the phases of the agents say.
abbrev pub IsListed : List WorkflowAgentSnapshot → WorkflowPhaseSnapshot → Type 0
IsListed agents phase = phase.agent_ids ≡ members phase.id agents

-- The phase that an agent was admitted to, if any, was discovered.
abbrev pub InPhase : List WorkflowPhaseSnapshot → Option String → Type 0
InPhase phases none = Unit {0}
InPhase phases (some id) = Any (λ p. p.id ≡ id) phases

pub record Listed (agents : List WorkflowAgentSnapshot) (phases : List WorkflowPhaseSnapshot)
    : Type 0 where
  pub lists : All (IsListed agents) phases
  pub known : All (λ a. InPhase phases a.phase_id) agents

InPhase-SamePhase :
    (ps qs : List WorkflowPhaseSnapshot) (id : Option String)
    → Along SamePhase ps qs
    → InPhase ps id
    → InPhase qs id
InPhase-SamePhase ps qs none e h = h
InPhase-SamePhase ps qs (some id) e h =
    Any-Along SamePhase (λ p. p.id ≡ id) (λ x y f p. f.id ∙ p) ps qs e h

pub evolve-Listed :
    (xs ys : List WorkflowAgentSnapshot) (ps qs : List WorkflowPhaseSnapshot)
    → Evolved xs ys
    → Along SamePhase ps qs
    → Listed xs ps
    → Listed ys qs
evolve-Listed xs ys ps qs e f l = record {
  lists =
      All-Along SamePhase (IsListed ys)
        (λ p q s h. s.agent_ids ∙ h ∙ ap (λ i. members i ys) (sym s.id)) ps qs f
        (All-map {P = IsListed xs} {Q = IsListed ys} (λ p h. h ∙ sym (members-Evolved p.id xs ys e))
          ps l.lists);
  known =
      All-Along Evolves (λ a. InPhase qs a.phase_id)
        (λ x y s h. subst (InPhase qs) (sym s.phase_id) h) xs ys e
        (All-map {P = λ a. InPhase ps a.phase_id} {Q = λ a. InPhase qs a.phase_id}
          (λ a. InPhase-SamePhase ps qs a.phase_id f) xs l.known);
}

not_member :
    (phases : List WorkflowPhaseSnapshot) (id : String) (of : Option String)
    → All (λ p. p.id ≢ id) phases
    → InPhase phases of
    → is_named id of ≡ false
not_member phases id none fresh h = refl
not_member phases id (some of) fresh h = str_eq-ne of id (λ e. clash phases fresh h e)
  where
    clash :
        (ps : List WorkflowPhaseSnapshot)
        → All (λ p. p.id ≢ id) ps
        → Any (λ p. p.id ≡ of) ps
        → of ≡ id
        → ⊥
    clash (p ∷ ps) n (inl k) e = n.0 (k ∙ e)
    clash (p ∷ ps) n (inr k) e = clash ps n.1 k e
    clash [] n k e = k

no_members :
    (agents : List WorkflowAgentSnapshot) (phases : List WorkflowPhaseSnapshot) (id : String)
    → All (λ p. p.id ≢ id) phases
    → All (λ a. InPhase phases a.phase_id) agents
    → members id agents ≡ []
no_members [] phases id fresh h = refl
no_members (a ∷ rest) phases id fresh h =
    rw (not_member phases id a.phase_id fresh h.0) (no_members rest phases id fresh h.1)

InPhase-append :
    (ps qs : List WorkflowPhaseSnapshot) (id : Option String)
    → InPhase ps id
    → InPhase (ps ++ qs) id
InPhase-append ps qs none h = h
InPhase-append ps qs (some id) h = Any-append_left (λ p. p.id ≡ id) ps qs h

pub discover-Listed :
    (agents : List WorkflowAgentSnapshot) (ps : List WorkflowPhaseSnapshot)
    (phase : WorkflowPhaseSnapshot)
    → All (λ p. p.id ≢ phase.id) ps
    → phase.agent_ids ≡ []
    → Listed agents ps
    → Listed agents (ps ++ phase ∷ [])
discover-Listed agents ps phase fresh empty l = record {
  lists =
      All-append (IsListed agents) ps (phase ∷ []) l.lists
        (empty ∙ sym (no_members agents ps phase.id fresh l.known), tt);
  known =
      All-map {P = λ a. InPhase ps a.phase_id} {Q = λ a. InPhase (ps ++ phase ∷ []) a.phase_id}
        (λ a. InPhase-append ps (phase ∷ []) a.phase_id) agents l.known;
}
