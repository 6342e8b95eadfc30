-- ===== src/State/Phases.antt =====
-- The phases of a run in src/workflowState.ts across one event, and their members.
pub mod Steps
use workflow_mcp.Common.{
  ◌≡◌, refl, sym, ◌∙◌, subst, ◌≢◌, String, Bool, Option, none, some, List, [], ◌∷◌, ◌++◌, map,
  arith, All, Any, Pairwise, All-map, All-append, All-sort_by, All-set, Any-sort_by,
  Any-append_left, Pairwise-append_one, Along, Along-refl, Along-set, Along-map, All-Along,
  Any-Along, Pairwise-Along, Result, ok, ◌>>=◌, >>=-eq-ok, modify_first, modify_first-Modifies, inl,
  inr, get_elem?, set, ℕ, zero, suc, All-get_elem?, Pairwise-set,
}
use workflow_mcp.State.Snapshot.{
  WorkflowAgentSnapshot, WorkflowPhaseSnapshot, WorkflowSnapshot, WorkflowRunStatus,
}
use workflow_mcp.State.Update.{ReduceError}
use workflow_mcp.State.Derive.{derive_phases}
use workflow_mcp.State.Handlers.Phase.{change_phase}
use workflow_mcp.State.Handlers.Admission.{add_member, sort_agents}
use workflow_mcp.State.Agents.{Evolves, Evolved, AgentsStep, evolve, admit}

-- An agent of this identity belongs to the run.
abbrev pub Knows : List WorkflowAgentSnapshot → String → Type 0
Knows agents id = Any (λ a. a.id ≡ id) agents

-- No two phases share an identity, and every member of a phase is an agent of the run.
pub record PhasesWell (agents : List WorkflowAgentSnapshot) (phases : List WorkflowPhaseSnapshot)
    : Type 0 where
  pub ids : Pairwise (λ p q. p.id ≢ q.id) phases
  pub members : All (λ p. All (Knows agents) p.agent_ids) phases

-- The same phase with the same members.
pub record SamePhase (p q : WorkflowPhaseSnapshot) : Type 0 where
  pub id : q.id ≡ p.id
  pub agent_ids : q.agent_ids ≡ p.agent_ids

pub SamePhase-refl : (p : WorkflowPhaseSnapshot) → SamePhase p p
SamePhase-refl p = record { id = refl; agent_ids = refl }

-- One event keeps the phases, discovers one, or lets an agent join one.
pub data PhasesStep (agents : List WorkflowAgentSnapshot) (ps qs : List WorkflowPhaseSnapshot)
    : Type 0 where
  keep : Along SamePhase ps qs → PhasesStep agents ps qs
  discover :
      (phase : WorkflowPhaseSnapshot)
      → All (λ p. p.id ≢ phase.id) ps
      → phase.agent_ids ≡ []
      → qs ≡ ps ++ phase ∷ []
      → PhasesStep agents ps qs
  join :
      (agent_id : String) (i : ℕ) (phase : WorkflowPhaseSnapshot)
      → Knows agents agent_id
      → get_elem? ps i ≡ some phase
      → qs ≡ set ps i (add_member agents agent_id phase)
      → PhasesStep agents ps qs

AgentsStep-Knows :
    (xs ys : List WorkflowAgentSnapshot) (id : String)
    → AgentsStep xs ys
    → Knows xs id
    → Knows ys id
AgentsStep-Knows xs ys id (evolve e) h =
    Any-Along Evolves (λ a. a.id ≡ id) (λ x y f p. f.id ∙ p) xs ys e h
AgentsStep-Knows xs ys id (admit agent fresh other idle e) h =
    rw e (Any-sort_by _ (λ a. a.id ≡ id) (xs ++ agent ∷ []) (Any-append_left _ xs (agent ∷ []) h))

-- Members stay known as the agents of the run change.
pub AgentsStep-members :
    (xs ys : List WorkflowAgentSnapshot) (ps : List WorkflowPhaseSnapshot)
    → AgentsStep xs ys
    → All (λ p. All (Knows xs) p.agent_ids) ps
    → All (λ p. All (Knows ys) p.agent_ids) ps
AgentsStep-members xs ys ps step =
    All-map (λ p. All-map (λ id. AgentsStep-Knows xs ys id step) p.agent_ids) ps

pub PhasesStep-PhasesWell :
    (agents : List WorkflowAgentSnapshot) (ps qs : List WorkflowPhaseSnapshot)
    → PhasesStep agents ps qs
    → PhasesWell agents ps
    → PhasesWell agents qs
PhasesStep-PhasesWell agents ps qs (keep e) w = record {
  ids =
      Pairwise-Along SamePhase (λ p q. p.id ≢ q.id) (λ x y z v f g n p. n (sym f.id ∙ p ∙ g.id)) ps
        qs e w.ids;
  members =
      All-Along SamePhase (λ p. All (Knows agents) p.agent_ids) (λ x y f h. rw f.agent_ids h) ps qs
        e w.members;
}
PhasesStep-PhasesWell agents ps qs (discover phase fresh empty e) w = rw e (record {
  ids = Pairwise-append_one (λ p q. p.id ≢ q.id) ps phase w.ids fresh;
  members =
      All-append (λ p. All (Knows agents) p.agent_ids) ps (phase ∷ []) w.members
        (subst (All (Knows agents)) (sym empty) tt, tt);
})
PhasesStep-PhasesWell agents ps qs (join agent_id i phase known found e) w = rw e (record {
  ids =
      Pairwise-set (λ p q. p.id ≢ q.id) ps i phase (add_member agents agent_id phase) found
        (λ z n. n) (λ z n. n) w.ids;
  members =
      All-set (λ p. All (Knows agents) p.agent_ids) ps i (add_member agents agent_id phase)
        w.members
        (All-sort_by _ (Knows agents) (phase.agent_ids ++ agent_id ∷ []) (
          All-append (Knows agents) phase.agent_ids (agent_id ∷ [])
            (All-get_elem? (λ p. All (Knows agents) p.agent_ids) ps i w.members found)
            (known, tt)));
})

pub change_phase-SamePhase :
    (phase_id : String) (change : WorkflowPhaseSnapshot → WorkflowPhaseSnapshot)
    (ps qs : List WorkflowPhaseSnapshot)
    → ((p : WorkflowPhaseSnapshot) → SamePhase p (change p))
    → change_phase phase_id (λ p. ok (change p)) ps ≡ ok qs
    → Along SamePhase ps qs
unfolding change_phase
change_phase-SamePhase phase_id change ps qs same h =
    let (i, x, y, at, found, hit, changed, e) =
      modify_first-Modifies _ _ _ (λ p. ok (change p)) ps qs h in
    rw e (
      Along-set SamePhase SamePhase-refl ps i x y found
        (subst (SamePhase x) (ground arith) (same x)))

pub derive_phases-SamePhase :
    (ps : List WorkflowPhaseSnapshot) (agents : List WorkflowAgentSnapshot)
    (status : WorkflowRunStatus)
    → Along SamePhase ps (derive_phases ps agents status)
unfolding derive_phases
derive_phases-SamePhase ps agents status =
    Along-map SamePhase _ (λ p. record { id = refl; agent_ids = refl }) ps
